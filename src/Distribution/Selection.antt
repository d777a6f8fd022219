-- ===== src/Distribution/Selection.antt =====
-- `get_random_thread_selection` of src/distribution.c selects distinct threads.
use native.Mathlib.Nat.{div-eq_of_lt}
use acdc.Base.{
  ℕ, zero, suc, ◌+◌, ◌-◌, ◌/◌, ◌≤◌, ◌<◌, ◌≡◌, refl, arith, ap, List, length, get_or, set,
  length-set, get_or-set, sym, ◌==◌, ◌∙◌, Bool-cases, inl, inr, true, false, ◌||◌, ◌⊎◌,
  if◌then◌else◌,
}
use acdc.Base.Int.{IsInt32}
use acdc.Base.Xor.{bit_xor_cancel, bit_xor_comm}
use acdc.Base.Run.{failed, Returns, Returns-mono, division_by_zero}
use Prim.Native.Nat.{bit_xor}
use acdc.Types.{MContext}
use acdc.Distribution.{swap_int, thread_ids, remove_thread_ids, get_random_thread_selection}
use acdc.Distribution.Range.{
  advance, drawn, drawn_bounds, get_rand_int_range_lem, next_rand_value-IsInt32,
}
use acdc.Distribution.Props.{sub-pos}

-- The exchange that the exclusive ors amount to.
swap_int-set :
    (xs : List ℕ) (a b : ℕ)
    → (a == b) ≡ false
    → swap_int xs a b ≡ set (set xs b (get_or xs a 0)) a (get_or xs b 0)
unfolding swap_int
swap_int-set xs a b ne =
    let p = get_or xs a 0 in
    let q = get_or xs b 0 in
    let back : bit_xor (bit_xor p q) p ≡ q =
      bit_xor_comm (bit_xor p q) p ∙ ap (bit_xor p) (bit_xor_comm p q) ∙ bit_xor_cancel q p in
    rw (ne, bit_xor_cancel p q, back)

swap_int-same : (xs : List ℕ) (a b : ℕ) → (a == b) ≡ true → swap_int xs a b ≡ xs
unfolding swap_int
swap_int-same xs a b same = rw same

-- Both elements are exchanged and no other is changed.
pub get_or-swap_int :
    (xs : List ℕ) (a b i : ℕ)
    → a < length xs
    → b < length xs
    → get_or (swap_int xs a b) i 0 ≡ get_or xs (if i == a then b else if i == b then a else i) 0
get_or-swap_int xs a b i la lb = elim (Bool-cases (a == b)) [
  | inl same ↦ rw (swap_int-same xs a b same) (ap (λ k. get_or xs k 0) (ground arith))
  | inr ne ↦
      rw
        (
          swap_int-set xs a b ne,
          get_or-set (set xs b (get_or xs a 0)) a i (get_or xs b 0) 0
              (omega (arith, length-set xs b (get_or xs a 0))),
          get_or-set xs b i (get_or xs a 0) 0 lb,
        )
        (ground arith)
]

pub length-swap_int : (xs : List ℕ) (a b : ℕ) → length (swap_int xs a b) ≡ length xs
unfolding swap_int
length-swap_int xs a b = elim (Bool-cases (a == b)) [
  | inl same ↦ rw same
  | inr ne ↦ rw ne (length-set (set xs b _) a _ ∙ length-set xs b _)
]

-- An array of `n` different numbers below `n`.
pub record IsArrangement (n : ℕ) (xs : List ℕ) : Type 0 where
  pub size : length xs ≡ n
  pub below : (i : ℕ) → i < n → get_or xs i 0 < n
  pub distinct : (i j : ℕ) → i < n → j < n → get_or xs i 0 ≡ get_or xs j 0 → i ≡ j

length-thread_ids : (n from : ℕ) → length (thread_ids n from) ≡ n
unfolding thread_ids
length-thread_ids zero from = refl
length-thread_ids (suc n) from = ap suc (length-thread_ids n (from + 1))

get_or-thread_ids : (n from i : ℕ) → i < n → get_or (thread_ids n from) i 0 ≡ from + i
unfolding thread_ids
get_or-thread_ids zero from i h = absurd (omega arith)
get_or-thread_ids (suc n) from zero h = omega arith
get_or-thread_ids (suc n) from (suc i) h =
    omega (arith, get_or-thread_ids n (from + 1) i (omega arith))

thread_ids-IsArrangement : (n : ℕ) → IsArrangement n (thread_ids n 0)
thread_ids-IsArrangement n = record {
  size = length-thread_ids n 0;
  below = λ i h. omega (arith, get_or-thread_ids n 0 i h);
  distinct = λ i j p q e. omega (arith, get_or-thread_ids n 0 i p, get_or-thread_ids n 0 j q);
}

-- Where index `i` of the array came from.
abbrev origin : ℕ → ℕ → ℕ → ℕ
origin a b i = if i == a then b else if i == b then a else i

swap_int-IsArrangement :
    (n : ℕ) (xs : List ℕ) (a b : ℕ)
    → IsArrangement n xs
    → a < n
    → b < n
    → IsArrangement n (swap_int xs a b)
swap_int-IsArrangement n xs a b arr la lb = record {
  size = length-swap_int xs a b ∙ arr.size;
  below = λ i h.
      rw (get_or-swap_int xs a b i (omega (arith, arr.size)) (omega (arith, arr.size)))
        (arr.below (origin a b i) (ground arith));
  distinct = λ i j p q e.
      let from : get_or xs (origin a b i) 0 ≡ get_or xs (origin a b j) 0 =
        sym (get_or-swap_int xs a b i (omega (arith, arr.size)) (omega (arith, arr.size)))
        ∙ e
        ∙ get_or-swap_int xs a b j (omega (arith, arr.size)) (omega (arith, arr.size)) in
      let one = arr.distinct (origin a b i) (origin a b j) (ground arith) (ground arith) from in
      ground arith;
}

-- From an arrangement of `n` identifiers every round leaves an arrangement, with one less selected.
remove_thread_ids-Returns :
    (n rounds size : ℕ) (xs : List ℕ) (mc : MContext)
    → IsInt32 mc.rand
    → IsArrangement n xs
    → size ≤ n
    → rounds ≤ size
    → Returns
        (λ (ys, k) mc'.
          IsArrangement n ys × (k ≡ size - rounds) × (mc' ≡ record mc { rand = mc'.rand }))
        (remove_thread_ids rounds xs size mc)
unfolding remove_thread_ids
remove_thread_ids-Returns n zero size xs mc h arr le r = (arr, omega arith, refl)
remove_thread_ids-Returns n (suc rounds) size xs mc h arr le r =
    let id = drawn mc 0 (size - 1) in
    let in_id = drawn_bounds mc 0 (size - 1) (omega arith) in
    let rest =
      remove_thread_ids-Returns n rounds (size - 1) (swap_int xs id (size - 1)) (advance mc)
        (next_rand_value-IsInt32 mc.rand h)
        (swap_int-IsArrangement n xs id (size - 1) arr (omega arith) (omega arith)) (omega arith)
        (omega arith) in
    let fewer : size - 1 - rounds ≡ size - suc rounds = omega arith in
    rw (sub-pos size (omega arith), get_rand_int_range_lem 0 (size - 1) mc h (omega arith))
      (rw (← fewer) rest)

-- For a ratio from 1 to 100 the selection succeeds: it selects `num_threads / (100 / ratio)`
-- threads, the array holds different identifiers below `num_threads`, and of the context only the number
-- of the generator changes.
pub get_random_thread_selection-IsArrangement :
    (mc : MContext)
    → IsInt32 mc.rand
    → 1 ≤ mc.gopts.receiving_threads_ratio
    → mc.gopts.receiving_threads_ratio ≤ 100
    → Returns
        (λ (ids, k) mc'.
          IsArrangement mc.gopts.num_threads ids
          × (k ≡ mc.gopts.num_threads / (100 / mc.gopts.receiving_threads_ratio))
          × (k ≤ mc.gopts.num_threads)
          × (mc' ≡ record mc { rand = mc'.rand }))
        (get_random_thread_selection mc)
unfolding get_random_thread_selection
get_random_thread_selection-IsArrangement mc h lo hi =
    let n = mc.gopts.num_threads in
    let sharing = n / (100 / mc.gopts.receiving_threads_ratio) in
    let few : sharing ≤ n = grind arith in
    let test : (mc.gopts.receiving_threads_ratio == 0
          || 100 / mc.gopts.receiving_threads_ratio == 0)
        ≡ false =
      ground arith in
    let run =
      remove_thread_ids-Returns n (n - sharing) n (thread_ids n 0) mc h (thread_ids-IsArrangement n)
        (omega arith) (omega arith) in
    rw test (
      Returns-mono _ (remove_thread_ids (n - sharing) (thread_ids n 0) n mc) run
        (λ (ids, k) mc' (arr, e, g). (arr, omega arith, omega arith, g)))

div_one : (r : ℕ) → 50 < r → r ≤ 100 → 100 / r ≡ 1
div_one r p q = grind arith

-- The ratio is rounded up to one of 100 / 1, 100 / 2, 100 / 3, ...: above 50 percent every thread is
-- selected.
pub get_random_thread_selection_above_half :
    (mc : MContext)
    → IsInt32 mc.rand
    → 50 < mc.gopts.receiving_threads_ratio
    → mc.gopts.receiving_threads_ratio ≤ 100
    → Returns (λ (ids, k) mc'. k ≡ mc.gopts.num_threads) (get_random_thread_selection mc)
get_random_thread_selection_above_half mc h lo hi =
    Returns-mono _ (get_random_thread_selection mc)
      (get_random_thread_selection-IsArrangement mc h (omega arith) hi)
      (λ (ids, k) mc' (arr, e, le, g).
        let whole = div_one mc.gopts.receiving_threads_ratio lo hi in rw (e, whole) (omega arith))

test_faults : (r : ℕ) → (r ≡ 0) ⊎ (100 < r) → (r == 0 || 100 / r == 0) ≡ true
test_faults r (inl e) = ground arith
test_faults r (inr h) = ground (arith, div-eq_of_lt h)

-- A ratio of 0, and one above 100, divides by zero.
pub get_random_thread_selection_faults :
    (mc : MContext)
    → (mc.gopts.receiving_threads_ratio ≡ 0) ⊎ (100 < mc.gopts.receiving_threads_ratio)
    → get_random_thread_selection mc ≡ failed division_by_zero
unfolding get_random_thread_selection
get_random_thread_selection_faults mc out = rw (test_faults mc.gopts.receiving_threads_ratio out)
