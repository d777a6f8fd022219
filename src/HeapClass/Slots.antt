-- ===== src/HeapClass/Slots.antt =====
-- The arithmetic of the heap class's cyclic array: when a class expires, and when it is accessed.
use acdc.Base.{
  Bool, length, List, [], ◌∷◌, none, get_elem?, ℕ, zero, suc, ◌+◌, ◌-◌, ◌%◌, ◌^◌, ◌≤◌, ◌<◌, false,
  ◌≡◌, refl, sym, ◌∙◌, ap, ◌↔◌, ◌==◌, arith, dec_lt,
}
use acdc.Base.Int.{pos, pos_part, ◌+ℤ◌, ◌-ℤ◌}
use native.Mathlib.Nat.{mod-lt, mod-add-mod, add-mod_right, mod-eq_of_lt}
use acdc.Base.Run.{failed, out_of_bounds, failed-bind}
use acdc.LifetimeClass.Stores.{load-ok}
use acdc.Mutator.{World, set_chunk, get_lsc_node}
use acdc.Mutator.NodePool.{IsNodePool, get_lsc_node-IsPool}
use acdc.Types.{Ptr, null, LClass, lifetime, GOptions}
use acdc.HeapClass.{
  set_chunk, heap_class_insert, class_at, slots, insert_index, live_index, delete_index,
}

-- Numbers with one remainder that are less than the modulus apart are equal.
mod_near : (p a b : ℕ) → a ≤ b → b < a + p → a % p ≡ b % p → a ≡ b
mod_near p a b low high e =
    let r = a % p in
    let c = b - a in
    let small : r < p = mod-lt a (omega arith) in
    let shifted : (r + c) % p ≡ r = mod-add-mod a p c ∙ (ap (λ x. x % p) (omega arith) ∙ sym e) in
    elim (dec_lt (r + c) p) [
      | yes inside ↦ let same : (r + c) % p ≡ r + c = mod-eq_of_lt inside in omega arith
      | no outside ↦
          let folded : (r + c) % p ≡ r + c - p =
            ap (λ x. x % p) (omega arith)
            ∙ (add-mod_right (r + c - p) p ∙ mod-eq_of_lt (omega arith)) in
          omega arith
    ]

pub mod_near_either : (p a b : ℕ) → a < b + p → b < a + p → a % p ≡ b % p → a ≡ b
mod_near_either p a b low high e = elim (dec_lt a b) [
  | yes below ↦ mod_near p a b (omega arith) high e
  | no above ↦ sym (mod_near p b a (omega arith) low (sym e))
]

-- The expired slot: the index is a natural number `i`, and `i + deallocation_delay` stands for the time.
delete_index_lem :
    (g : GOptions) (u : ℕ)
    → 0 < g.max_liveness
    → (i : ℕ) × (delete_index g u ≡ pos i)
      × (i < slots g)
      × ((i + g.deallocation_delay) % slots g ≡ u % slots g)
unfolding delete_index ◌+ℤ◌ ◌-ℤ◌
delete_index_lem g u h =
    let p = slots g in
    let d = g.deallocation_delay in
    let s = u % p in
    let small : s < p = mod-lt u (omega arith) in
    elim (dec_lt s d) [
      | yes wraps ↦ (
        s + p - d,
        ground arith,
        omega arith,
        ap (λ x. x % p) (omega arith) ∙ (add-mod_right s p ∙ mod-eq_of_lt small),
      )
      | no stays ↦
          (s - d, ground arith, omega arith, ap (λ x. x % p) (omega arith) ∙ mod-eq_of_lt small)
    ]

insert_index_lem :
    (g : GOptions) (t l : ℕ)
    → l + g.deallocation_delay < 2 ^ 32
    → insert_index g t (l + g.deallocation_delay) ≡ (t + l) % slots g
unfolding insert_index
insert_index_lem g t l h = ap (λ k. (t + k) % slots g) (omega arith)

-- A class of liveness `l` that is put into a heap class at time `t` expires at time
-- `t + l + deallocation_delay`, and at no earlier time after `t`, nor at a later one within a period:
-- only then `heap_class_remove` takes the slot that `heap_class_insert` chose. The liveness is between
-- 1 and the largest, and the lifetime fits in an `unsigned int`.
pub delete_index-insert_index :
    (g : GOptions) (t l u : ℕ)
    → 0 < l
    → l ≤ g.max_liveness
    → l + g.deallocation_delay < 2 ^ 32
    → t < u
    → u ≤ t + slots g
    → (delete_index g u ≡ pos (insert_index g t (l + g.deallocation_delay)))
      ↔ (u ≡ t + l + g.deallocation_delay)
delete_index-insert_index g t l u h₁ h₂ h₃ h₄ h₅ =
    let p = slots g in
    let d = g.deallocation_delay in
    let (i, e, small, stands) = delete_index_lem g u (omega arith) in
    let j = (t + l) % p in
    let small_j : j < p = mod-lt (t + l) (omega arith) in
    let stands_j : (j + d) % p ≡ (t + l + d) % p = mod-add-mod (t + l) p d in
    let inserted = insert_index_lem g t l h₃ in
    (
      (λ same.
          let i_j : i ≡ j = ap pos_part (sym e ∙ same ∙ ap pos inserted) in
          mod_near_either p u (t + l + d) (omega arith) (omega arith)
            (sym stands ∙ (ap (λ k. (k + d) % p) i_j ∙ stands_j))),
      λ now.
          let i_j : i + d ≡ j + d =
            mod_near_either p (i + d) (j + d) (omega arith) (omega arith)
              (stands ∙ (ap (λ k. k % p) now ∙ sym stands_j)) in
          e ∙ ap pos (omega (arith, i_j) ∙ sym inserted),
    )

-- Between its insertion and its expiry a class is accessed as long as it is live, and not during the
-- delay: at time `u` the loop over the `max_liveness` live slots meets the slot that
-- `heap_class_insert` chose if and only if `u ≤ t + l`. No clock overflows.
pub live_index-insert_index :
    (g : GOptions) (t l u : ℕ)
    → 0 < l
    → l ≤ g.max_liveness
    → l + g.deallocation_delay < 2 ^ 32
    → u + g.max_liveness < 2 ^ 32
    → t < u
    → u < t + l + g.deallocation_delay
    → ((i : ℕ) × (i < g.max_liveness)
        × (live_index g u i ≡ insert_index g t (l + g.deallocation_delay)))
      ↔ (u ≤ t + l)
unfolding live_index
live_index-insert_index g t l u h₁ h₂ h₃ h₄ h₅ h₆ =
    let p = slots g in
    let inserted = insert_index_lem g t l h₃ in
    (
      (λ (i, inside, same).
          let no_wrap : (u + i) % 2 ^ 32 ≡ u + i = omega arith in
          let meets : (u + i) % p ≡ (t + l) % p =
            ap (λ k. k % p) (sym no_wrap) ∙ (same ∙ inserted) in
          let equal : u + i ≡ t + l =
            mod_near_either p (u + i) (t + l) (omega arith) (omega arith) meets in
          omega (arith, equal)),
      λ live.
          let reached : (u + (t + l - u)) % 2 ^ 32 ≡ t + l = omega arith in
          (t + l - u, omega arith, ap (λ k. k % p) reached ∙ sym inserted),
    )

pub live_index_bound : (g : GOptions) (t i : ℕ) → 0 < slots g → live_index g t i < slots g
unfolding live_index
live_index_bound g t i h = mod-lt ((t + i) % 2 ^ 32) h

-- The slots of different live classes are different.
pub live_index-distinct :
    (g : GOptions) (t i j : ℕ)
    → t + g.max_liveness < 2 ^ 32
    → i < g.max_liveness
    → j < g.max_liveness
    → live_index g t i ≡ live_index g t j
    → i ≡ j
unfolding live_index
live_index-distinct g t i j fits h₁ h₂ same =
    let no_wrap_i : (t + i) % 2 ^ 32 ≡ t + i = omega arith in
    let no_wrap_j : (t + j) % 2 ^ 32 ≡ t + j = omega arith in
    let meets : (t + i) % slots g ≡ (t + j) % slots g =
      ap (λ k. k % slots g) (sym no_wrap_i) ∙ (same ∙ ap (λ k. k % slots g) no_wrap_j) in
    omega (arith, mod_near_either (slots g) (t + i) (t + j) (omega arith) (omega arith) meets)

-- An entry past the end of a heap class is not there.
get_elem-none : (xs : List LClass) (i : ℕ) → length xs ≤ i → get_elem? xs i ≡ none
get_elem-none [] i h = refl
get_elem-none (x ∷ xs) zero h = absurd (omega arith)
get_elem-none (x ∷ xs) (suc i) h = get_elem-none xs i (omega arith)

-- A shared heap class has `max_liveness` entries, one for each liveness but none for the delay. The
-- insertion of a class of liveness `l` at a time whose slot for it is one of the last
-- `deallocation_delay` ones leaves the array, also when the pool of nodes has a node for it.
pub heap_class_insert-out_of_bounds :
    (w : World) (used : Ptr → Bool) (xs : List Ptr) (heap_class : List LClass) (c : Ptr) (l : ℕ)
    → IsNodePool w xs used
    → (xs ≡ [] → w.mc.node_buffer_counter < w.mc.gopts.node_buffer_size)
    → (c == null) ≡ false
    → length heap_class ≡ w.mc.gopts.max_liveness
    → 0 < w.mc.gopts.max_liveness
    → lifetime (w.heap c) ≡ l + w.mc.gopts.deallocation_delay
    → l + w.mc.gopts.deallocation_delay < 2 ^ 32
    → w.mc.gopts.max_liveness ≤ (w.mc.time + l) % slots w.mc.gopts
    → heap_class_insert heap_class c w ≡ failed out_of_bounds
unfolding heap_class_insert class_at set_chunk
heap_class_insert-out_of_bounds w used xs heap_class c l pool room nc len some_slot at fits past =
    let slots_left : (slots w.mc.gopts == 0) ≡ false = ground arith in
    let index : insert_index w.mc.gopts w.mc.time (lifetime (w.heap c))
        ≡ (w.mc.time + l) % slots w.mc.gopts =
      ap (insert_index w.mc.gopts w.mc.time) at ∙ insert_index_lem w.mc.gopts w.mc.time l fits in
    let missing =
      get_elem-none heap_class (insert_index w.mc.gopts w.mc.time (lifetime (w.heap c)))
        (omega (arith, index)) in
    rw (load-ok c w.heap nc, slots_left)
      (failed-bind out_of_bounds (get_lsc_node w) _ (get_lsc_node-IsPool w used xs pool room)
        λ n w₁ (_, nn, _, _, _).
          let nz : (n == null) ≡ false = ground (arith, nn) in rw (nz, missing) refl)
