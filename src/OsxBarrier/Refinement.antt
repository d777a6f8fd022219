-- ===== src/OsxBarrier/Refinement.antt =====
-- The barrier of src/osx-barrier.c keeps the promise of a barrier.
use acdc.Base.{
  ◌∙◌, ℕ, ◌+◌, ◌≤◌, ◌<◌, ◌≡◌, inl, inr, refl, arith, ap, sym, subst, ◌==◌, Bool-cases, dec_lt, Bool,
  true, false, if◌then◌else◌,
}
use acdc.Base.Families.{update}
use acdc.Barrier.{Calls, Kept, at_first, calls}
use acdc.Barrier.Keeping.{Kept-enter, Kept-leave}
use acdc.OsxBarrier.{
  Pc, outside, waiting, woken, System, wake, set_pc, Step, entering, leaving, Reach, initial, later,
}
use acdc.OsxBarrier.Invariant.{
  InGeneration, arrived, free, released, Inv, waits, trips, enter-waits, enter-trips, all_arrived,
  arrivals-le, Reach-Inv,
}

-- Whether a thread is in the barrier.
abbrev pub is_inside : Pc → Bool
is_inside outside = false
is_inside waiting = true
is_inside woken = true

abbrev pub calls_of : System → Calls
calls_of s = calls (λ i. is_inside (s.pc i)) s.arrivals

is_inside-update :
    (pc : ℕ → Pc) (i : ℕ) (p : Pc) (j : ℕ)
    → is_inside (update pc i p j) ≡ update (λ k. is_inside (pc k)) i (is_inside p) j
is_inside-update pc i p j = if_inside (j == i)
  where
    if_inside :
        (b : Bool)
        → is_inside (if b then p else pc j) ≡ (if b then is_inside p else is_inside (pc j))
    if_inside true = refl
    if_inside false = refl

is_inside-wake : (p : Pc) → is_inside (wake p) ≡ is_inside p
unfolding wake
is_inside-wake outside = refl
is_inside-wake waiting = refl
is_inside-wake woken = refl

-- Where a woken thread stands.
home : (k a : ℕ) (p : Pc) → p ≡ woken → InGeneration k a p → (a ≡ k) × (0 < k)
home k a waiting e (arrived q) = absurd (ground arith)
home k a outside e (free q) = absurd (ground arith)
home k a woken e (released q r) = (q, r)

module _ (n k : ℕ) (s : System) (inv : Inv n k s) (i : ℕ) (lt : i < n)
    (kept : Kept n (calls_of s)) where
  Kept-waits : s.pc i ≡ outside → Kept n (calls_of (waits s i))
  Kept-waits at =
      Kept-enter n i (λ j. is_inside (s.pc j)) (λ j. is_inside (update s.pc i waiting j)) s.arrivals
        lt kept (ap is_inside at) (is_inside-update s.pc i waiting)

  -- The last thread to arrive calls the barrier and comes back at once.
  Kept-trips : n ≤ s.barrier.count + 1 → s.pc i ≡ outside → Kept n (calls_of (trips s i))
  Kept-trips full at =
      let all = all_arrived n k i s inv lt at full in
      let entered =
        Kept-enter n i (λ j. is_inside (s.pc j)) (update (λ j. is_inside (s.pc j)) i true)
          s.arrivals lt kept (ap is_inside at) (λ j. refl) in
      Kept-leave n i (update (λ j. is_inside (s.pc j)) i true) (λ j. is_inside (wake (s.pc j)))
        (update s.arrivals i (s.arrivals i + 1)) lt entered (ground arith) (omega (arith, all i lt))
        (λ j p. omega (arith, all i lt, all j p)) out
    where
      out :
          (j : ℕ)
          → is_inside (wake (s.pc j)) ≡ update (update (λ k. is_inside (s.pc k)) i true) i false j
      out j = elim (Bool-cases (j == i)) [
        | inl same ↦
            let here : j ≡ i = ground arith in
            rw same (is_inside-wake (s.pc j) ∙ ap is_inside (ap s.pc here ∙ at))
        | inr other ↦ rw other (is_inside-wake (s.pc j))
      ]

  Kept-leaving : s.pc i ≡ woken → Kept n (calls_of (set_pc s i outside))
  Kept-leaving at =
      let (same, some_) = home k (s.arrivals i) (s.pc i) at (inv.threads i lt) in
      Kept-leave n i (λ j. is_inside (s.pc j)) (λ j. is_inside (update s.pc i outside j)) s.arrivals
        lt kept (ap is_inside at) (omega arith)
        (λ j p. omega (arith, arrivals-le k (s.arrivals j) (s.pc j) (inv.threads j p)))
        (is_inside-update s.pc i outside)

Step-Kept :
    (n k : ℕ) {s t : System} → Step n s t → Inv n k s → Kept n (calls_of s) → Kept n (calls_of t)
Step-Kept n k {s} (entering i lt at e) inv kept = elim (dec_lt (s.barrier.count + 1) n) [
  | yes early ↦
      let same = e ∙ enter-waits s i (omega (arith, inv.trip)) in
      subst (λ u. Kept n (calls_of u)) (sym same) (Kept-waits n k s inv i lt kept at)
  | no last ↦
      let same = e ∙ enter-trips s i (omega (arith, inv.trip)) in
      subst (λ u. Kept n (calls_of u)) (sym same) (Kept-trips n k s inv i lt kept (omega arith) at)
]
Step-Kept n k {s} (leaving i lt at e) inv kept =
    subst (λ u. Kept n (calls_of u)) (sym e) (Kept-leaving n k s inv i lt kept at)

-- The barrier for OS X, when `pthread_cond_wait` comes back only after a broadcast, keeps the promise of
-- a barrier: in every reachable state the calls that were made and the returns from them are those of
-- an order in which each return comes after all threads have called as often.
pub Reach-Kept_osx : (n : ℕ) {s : System} → 0 < n → Reach n (Step n) s → Kept n (calls_of s)
Reach-Kept_osx n h initial = at_first
Reach-Kept_osx n h (later r st) =
    let (k, inv) = Reach-Inv n h r in Step-Kept n k st inv (Reach-Kept_osx n h r)
