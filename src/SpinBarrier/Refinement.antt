-- ===== src/SpinBarrier/Refinement.antt =====
-- The spinning barrier of src/barrier.c keeps the promise of a barrier.
use acdc.Base.{
  ◌∙◌, ℕ, ◌+◌, ◌^◌, ◌<◌, ◌≡◌, refl, arith, ap, sym, subst, ◌==◌, Bool, true, false, if◌then◌else◌,
}
use acdc.Base.Families.{update, total}
use acdc.Barrier.{Calls, Kept, at_first, calls}
use acdc.Barrier.Keeping.{Kept-enter, Kept-leave}
use acdc.SpinBarrier.{
  Pc, outside, spinning, System, next_count, Step, enter, exit, Reach, initial, later,
}
use acdc.SpinBarrier.Invariant.{InGeneration, arrived, free, released, Reach-Inv, arrivals-Step}
use acdc.SpinBarrier.Safety.{leave_after_all}

-- Whether a thread is in the barrier.
abbrev pub is_inside : Pc → Bool
is_inside outside = false
is_inside (spinning next) = true

abbrev pub calls_of : System → Calls
calls_of s = calls (λ i. is_inside (s.pc i)) s.arrivals

is_inside-update :
    (pc : ℕ → Pc) (i : ℕ) (p : Pc) (j : ℕ)
    → is_inside (update pc i p j) ≡ update (λ k. is_inside (pc k)) i (is_inside p) j
is_inside-update pc i p j = if_inside (j == i)
  where
    if_inside :
        (b : Bool)
        → is_inside (if b then p else pc j) ≡ (if b then is_inside p else is_inside (pc j))
    if_inside true = refl
    if_inside false = refl

-- A thread that spins has called the barrier.
has_called : (n k a next : ℕ) (p : Pc) → p ≡ spinning next → InGeneration n k a p → 0 < a
has_called n k a next p e (arrived q f) = omega (arith, q)
has_called n k a next p e (free q f) = absurd (apart next (sym f ∙ e))
  where
    apart : (m : ℕ) → outside ≡ spinning m → ⊥
    apart m g = ground arith
has_called n k a next p e (released q r f) = omega (arith, q, r)

Step-Kept :
    (n : ℕ) {s t : System}
    → 0 < n
    → Reach n s
    → total n s.arrivals + 1 < 2 ^ 64
    → Step n s t
    → Kept n (calls_of s)
    → Kept n (calls_of t)
Step-Kept n {s} h r few (enter i lt at e) kept =
    let waits = spinning (next_count s.barrier) in
    subst (λ u. Kept n (calls_of u)) (sym e)
      (Kept-enter n i (λ j. is_inside (s.pc j)) (λ j. is_inside (update s.pc i waits j)) s.arrivals
        lt kept (ap is_inside at) (is_inside-update s.pc i waits))
Step-Kept n {s} h r few (exit i next lt at ready e) kept =
    let (k, inv) = Reach-Inv n h r few in
    subst (λ u. Kept n (calls_of u)) (sym e)
      (Kept-leave n i (λ j. is_inside (s.pc j)) (λ j. is_inside (update s.pc i outside j))
        s.arrivals lt kept (ap is_inside at)
        (has_called n k (s.arrivals i) next (s.pc i) at (inv.threads i lt))
        (λ j p. leave_after_all n s h r few i next lt at ready j p)
        (is_inside-update s.pc i outside))

-- The spinning barrier keeps the promise of a barrier: in every state reached with fewer than 2 ^ 64 - 1
-- calls, the calls that were made and the returns from them are those of an order in which each return
-- comes after all threads have called as often.
pub Reach-Kept_spin :
    (n : ℕ) {s : System} → 0 < n → Reach n s → total n s.arrivals + 1 < 2 ^ 64 → Kept n (calls_of s)
Reach-Kept_spin n h initial few = at_first
Reach-Kept_spin n h (later r st) few =
    let grow = arrivals-Step n st in
    Step-Kept n h r (omega arith) st (Reach-Kept_spin n h r (omega arith))
