-- ===== src/Barrier/Keeping.antt =====
-- How an implementation of a barrier (src/barrier.c, src/osx-barrier.c) keeps the promise when a thread
-- enters or leaves it.
use acdc.Base.{
  ℕ, ◌+◌, ◌≤◌, ◌<◌, ◌≡◌, inl, inr, refl, arith, sym, subst, ◌==◌, Bool, true, false, Bool-cases,
}
use acdc.Base.Families.{update}
use acdc.Barrier.{Calls, arrives, departs, call, return, Kept, then_, calls}

same_calls :
    (arrivals f g : ℕ → ℕ)
    → ((j : ℕ) → f j ≡ g j)
    → ◌≡◌ {A = Calls}
        record { arrivals = arrivals; departures = f }
        record { arrivals = arrivals; departures = g }
same_calls arrivals f g e = λ x. record { arrivals = arrivals; departures = λ j. e j x }

module _ (n i : ℕ) (inside inside' : ℕ → Bool) (arrivals : ℕ → ℕ) (lt : i < n)
    (kept : Kept n (calls inside arrivals)) where
  calls-enter :
      inside i ≡ false
      → ((j : ℕ) → inside' j ≡ update inside i true j)
      → calls inside' (update arrivals i (arrivals i + 1)) ≡ arrives (calls inside arrivals) i
  calls-enter out e = same_calls _ _ _ λ j. elim (Bool-cases (j == i)) [
    | inl same ↦ let here : j ≡ i = ground arith in rw (e j) (rw here (ground arith))
    | inr other ↦ rw (e j) (rw other refl)
  ]

  -- A thread outside of the barrier may call it.
  pub Kept-enter :
      inside i ≡ false
      → ((j : ℕ) → inside' j ≡ update inside i true j)
      → Kept n (calls inside' (update arrivals i (arrivals i + 1)))
  Kept-enter out e =
      subst (Kept n) (sym (calls-enter out e)) (then_ kept (call i lt (rw out refl) refl))

  calls-leave :
      inside i ≡ true
      → 0 < arrivals i
      → ((j : ℕ) → inside' j ≡ update inside i false j)
      → calls inside' arrivals ≡ departs (calls inside arrivals) i
  calls-leave in_ some_ e = same_calls _ _ _ λ j. elim (Bool-cases (j == i)) [
    | inl same ↦ let here : j ≡ i = ground arith in rw (e j) (rw here (ground arith))
    | inr other ↦ rw (e j) (rw other refl)
  ]

  -- A thread in the barrier may come back when all have called it as often.
  pub Kept-leave :
      inside i ≡ true
      → 0 < arrivals i
      → ((j : ℕ) → j < n → arrivals i ≤ arrivals j)
      → ((j : ℕ) → inside' j ≡ update inside i false j)
      → Kept n (calls inside' arrivals)
  Kept-leave in_ some_ all e = subst (Kept n) (sym (calls-leave in_ some_ e)) (
      then_ kept (return i lt (rw in_ (omega arith)) (λ j p. rw in_ (omega (arith, all j p))) refl))
