-- ===== src/Base/Run.antt =====
-- Outcomes of a run over a state `S`: a result and the new state, or the way the run stopped.
-- `Cmd S` is the state and failure monad in which the stateful functions are written.
use mathlib.Core.Bool.{Bool, true, false}
use mathlib.Core.Path.{◌≡◌}

-- Undefined behaviour (a null dereference, an index out of bounds, a division by zero, a `free` of what
-- is not allocated), a failed `assert`, and a call of `exit(EXIT_FAILURE)`. A loop on fuel that has run
-- out is `out_of_fuel`.
pub data Failure : Type 0 where
  null_dereference out_of_bounds division_by_zero invalid_free : Failure
  assertion_failed exit_failure out_of_fuel : Failure

pub data Outcome (S A : Type 0) : Type 0 where
  ok : A → S → Outcome S A
  failed : Failure → Outcome S A

abbrev pub Cmd : Type 0 → Type 0 → Type 0
Cmd S A = S → Outcome S A

module _ {S : Type 0} where
  abbrev pub pure : {A : Type 0} → A → Cmd S A
  pure a s = ok a s

  abbrev pub stop : {A : Type 0} → Failure → Cmd S A
  stop e s = failed e

  abbrev pub get_state : Cmd S S
  get_state s = ok s s

  abbrev pub put_state : S → Cmd S (Unit {0})
  put_state s _ = ok tt s

  -- `assert(b)`
  abbrev pub assert : Bool → Cmd S (Unit {0})
  assert true s = ok tt s
  assert false s = failed assertion_failed

module _ {S A B : Type 0} where
  abbrev pub and_then : Outcome S A → (A → Cmd S B) → Outcome S B
  and_then (ok a s) k = k a s
  and_then (failed e) k = failed e

  infixl 5 ◌>>=◌ ◌>>◌
  abbrev pub ◌>>=◌ : Cmd S A → (A → Cmd S B) → Cmd S B
  m >>= k = λ s. and_then (m s) k

  abbrev pub ◌>>◌ : Cmd S A → Cmd S B → Cmd S B
  m >> n = m >>= λ _. n

-- Total correctness: the run succeeds, and its result and final state satisfy `P`.
abbrev pub Returns : {S A : Type 0} → (A → S → Type 0) → Outcome S A → Type 0
Returns P (ok a s) = P a s
Returns P (failed e) = ⊥

pub Returns-bind :
    {S A B : Type 0} {P : A → S → Type 0} (Q : B → S → Type 0) (r : Outcome S A) (k : A → Cmd S B)
    → Returns P r
    → ((a : A) (s : S) → P a s → Returns Q (k a s))
    → Returns Q (and_then r k)
Returns-bind Q (ok a s) k p next = next a s p
Returns-bind Q (failed e) k p next = absurd p

pub Returns-mono :
    {S A : Type 0} {P : A → S → Type 0} (Q : A → S → Type 0) (r : Outcome S A)
    → Returns P r
    → ((a : A) (s : S) → P a s → Q a s)
    → Returns Q r
Returns-mono Q (ok a s) p weaken = weaken a s p
Returns-mono Q (failed e) p weaken = absurd p

-- A failure behind a run that succeeds.
pub failed-bind :
    {S A B : Type 0} {P : A → S → Type 0} (e : Failure) (r : Outcome S A) (k : A → Cmd S B)
    → Returns P r
    → ((a : A) (s : S) → P a s → k a s ≡ failed e)
    → and_then r k ≡ failed e
failed-bind e (ok a s) k p next = next a s p
failed-bind e (failed f) k p next = absurd p
