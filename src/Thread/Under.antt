-- ===== src/Thread/Under.antt =====
-- Runs of the program of src/acdc.c at given options: they keep the options, and a fact holds of the result.
use acdc.Base.{◌≡◌, refl, ◌∙◌, Bool, true, false}
use acdc.Base.Run.{Cmd, Outcome, ok, failed, pure, get_state, assert, ◌>>=◌, and_then}
use acdc.Types.{GOptions, MContext}
use acdc.Mutator.{World, in_context, context_back}
use acdc.Thread.Frame.{Keeps, kept, KeptIn, world_options, context_options}

-- A run at the options `o`, if it succeeds, keeps them and has a result that satisfies `P`.
abbrev pub EndsIn : {S A : Type 0} → (S → GOptions) → GOptions → (A → Type 0) → Outcome S A → Type 0
EndsIn g o P (ok a s) = (g s ≡ o) × P a
EndsIn g o P (failed e) = Unit

pub data Under {S A : Type 0} (g : S → GOptions) (o : GOptions) (P : A → Type 0) (m : Cmd S A)
    : Type 0 where
  under : ((s : S) → g s ≡ o → EndsIn g o P (m s)) → Under g o P m

pub run-Under :
    {S A : Type 0} {g : S → GOptions} {o : GOptions} {P : A → Type 0} {m : Cmd S A}
    → Under g o P m
    → (s : S) → g s ≡ o
    → EndsIn g o P (m s)
run-Under (under p) = p

module _ {S : Type 0} (g : S → GOptions) (o : GOptions) where
  pub Under-bind :
      {A B : Type 0} (P : A → Type 0) (Q : B → Type 0) (m : Cmd S A) (k : A → Cmd S B)
      → Under g o P m
      → ((a : A) → P a → Under g o Q (k a))
      → Under g o Q (m >>= k)
  Under-bind {A = A} {B = B} P Q m k p q = under (λ s e. go (m s) (run-Under p s e))
    where
      go : (r : Outcome S A) → EndsIn g o P r → EndsIn g o Q (and_then r k)
      go (ok a s) (e, h) = run-Under (q a h) s e
      go (failed f) h = tt

  -- What keeps the options does so under any fact.
  pub Under-Keeps : {A : Type 0} (C : Type 0) (m : Cmd S A) → C → Keeps g m → Under g o (λ _. C) m
  Under-Keeps {A = A} C m c p = under (λ s e. go (g s) e (m s) (kept p s))
    where
      go : (o' : GOptions) → o' ≡ o → (r : Outcome S A) → KeptIn g o' r → EndsIn g o (λ _. C) r
      go o' e (ok a s) h = (h ∙ e, c)
      go o' e (failed f) h = tt

  pub Under-pure : {A : Type 0} (P : A → Type 0) (a : A) → P a → Under g o P (pure a)
  Under-pure P a h = under (λ s e. (e, h))

  pub Under-get : Under g o (λ s. g s ≡ o) get_state
  Under-get = under (λ s e. (e, e))

  pub Under-assert : (b : Bool) → Under g o (λ _. b ≡ true) (assert b)
  Under-assert true = under (λ s e. (e, refl))
  Under-assert false = under (λ s e. tt)

pub Under-in_context :
    {A : Type 0} (o : GOptions) (P : A → Type 0) (m : Cmd MContext A)
    → Under context_options o P m
    → Under world_options o P (in_context m)
Under-in_context {A = A} o P m p = under (λ w e. go w (m w.mc) (run-Under p w.mc e))
  where
    go :
        (w : World) (r : Outcome MContext A)
        → EndsIn context_options o P r
        → EndsIn world_options o P (context_back w r)
    go w (ok a mc) h = h
    go w (failed e) h = tt

module _ (o : GOptions) where
  -- The steps of a run, by what they tell of its rest.
  pub bind_keeping :
      {S A B : Type 0} (g : S → GOptions) (Q : B → Type 0) (m : Cmd S A) (k : A → Cmd S B)
      → Keeps g m
      → ((a : A) → Under g o Q (k a))
      → Under g o Q (m >>= k)
  bind_keeping g Q m k p q =
      Under-bind g o (λ _. Unit {0}) Q m k (Under-Keeps g o (Unit {0}) m tt p) (λ a _. q a)

  pub bind_get :
      {S B : Type 0} (g : S → GOptions) (Q : B → Type 0) (k : S → Cmd S B)
      → ((s : S) → g s ≡ o → Under g o Q (k s))
      → Under g o Q (get_state >>= k)
  bind_get g Q k q = Under-bind g o (λ s. g s ≡ o) Q get_state k (Under-get g o) q

  pub bind_assert :
      {S B : Type 0} (g : S → GOptions) (Q : B → Type 0) (b : Bool) (k : Unit {0} → Cmd S B)
      → ((a : Unit {0}) → b ≡ true → Under g o Q (k a))
      → Under g o Q (assert b >>= k)
  bind_assert g Q b k q = Under-bind g o (λ _. b ≡ true) Q (assert b) k (Under-assert g o b) q
