-- ===== src/Thread/Frame.antt =====
-- What the operations of a thread (src/acdc.c, src/lifetime-size-classes.c, src/distribution.c) leave
-- alone: the options.
use acdc.Base.{◌≡◌, refl, ◌∙◌, Bool, true, false, if◌then◌else◌, ◌==◌}
use acdc.Base.Run.{
  Cmd, Outcome, ok, failed, Failure, pure, stop, null_dereference, get_state, assert, ◌>>=◌,
}
use acdc.Types.{GOptions, MContext, Heap, Chunk, Ptr, null, write}
use acdc.Store.{Store}
use acdc.ProcStatus.{ProcStatus}
use acdc.Mutator.{World, in_context, in_heap, in_store, in_proc, set_context, set_chunk, rdtsc}

-- The options after a run, if it succeeds, are those from before.
abbrev pub KeptIn : {S A : Type 0} → (S → GOptions) → GOptions → Outcome S A → Type 0
KeptIn g o (ok a s) = g s ≡ o
KeptIn g o (failed e) = Unit

pub data Keeps {S A : Type 0} (g : S → GOptions) (m : Cmd S A) : Type 0 where
  keeps : ((s : S) → KeptIn g (g s) (m s)) → Keeps g m

pub kept :
    {S A : Type 0} {g : S → GOptions} {m : Cmd S A} → Keeps g m → (s : S) → KeptIn g (g s) (m s)
kept (keeps p) = p

abbrev pub context_options : MContext → GOptions
context_options mc = mc.gopts

abbrev pub world_options : World → GOptions
world_options w = w.mc.gopts

module _ {S : Type 0} (g : S → GOptions) where
  pub Keeps-pure : {A : Type 0} (a : A) → Keeps g (pure a)
  Keeps-pure a = keeps (λ s. refl)

  pub Keeps-stop : {A : Type 0} (e : Failure) → Keeps {A = A} g (stop e)
  Keeps-stop e = keeps (λ s. tt)

  pub Keeps-get : Keeps g get_state
  Keeps-get = keeps (λ s. refl)

  pub Keeps-assert : (b : Bool) → Keeps g (assert b)
  Keeps-assert true = keeps (λ s. refl)
  Keeps-assert false = keeps (λ s. tt)

  pub Keeps-if :
      {A : Type 0} (b : Bool) (m n : Cmd S A) → Keeps g m → Keeps g n → Keeps g (if b then m else n)
  Keeps-if true m n p q = p
  Keeps-if false m n p q = q

  KeptIn-bind :
      {A B : Type 0} (o : GOptions) (r : Outcome S A) (k : A → Cmd S B)
      → KeptIn g o r
      → ((a : A) → Keeps g (k a))
      → KeptIn g o (acdc.Base.Run.and_then r k)
  KeptIn-bind {B = B} o (ok a s) k p q = go (k a s) (kept (q a) s)
    where
      go : (r : Outcome S B) → KeptIn g (g s) r → KeptIn g o r
      go (ok b s') e = e ∙ p
      go (failed f) e = tt
  KeptIn-bind o (failed e) k p q = tt

  pub Keeps-bind :
      {A B : Type 0} (m : Cmd S A) (k : A → Cmd S B)
      → Keeps g m
      → ((a : A) → Keeps g (k a))
      → Keeps g (m >>= k)
  Keeps-bind m k p q = keeps (λ s. KeptIn-bind (g s) (m s) k (kept p s) q)

module _ {A : Type 0} where
  pub Keeps-in_heap : (m : Cmd Heap A) → Keeps world_options (in_heap m)
  Keeps-in_heap m = keeps (λ w. go w (m w.heap))
    where
      go :
          (w : World) (r : Outcome Heap A)
          → KeptIn world_options w.mc.gopts (acdc.Mutator.heap_back w r)
      go w (ok a h) = refl
      go w (failed e) = tt

  pub Keeps-in_store : (m : Cmd Store A) → Keeps world_options (in_store m)
  Keeps-in_store m = keeps (λ w. go w (m w.store))
    where
      go :
          (w : World) (r : Outcome Store A)
          → KeptIn world_options w.mc.gopts (acdc.Mutator.store_back w r)
      go w (ok a h) = refl
      go w (failed e) = tt

  pub Keeps-in_proc : (m : Cmd ProcStatus A) → Keeps world_options (in_proc m)
  Keeps-in_proc m = keeps (λ w. go w (m w.proc_status))
    where
      go :
          (w : World) (r : Outcome ProcStatus A)
          → KeptIn world_options w.mc.gopts (acdc.Mutator.proc_back w r)
      go w (ok a h) = refl
      go w (failed e) = tt

  pub Keeps-in_context :
      (m : Cmd MContext A) → Keeps context_options m → Keeps world_options (in_context m)
  Keeps-in_context m p = keeps (λ w. go w (m w.mc) (kept p w.mc))
    where
      go :
          (w : World) (r : Outcome MContext A)
          → KeptIn context_options w.mc.gopts r
          → KeptIn world_options w.mc.gopts (acdc.Mutator.context_back w r)
      go w (ok a h) e = e
      go w (failed f) e = tt

pub Keeps-set_context :
    (f : MContext → MContext)
    → ((mc : MContext) → (f mc).gopts ≡ mc.gopts)
    → Keeps world_options (set_context f)
Keeps-set_context f p = keeps (λ w. p w.mc)

pub Keeps-set_chunk : (p : Ptr) (f : Chunk → Chunk) → Keeps world_options (set_chunk p f)
unfolding set_chunk
Keeps-set_chunk p f = keeps (λ w. by_test (p == null) w)
  where
    by_test :
        (b : Bool) (w : World)
        → KeptIn {A = Unit {0}} world_options w.mc.gopts (
            if b
            then failed null_dereference
            else ok tt (record w { heap = write w.heap p (f (w.heap p)) }))
    by_test true w = tt
    by_test false w = refl

pub Keeps-rdtsc : Keeps world_options rdtsc
unfolding rdtsc
Keeps-rdtsc = keeps (λ w. refl)

pub ruleset keeping = (
  Keeps-pure, Keeps-stop, Keeps-get, Keeps-assert, Keeps-if, Keeps-bind, Keeps-in_heap,
  Keeps-in_store, Keeps-in_proc, Keeps-in_context, Keeps-set_context, Keeps-set_chunk, Keeps-rdtsc,
)
