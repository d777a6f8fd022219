-- ===== src/Main/Accepted.antt =====
-- The command lines for which `main` of src/main.c comes to a report.
use acdc.Base.{
  ℕ, ◌+◌, ◌<◌, ◌≤◌, ◌^◌, ◌≡◌, refl, sym, ◌∙◌, ap, Bool, List, Option, none, some, ◌⊎◌, inl, inr,
  if◌then◌else◌, ◌*◌,
}
use acdc.Base.Int.{pos}
use acdc.Base.Run.{Cmd, Outcome, ok, failed, and_then, pure, stop, exit_failure}
use acdc.Base.Double.{Arithmetic}
use acdc.Options.Detection.{autodetect_metadata_parameters}
use acdc.Options.Detected.{autodetect_metadata_parameters-IsDetected}
use acdc.Types.{GOptions, Mode, acdc_mode, fs_mode, MContext, LClass}
use acdc.Options.{
  Letter, Allocator, default_params, apply_options, next_option, check_params,
  set_allocation_pointers,
}
use acdc.Options.Parameters.{SizesGiven, NoSizeGiven, check_params_lem}
use acdc.MetadataHeap.{MetadataHeap, init_metadata_heap, malloc_meta, calloc_meta}
use acdc.RunAcdc.{Timeval, run_acdc, is_supported, sizeof_pthread_t, sizeof_pthread_mutex_t}
use acdc.Main.{Environment, run_in, run_checked, main}

-- The run stops.
abbrev Fails : {S A : Type 0} → Outcome S A → Type 0
Fails (ok a s) = ⊥
Fails (failed e) = Unit

Fails-bind :
    {S A B : Type 0} (r : Outcome S A) (k : A → Cmd S B)
    → ((a : A) (s : S) → Fails (k a s))
    → Fails (and_then r k)
Fails-bind (ok a s) k f = f a s
Fails-bind (failed e) k f = tt

run_acdc-Fails :
    (d : Arithmetic) (run_threads : List (MContext × List LClass) → Option (List MContext))
    (b : Bool) (start end : Timeval) (g : GOptions) (h : MetadataHeap)
    → g.mode ≡ fs_mode
    → Fails (run_acdc d run_threads b start end g h)
unfolding run_acdc is_supported
run_acdc-Fails d run_threads b start end g h e =
    Fails-bind (malloc_meta (sizeof_pthread_t * g.num_threads) h) _ λ _ s₁.
      Fails-bind (malloc_meta (8 * g.num_threads) s₁) _ λ _ s₂.
        Fails-bind (malloc_meta (8 * g.num_threads) s₂) _ λ _ s₃.
          Fails-bind (calloc_meta g.num_threads 8 s₃) _ λ _ s₄.
            Fails-bind (calloc_meta g.num_threads sizeof_pthread_mutex_t s₄) _
              λ _ s₅. Fails-bind ((if b then pure tt else stop exit_failure) s₅) _ λ _ s₆. rw e tt

run_in-Fails :
    (e : Environment) (allocator : Allocator) (g : GOptions) (first second : Option ℕ)
    → g.mode ≡ fs_mode
    → Fails (run_in e allocator (init_metadata_heap first second e.memory g))
unfolding run_in init_metadata_heap
run_in-Fails e allocator g (some r) second m =
    run_acdc-Fails e.doubles (e.run_threads allocator) e.barrier_ok e.start e.end _ _ m
run_in-Fails e allocator g none (some r) m =
    run_acdc-Fails e.doubles (e.run_threads allocator) e.barrier_ok e.start e.end _ _ m
run_in-Fails e allocator g none none m = tt

run_checked-Fails :
    (e : Environment) (g : GOptions) → g.mode ≡ fs_mode → Fails (run_checked e (some g))
unfolding run_checked set_allocation_pointers
run_checked-Fails e g m =
    let (allocator, g') = set_allocation_pointers g in
    run_in-Fails e allocator g' e.first e.second m

mode-cases : (m : Mode) → (m ≡ acdc_mode) ⊎ (m ≡ fs_mode)
mode-cases acdc_mode = inl refl
mode-cases fs_mode = inr refl

-- The options that the command line sets, if they are accepted.
pub record Accepted (options : List (Letter × List ℕ)) : Type 0 where
  pub params : GOptions
  pub given : apply_options options default_params ≡ some params
  pub mode : params.mode ≡ acdc_mode
  pub ratio : (q : ℕ) × (params.list_based_ratio ≡ pos q) × (q ≤ 100)
  pub sizes : SizesGiven params ⊎ NoSizeGiven params

-- The run comes to a result.
abbrev pub Succeeds : {S A : Type 0} → Outcome S A → Type 0
Succeeds (ok a s) = Unit
Succeeds (failed e) = ⊥

clash : {S A : Type 0} (r : Outcome S A) → Fails r → Succeeds r → ⊥
clash (ok a s) f done = f
clash (failed e) f done = done

module _ (e : Environment) (options : List (Letter × List ℕ))
    (small : (g : GOptions)
      → apply_options options default_params ≡ some g
      → g.metadata_heap_sz + g.node_buffer_size + g.class_buffer_size < 2 ^ 64) where
  params-Accepted :
      (g accepted : GOptions)
      → apply_options options default_params ≡ some g
      → check_params (autodetect_metadata_parameters e.doubles) g ≡ some accepted
      → Succeeds (run_checked e (some accepted))
      → Accepted options
  params-Accepted g accepted given checked done =
      let (ratio, (c, completed, sizes)) =
        check_params_lem (autodetect_metadata_parameters e.doubles) g accepted (small g given)
          checked in
      let same : accepted.mode ≡ g.mode = elim sizes [
        | inl (_, e₁) ↦ ap (λ (x : GOptions). x.mode) (sym e₁) ∙ completed.mode
        | inr (_, e₁) ↦
            ap (λ (x : GOptions). x.mode)
              (autodetect_metadata_parameters-IsDetected e.doubles c accepted e₁).same
            ∙ completed.mode
      ] in
      let mode : g.mode ≡ acdc_mode = elim (mode-cases g.mode) [
        | inl acdc ↦ acdc
        | inr fs ↦
            absurd (
              clash (run_checked e (some accepted)) (run_checked-Fails e accepted (same ∙ fs)) done)
      ] in
      record {
        params = g;
        given = given;
        mode = mode;
        ratio = ratio;
        sizes = elim sizes [ inl (s, _) ↦ inl s | inr (s, _) ↦ inr s ];
      }

  checked-Accepted :
      (g : GOptions) (c : Option GOptions)
      → apply_options options default_params ≡ some g
      → check_params (autodetect_metadata_parameters e.doubles) g ≡ c
      → Succeeds (run_checked e c)
      → Accepted options
  unfolding run_checked
  checked-Accepted g none given checked done = absurd done
  checked-Accepted g (some accepted) given checked done =
      params-Accepted g accepted given checked done

  given-Accepted :
      (o : Option GOptions)
      → apply_options options default_params ≡ o
      → Succeeds
          (run_checked e (next_option o (check_params (autodetect_metadata_parameters e.doubles))))
      → Accepted options
  unfolding run_checked
  given-Accepted none given done = absurd done
  given-Accepted (some g) given done =
      checked-Accepted g (check_params (autodetect_metadata_parameters e.doubles) g) given refl done

  -- `main` comes to a report only if the options of the command line are accepted: no option asks for
  -- the usage, the mode is not the one for false sharing, which `run_acdc` does not support, the ratio
  -- of lists is between 0 and 100, and all sizes of the metadata are given or none. The given sizes add
  -- up to less than 2^64.
  pub main-Accepted : Succeeds (main e options) → Accepted options
  unfolding main
  main-Accepted done = given-Accepted (apply_options options default_params) refl done
