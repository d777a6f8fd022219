-- ===== src/Main.antt =====
-- The program: `main` of src/main.c, from the command line to the report. What the program does not
-- compute itself is an environment.
pub mod Accepted
pub mod Reports
use acdc.Base.{ℕ, Bool, List, Option, none, some}
use acdc.Base.Run.{Outcome, failed, exit_failure}
use acdc.Base.Double.{Arithmetic}
use acdc.Types.{GOptions, MContext, LClass}
use acdc.Options.{
  Letter, Allocator, default_params, apply_options, next_option, check_params,
  set_allocation_pointers,
}
use acdc.Options.Detection.{autodetect_metadata_parameters}
use acdc.MetadataHeap.{MetadataHeap, init_metadata_heap}
use acdc.RunAcdc.{Timeval, Report, run_acdc}

-- The arithmetic of `double`s, the results of the two calls of `mmap` and the memory behind them,
-- what the threads do together with an allocator, the result of the barrier's initialisation, and the
-- two readings of the wall clock.
pub record Environment : Type 1 where
  pub doubles : Arithmetic
  pub first : Option ℕ
  pub second : Option ℕ
  pub memory : ℕ → ℕ
  pub run_threads : Allocator → List (MContext × List LClass) → Option (List MContext)
  pub barrier_ok : Bool
  pub start : Timeval
  pub end : Timeval

-- From the metadata heap on.
unfoldable pub run_in :
    (e : Environment)
    → Allocator
    → Option (MetadataHeap × GOptions)
    → Outcome MetadataHeap (Report e.doubles.Double)
run_in e allocator none = failed exit_failure
run_in e allocator (some (heap, gopts)) =
    run_acdc e.doubles (e.run_threads allocator) e.barrier_ok e.start e.end gopts heap

-- From the checked options on; `none` is a call of `exit`.
unfoldable pub run_checked :
    (e : Environment) → Option GOptions → Outcome MetadataHeap (Report e.doubles.Double)
run_checked e none = failed exit_failure
run_checked e (some gopts) =
    let (allocator, gopts) = set_allocation_pointers gopts in
    run_in e allocator (init_metadata_heap e.first e.second e.memory gopts)

unfoldable pub main :
    (e : Environment) → List (Letter × List ℕ) → Outcome MetadataHeap (Report e.doubles.Double)
main e options = run_checked e (
    next_option (apply_options options default_params)
      (check_params (autodetect_metadata_parameters e.doubles)))
