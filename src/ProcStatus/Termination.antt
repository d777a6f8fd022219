-- ===== src/ProcStatus/Termination.antt =====
-- The loops of src/proc-status.c end on every file, and what can stop `update_proc_status`.
use acdc.Base.{ℕ, ◌≡◌, ◌⊎◌, Bool, false, List, Option, none}
use acdc.Base.Run.{Outcome, ok, failed, Failure, null_dereference, out_of_bounds, exit_failure}
use acdc.ProcStatus.{if_huge, from_dirty, collected, ProcStatus, if_huge, from_dirty, collected}

-- A run that may only stop in one of the given ways.
abbrev pub StopsAs : {S A : Type 0} → (Failure → Type 0) → Outcome S A → Type 0
StopsAs F (ok a s) = Unit
StopsAs F (failed e) = F e

-- How the search for the number of dirty pages stops.
abbrev pub IsScanFailure : Failure → Type 0
IsScanFailure e = (e ≡ null_dereference) ⊎ (e ≡ out_of_bounds)

-- A file that cannot be opened, or not closed.
abbrev pub Unusable : Option (List ℕ) → Bool → Type 0
Unusable file closes = (file ≡ none) ⊎ (closes ≡ false)

-- How `update_proc_status` may stop: `exit`, when one of its files cannot be opened or closed, or a fault
-- in the search for a number of dirty pages.
abbrev pub IsStop : Option (List ℕ) → Bool → Option (List ℕ) → Bool → Failure → Type 0
IsStop status closes numa_maps numa_closes e =
    ((e ≡ exit_failure) × (Unusable status closes ⊎ Unusable numa_maps numa_closes))
    ⊎ IsScanFailure e

abbrev IsExit : Type 0 → Failure → Type 0
IsExit P e = (e ≡ exit_failure) × P
