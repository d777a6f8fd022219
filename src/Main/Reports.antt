-- ===== src/Main/Reports.antt =====
-- When `main` of src/main.c comes to a report, and to which.
use acdc.Base.{true, Option}
use acdc.Types.{GOptions}
use acdc.Options.{set_allocation_pointers}

-- The options with which the threads run.
abbrev pub final : GOptions → GOptions
unfolding set_allocation_pointers
final c = record ((set_allocation_pointers c).1) { use_hugepages = true }
