-- ===== src/Examples/System.antt =====
-- What the operating system reports, and the barriers.
use acdc.Base.{
  ◌++◌, ◌<◌, length, ℕ, ◌+◌, ◌≡◌, refl, arith, List, [], ◌∷◌, true, some, none, Bool, false, ◌==◌,
  ◌||◌, if◌then◌else◌, All,
}
use acdc.Base.Families.{total}
use acdc.Base.Run.{ok}
use acdc.Base.Text.{codes, starts_with}
use acdc.Barrier.{Kept}
use acdc.ProcStatus.{ProcStatus, update_proc_status, strstr}
use acdc.ProcStatus.Scanning.{decimal}
use acdc.ProcStatus.Reading.{Field, IsField, Printed}
use acdc.ProcStatus.Fields.{file_of}
use acdc.ProcStatus.Hugepages.{
  NumaLine, plain, huge, IsNumaLine, numa_text, maps_of, update_proc_status_lem,
}
use acdc.SpinBarrier.Refinement.{Reach-Kept_spin}
use acdc.Thread.{Progress}
use acdc.OsxBarrier.Spurious.{ReturnedAlone, LooseStep-ReturnedAlone}
use acdc.MemoryStats.{Sources}
use acdc.Base.{◌++◌}
use acdc.ProcStatus.Fields.{StatusLine, field, other, IsOther, IsStatusLine}
use acdc.Examples.Nodes.{both_wait, both_wait-Reach}

abbrev old_status : ProcStatus
old_status = record { vm_size = 1; vm_rss = 2; vm_data = 3 }

abbrev size_field : Field
size_field = record { key = codes "VmSize"; pad = 2; value = 12 }

abbrev rss_field : Field
rss_field = record { key = codes "VmRSS"; pad = 3; value = 7 }

size_field-IsField : IsField 64 size_field
unfolding decimal
size_field-IsField = record {
  key =
      (omega arith, (omega arith, (omega arith, (omega arith, (omega arith, (omega arith, tt))))));
  value = omega arith;
  short = omega arith;
}

rss_field-IsField : IsField 64 rss_field
unfolding decimal
rss_field-IsField = record {
  key = (omega arith, (omega arith, (omega arith, (omega arith, (omega arith, tt)))));
  value = omega arith;
  short = omega arith;
}

-- `Printed` as a test.
abbrev all_printed : List ℕ → Bool
all_printed [] = true
all_printed (c ∷ cs) = if (c == 0) || (c == 10) then false else all_printed cs

all_printed-Printed : (cs : List ℕ) → all_printed cs ≡ true → All Printed cs
all_printed-Printed [] e = tt
all_printed-Printed (c ∷ cs) e =
    ((ground arith, ground arith), all_printed-Printed cs (ground arith))

-- The beginning of a file of the kernel.
abbrev pub status_lines : List StatusLine
status_lines =
    other (codes "Name:\tacdc")
    ∷ other (codes "State:\tR (running)")
    ∷ other (codes "Pid:\t4711")
    ∷ field size_field
    ∷ other (codes "VmLck:\t       0 kB")
    ∷ field rss_field
    ∷ other (codes "Cpus_allowed_list:\t0-3")
    ∷ []

line-IsOther :
    (cs : List ℕ)
    → all_printed cs ≡ true
    → length cs + 1 < 64
    → starts_with (codes "VmSize") (cs ++ (b'\n' ∷ [])) ≡ false
    → starts_with (codes "VmRSS") (cs ++ (b'\n' ∷ [])) ≡ false
    → starts_with (codes "VmData") (cs ++ (b'\n' ∷ [])) ≡ false
    → IsOther 64 cs
line-IsOther cs p l a b c = record {
  printed = all_printed-Printed cs p;
  short = l;
  no_size = a;
  no_rss = b;
  no_data = c;
}

pub status_lines-IsStatusLine : All (IsStatusLine 64) status_lines
unfolding starts_with
status_lines-IsStatusLine = (
  line-IsOther _ refl (omega arith) refl refl refl,
  (
    line-IsOther _ refl (omega arith) refl refl refl,
    (
      line-IsOther _ refl (omega arith) refl refl refl,
      (
        size_field-IsField,
        (
          line-IsOther _ refl (omega arith) refl refl refl,
          (rss_field-IsField, (line-IsOther _ refl (omega arith) refl refl refl, tt)),
        ),
      ),
    ),
  ),
)

abbrev pub stack_line : NumaLine
stack_line = plain (codes "7f")

abbrev huge_line : NumaLine
huge_line = huge (codes "anon_hugepage ") 3 []

pub stack_line-IsNumaLine : IsNumaLine 64 stack_line
unfolding strstr starts_with
stack_line-IsNumaLine = record {
  printed = ((omega arith, omega arith), ((omega arith, omega arith), tt));
  short = omega arith;
  found = refl;
}

huge_line-IsNumaLine : IsNumaLine 64 huge_line
unfolding strstr starts_with decimal
huge_line-IsNumaLine = record {
  printed = all_printed-Printed (numa_text huge_line) refl;
  short = omega arith;
  found = ((0, refl), refl, omega arith);
}

update_proc_status_lem_example :
    update_proc_status 64
      (some (file_of status_lines))
      true
      (some (maps_of (stack_line ∷ huge_line ∷ [])))
      true
      old_status
    ≡ ok tt record { vm_size = 12; vm_rss = 6151; vm_data = 0 }
unfolding starts_with
update_proc_status_lem_example =
    update_proc_status_lem 64 status_lines (stack_line ∷ huge_line ∷ []) old_status
      status_lines-IsStatusLine (stack_line-IsNumaLine, (huge_line-IsNumaLine, tt))

Reach-Kept_spin_example : Kept 2 (acdc.SpinBarrier.Refinement.calls_of both_wait)
unfolding total
Reach-Kept_spin_example = Reach-Kept_spin 2 (omega arith) both_wait-Reach (omega arith)

LooseStep-ReturnedAlone_example : (s : acdc.OsxBarrier.System) × ReturnedAlone 3 1 s
LooseStep-ReturnedAlone_example = LooseStep-ReturnedAlone 3 1 (omega arith) (omega arith)

-- A round whose files cannot be opened.
abbrev no_files : ℕ → Sources
no_files i = record {
  line_max = 64;
  status = none;
  status_closes = false;
  numa_maps = none;
  numa_closes = false;
  all_stats = [];
}

abbrev at_start : Progress
at_start = record { time_counter = 0; runs = 0 }
