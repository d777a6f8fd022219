-- ===== src/MemoryStats.antt =====
-- The measurement of memory: `get_and_print_memstats` of src/acdc.c. The files in which the operating
-- system reports on the process are arguments.
use acdc.Base.{ℕ, ◌+◌, ◌-◌, ◌*◌, ◌/◌, ◌%◌, ◌^◌, Bool, List, [], ◌∷◌, leb, if◌then◌else◌, Option}
use acdc.Base.Run.{Cmd, pure, get_state, ◌>>=◌, ◌>>◌}
use acdc.Types.{MStat}
use acdc.ProcStatus.{ProcStatus, update_proc_status, get_dirty_hugepages, get_resident_set_size}
use acdc.Mutator.{World, in_proc, set_context}

-- The bytes that all threads hold, in kB.
unfoldable pub total_bytes : (MStat → ℕ) → List MStat → ℕ
total_bytes field [] = 0
total_bytes field (st ∷ sts) = (field st + total_bytes field sts) % 2 ^ 64

unfoldable pub baseline : List MStat → ℕ
baseline sts =
    (total_bytes (λ st. st.bytes_allocated) sts
      + 2 ^ 64
      - total_bytes (λ st. st.bytes_deallocated) sts)
    % 2 ^ 64
    / 1024

-- What a sample of the memory reads: the files of the process, as in ProcStatus, and the statistics of
-- all threads.
pub record Sources : Type 0 where
  pub line_max : ℕ
  pub status : Option (List ℕ)
  pub status_closes : Bool
  pub numa_maps : Option (List ℕ)
  pub numa_closes : Bool
  pub all_stats : List MStat

-- The resident set size that the operating system reports.
unfoldable pub reported_rss : Sources → Cmd ProcStatus ℕ
reported_rss src = do
  update_proc_status src.line_max src.status src.status_closes src.numa_maps src.numa_closes
  get_resident_set_size

-- `get_and_print_memstats`: the sample is the baseline of all threads, or what the system reports. It
-- counts after two times the largest liveness. The number of dirty huge pages is read and not used.
unfoldable pub get_and_print_memstats : Sources → Cmd World (Unit {0})
get_and_print_memstats src = do
  d ← in_proc (get_dirty_hugepages src.line_max src.numa_maps src.numa_closes)
  w ← get_state
  sample ←
      (if w.mc.gopts.do_baseline_rss
        then pure (baseline src.all_stats)
        else in_proc (reported_rss src))
  set_context λ mc. record mc {
    stat = record mc.stat {
      current_rss = sample;
      resident_set_size_counter =
          if leb (2 * mc.gopts.max_liveness) mc.time
          then mc.stat.resident_set_size_counter + sample
          else mc.stat.resident_set_size_counter;
    };
  }
