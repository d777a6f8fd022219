-- ===== src/Thread/Advance.antt =====
-- A step of the time of thread 0: the second half of the loop of `acdc_thread` of src/acdc.c, with what
-- `get_and_print_memstats` reads in the files of the process.
use acdc.Base.{
  ℕ, ◌+◌, ◌*◌, ◌%◌, ◌^◌, ◌<◌, ◌≡◌, refl, arith, Bool, true, false, List, All, leb, ◌==◌,
  if◌then◌else◌, some, get_elem?, set, has, length, ap, ◌∙◌,
}
use acdc.Base.Int.{pos_part, to_unsigned}
use acdc.Base.Text.{codes}
use acdc.Base.Run.{ok, Returns, Returns-bind}
use acdc.Types.{MStat, Ptr, null, LClass, empty_class}
use acdc.Mutator.{World}
use acdc.Mutator.NodePool.{IsNodePool}
use acdc.HeapClass.{slots, delete_index, heap_class_remove, node_fuel}
use acdc.HeapClass.Expiry.{IsShared, Expired, Listed}
use acdc.Base.{Distinct}
use acdc.LifetimeClass.Linked.{head_or}
use acdc.HeapClass.Remove.{heap_class_remove-Expired}
use acdc.ProcStatus.{ProcStatus, get_resident_set_size, hugepage_kb}
use acdc.ProcStatus.Fields.{StatusLine, IsStatusLine, file_of, latest}
use acdc.ProcStatus.Hugepages.{
  NumaLine, IsNumaLine, maps_of, all_dirty, get_dirty_hugepages-file, update_proc_status_lem,
}
use acdc.MemoryStats.{Sources, reported_rss, get_and_print_memstats}
use acdc.Thread.{advance, at_time_gap}

-- The lines of the two files of the process.
pub record Printout : Type 0 where
  pub lines : List StatusLine
  pub numa_lines : List NumaLine
  pub all_stats : List MStat

abbrev pub IsPrintout : ℕ → Printout → Type 0
IsPrintout line_max p = All (IsStatusLine line_max) p.lines × All (IsNumaLine line_max) p.numa_lines

abbrev pub sources_of : ℕ → Printout → Sources
sources_of line_max p = record {
  line_max = line_max;
  status = some (file_of p.lines);
  status_closes = true;
  numa_maps = some (maps_of p.numa_lines);
  numa_closes = true;
  all_stats = p.all_stats;
}

-- The resident set size in the files, in kB, with the dirty huge pages.
abbrev pub printed_rss : Printout → ℕ
printed_rss p = (latest (codes "VmRSS") 0 p.lines + all_dirty 0 p.numa_lines * hugepage_kb) % 2 ^ 64

abbrev status_of : Printout → ProcStatus
status_of p = record {
  vm_size = latest (codes "VmSize") 0 p.lines;
  vm_rss = printed_rss p;
  vm_data = latest (codes "VmData") 0 p.lines;
}

-- The state after the sample, which counts from two times the largest liveness on.
abbrev pub sampled : Printout → World → World
sampled p w = record w {
  proc_status = status_of p;
  mc = record w.mc {
    stat = record w.mc.stat {
      current_rss = printed_rss p;
      resident_set_size_counter =
          if leb (2 * w.mc.gopts.max_liveness) w.mc.time
          then w.mc.stat.resident_set_size_counter + printed_rss p
          else w.mc.stat.resident_set_size_counter;
    };
  };
}

-- And after the clock has advanced.
abbrev pub ticked : Printout → World → World
ticked p w = record (sampled p w) {
  mc = record (sampled p w).mc { time = (w.mc.time + 1) % 2 ^ 32 };
}

reported_rss-printed :
    (line_max : ℕ) (p : Printout) (s : ProcStatus)
    → IsPrintout line_max p
    → reported_rss (sources_of line_max p) s ≡ ok (printed_rss p) (status_of p)
unfolding reported_rss get_resident_set_size
reported_rss-printed line_max p s (h, k) =
    simp (update_proc_status_lem line_max p.lines p.numa_lines s h k) refl

get_and_print_memstats-sampled :
    (line_max : ℕ) (p : Printout) (w : World)
    → IsPrintout line_max p
    → w.mc.gopts.do_baseline_rss ≡ false
    → get_and_print_memstats (sources_of line_max p) w ≡ ok tt (sampled p w)
unfolding get_and_print_memstats
get_and_print_memstats-sampled line_max p w (h, k) rss =
    let dirty = get_dirty_hugepages-file line_max p.numa_lines w.proc_status k in
    let read = reported_rss-printed line_max p w.proc_status (h, k) in simp (dirty, rss, read) refl

-- After a step of the time of thread 0: the clock has advanced, the sample is the last one and has been
-- added to the sum when the time before the step was at least two times the largest liveness, and the
-- slot of the new time is empty, with its classes given up.
pub record IsAdvanced (p : Printout) (used : Ptr → Bool) (xs ns cs : List Ptr) (w : World)
    (waits : Bool) (w' : World) : Type 0 where
  pub time : w'.mc.time ≡ (w.mc.time + 1) % 2 ^ 32
  pub sample : w'.mc.stat.current_rss ≡ printed_rss p
  pub sum :
      w'.mc.stat.resident_set_size_counter
      ≡ w.mc.stat.resident_set_size_counter
        + (if leb (2 * w.mc.gopts.max_liveness) w.mc.time then printed_rss p else 0)
  pub array :
      w'.mc.heap_class
      ≡ set w.mc.heap_class
          (pos_part (delete_index w.mc.gopts ((w.mc.time + 1) % 2 ^ 32)))
          empty_class
  pub expired : Expired used xs ns cs (ticked p w) w'
  pub barrier : waits ≡ ((w.mc.time + 1) % 2 ^ 32 % to_unsigned w.mc.gopts.max_time_gap == 0)

add_counted : (b : Bool) (c x : ℕ) → (if b then c + x else c) ≡ c + (if b then x else 0)
add_counted true c x = refl
add_counted false c x = omega arith

-- A step of the time of thread 0, from files of lines of text as `update_proc_status` reads them: it
-- samples the memory at the old time, advances the clock, takes the lifetime-class that expires at the new
-- time out of the array, where all its classes are still shared, and waits at the barrier when the new
-- time is a multiple of the time gap, which is not 0.
pub advance_lem :
    (line_max : ℕ) (p : Printout) (w : World) (used : Ptr → Bool) (xs ns cs : List Ptr)
    (expired : LClass)
    → IsPrintout line_max p
    → w.mc.gopts.do_baseline_rss ≡ false
    → w.mc.thread_id ≡ 0
    → (to_unsigned w.mc.gopts.max_time_gap == 0) ≡ false
    → IsNodePool w xs used
    → 0 < slots w.mc.gopts
    → get_elem? w.mc.heap_class (pos_part (delete_index w.mc.gopts ((w.mc.time + 1) % 2 ^ 32)))
      ≡ some expired
    → expired.first ≡ head_or null ns
    → Listed w.heap ns cs
    → Distinct ns
    → Distinct cs
    → ((a : Ptr) → has a ns ≡ true → used a ≡ true)
    → ((c : Ptr) → has c cs ≡ true → IsShared w.heap used xs c)
    → length ns < node_fuel w.mc.gopts
    → Returns
        (λ waits w'. IsAdvanced p used xs ns cs w waits w')
        (advance (sources_of line_max p) w)
unfolding advance at_time_gap
advance_lem line_max p w used xs ns cs expired h rss id gap pool some_slot at start l dn dc un sh
      lt =
    let first : (w.mc.thread_id == 0) ≡ true = ground arith in
    rw (first, get_and_print_memstats-sampled line_max p w h rss)
      (Returns-bind _ (heap_class_remove w.mc.heap_class (ticked p w)) _
        (heap_class_remove-Expired (ticked p w) used xs ns cs w.mc.heap_class expired pool some_slot
          at start l dn dc un sh lt)
        λ hc w₂ (array, e). rw gap (record {
          time = e.time;
          sample = ap (λ (s : MStat). s.current_rss) e.stat;
          sum =
              ap (λ (s : MStat). s.resident_set_size_counter) e.stat
              ∙ add_counted (leb (2 * w.mc.gopts.max_liveness) w.mc.time)
                  w.mc.stat.resident_set_size_counter (printed_rss p);
          array = array;
          expired = record {
            cache = e.cache;
            pool = e.pool;
            back = e.back;
            counters = e.counters;
            others = e.others;
            store = e.store;
            gopts = e.gopts;
            stat = e.stat;
            time = e.time;
          };
          barrier = refl;
        }))
