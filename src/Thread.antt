-- ===== src/Thread.antt =====
-- A thread of the benchmark: `acdc_thread` of src/acdc.c. What the memory samples read is an argument.
pub mod Frame
pub mod Draws
pub mod ClassFrame
pub mod RoundFrame
pub mod Under
pub mod ClassSize
pub mod Rounds
pub mod RoundCount
pub mod Advance
use acdc.Base.{
  ℕ, zero, suc, ◌+◌, ◌*◌, ◌/◌, ◌%◌, ◌^◌, Bool, false, List, ltb, leb, ◌==◌, if◌then◌else◌, get_or,
  set, length,
}
use acdc.Base.Int.{ℤ, to_unsigned}
use acdc.Base.Run.{
  Cmd, pure, stop, get_state, ◌>>=◌, ◌>>◌, out_of_fuel, out_of_bounds, division_by_zero,
  exit_failure,
}
use acdc.Types.{
  GOptions, ClassType, list_type, btree_type, optimal_list, optimal_btree, false_sharing,
  optimal_false_sharing, sizeof_bt_object,
}
use acdc.SizeClass.{get_sizeclass}
use acdc.Distribution.{ObjectProps, get_random_object_props, get_sharing_dist}
use acdc.Mutator.{World, rdtsc, elapsed, in_context, set_chunk, set_context}
use acdc.Classes.{allocate_ls_class}
use acdc.MemoryStats.{Sources, get_and_print_memstats}
use acdc.HeapClass.{
  heap_class_insert, heap_class_remove, share_ls_class, get_shared_LClasses, access_live_LClasses,
}

-- The overriding of the random properties, and the least size.
unfoldable pub fixed_props : GOptions → ObjectProps → ObjectProps
fixed_props g p =
    if ltb 0 g.fixed_number_of_objects
    then record p {
      num_objects = g.fixed_number_of_objects;
      size = 2 ^ g.min_object_sc;
      liveness = g.min_liveness;
    }
    else p

unfoldable pub least_size : ObjectProps → ObjectProps
least_size p = if ltb p.size sizeof_bt_object then record p { size = sizeof_bt_object } else p

unfoldable pub compact_type : ClassType → ClassType
compact_type list_type = optimal_list
compact_type btree_type = optimal_btree
compact_type false_sharing = false_sharing
compact_type optimal_list = optimal_list
compact_type optimal_btree = optimal_btree
compact_type optimal_false_sharing = optimal_false_sharing

-- `histogram[i] += n`.
unfoldable pub add_at : List ℕ → ℕ → ℕ → Cmd World (List ℕ)
add_at histogram i n =
    if ltb i (length histogram)
    then pure (set histogram i ((get_or histogram i 0 + n) % 2 ^ 64))
    else stop out_of_bounds

unfoldable pub count_objects : ObjectProps → Cmd World (Unit {0})
count_objects p = do
  w ← get_state
  lt ← add_at w.mc.stat.lt_histogram p.liveness p.num_objects
  sz ← add_at w.mc.stat.sz_histogram (get_sizeclass p.size) p.num_objects
  set_context λ mc. record mc { stat = record mc.stat { lt_histogram = lt; sz_histogram = sz } }

-- The part of a round that makes a class: the number of bytes of its objects.
unfoldable pub create_class : Cmd World ℕ
create_class = do
  drawn ← in_context get_random_object_props
  w ← get_state
  let g = w.mc.gopts
  let p = least_size (fixed_props g drawn)
  count_objects p
  start ← rdtsc
  c ←
      allocate_ls_class (if g.use_compact_allocation then compact_type p.type else p.type) p.size
        p.num_objects
  set_chunk c λ k. record k {
    ls_class = k.ls_class / 2 ^ 32 * 2 ^ 32 + (p.liveness + g.deallocation_delay) % 2 ^ 32;
  }
  end ← rdtsc
  set_context λ mc. record mc {
    stat = record mc.stat {
      allocation_time = (mc.stat.allocation_time + elapsed start end) % 2 ^ 64;
    };
  }
  shared ← (if g.shared_objects then in_context get_sharing_dist else pure false)
  (if shared then (do share_ls_class c; get_shared_LClasses) else (do
    set_chunk c (λ k. record k { prev = 1 })
    w ← get_state
    heap_class ← heap_class_insert w.mc.heap_class c
    set_context λ mc. record mc { heap_class = heap_class }))
  pure (p.size * p.num_objects % 2 ^ 64)

-- The local variables of the loop.
pub record Progress : Type 0 where
  pub time_counter : ℕ
  pub runs : ℕ

-- `(mc->time % mc->gopts->max_time_gap) == 0`
unfoldable pub at_time_gap : ℕ → ℤ → Cmd World Bool
at_time_gap time gap =
    if to_unsigned gap == 0 then stop division_by_zero else pure (time % to_unsigned gap == 0)

-- The part of a round that advances the time. The result tells whether the thread then waits at the
-- barrier.
unfoldable pub advance : Sources → Cmd World Bool
advance src = do
  w ← get_state
  (if w.mc.thread_id == 0 then get_and_print_memstats src else pure tt)
  set_context λ mc. record mc { time = (mc.time + 1) % 2 ^ 32 }
  w ← get_state
  heap_class ← heap_class_remove w.mc.heap_class
  set_context λ mc. record mc { heap_class = heap_class }
  at_time_gap w.mc.time w.mc.gopts.max_time_gap

-- One round of the loop of `acdc_thread`.
unfoldable pub acdc_round : Sources → Progress → Cmd World (Progress × Bool)
acdc_round src p = do
  bytes ← create_class
  start ← rdtsc
  written ← access_live_LClasses
  end ← rdtsc
  set_context λ mc. record mc {
    stat = record mc.stat { access_time = (mc.stat.access_time + elapsed start end) % 2 ^ 64 };
  }
  w ← get_state
  let counter = (p.time_counter + bytes) % 2 ^ 64
  if leb w.mc.gopts.time_quantum counter
      then (do waits ← advance src; pure (record { time_counter = 0; runs = p.runs + 1 }, waits))
      else pure (record { time_counter = counter; runs = p.runs }, false)

-- The loop of `acdc_thread`, on fuel, for a thread that runs alone; round `i` samples `src i`.
unfoldable pub acdc_rounds : ℕ → (ℕ → Sources) → ℕ → Progress → Cmd World (Unit {0})
acdc_rounds zero src i p = stop out_of_fuel
acdc_rounds (suc f) src i p = do
  w ← get_state
  if ltb p.runs w.mc.gopts.benchmark_duration
      then (do
        next ← acdc_round (src i) p
        let (progress, waits) = next
        acdc_rounds f src (i + 1) progress)
      else pure tt

-- `acdc_thread`, from the first barrier on, which it passes when `pthread_barrier_wait` succeeds.
unfoldable pub acdc_thread : ℕ → Bool → (ℕ → Sources) → Cmd World (Unit {0})
acdc_thread f passes src =
    if passes
    then (do
      start ← rdtsc
      set_context λ mc. record mc { stat = record mc.stat { running_time = start } }
      acdc_rounds f src 0 record { time_counter = 0; runs = 0 }
      end ← rdtsc
      set_context λ mc. record mc {
        stat = record mc.stat { running_time = elapsed mc.stat.running_time end };
      })
    else stop exit_failure
