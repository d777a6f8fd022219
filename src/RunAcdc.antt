-- ===== src/RunAcdc.antt =====
-- The whole benchmark: `run_acdc` of src/acdc.c, its set-up, the sums of the threads' results, and the
-- averages that it reports. The threads themselves are an argument: from their contexts they give their
-- results, or `none` when one cannot be created or joined.
pub mod Aggregate
pub mod Contexts
pub mod Finish
pub mod Room
use acdc.Base.{
  ℕ, zero, suc, ◌+◌, ◌-◌, ◌*◌, ◌/◌, ◌%◌, ◌^◌, Bool, true, false, List, [], ◌∷◌, leb, ◌==◌,
  if◌then◌else◌, Option, none, some, get_elem?, take,
}
use acdc.Base.Run.{Cmd, pure, stop, ◌>>=◌, ◌>>◌, exit_failure, out_of_bounds, division_by_zero}
use acdc.Base.Double.{Arithmetic, of_nat}
use acdc.Types.{GOptions, MStat, MContext, LClass, Mode, acdc_mode, fs_mode}
use acdc.MetadataHeap.{MetadataHeap, malloc_meta, calloc_meta}
use acdc.Context.{create_mutator_context}

-- `thread_results[0]->...[j] += res->...[j]` for each `j < n`.
unfoldable pub add_histogram : ℕ → List ℕ → List ℕ → List ℕ
add_histogram zero into from = into
add_histogram (suc n) [] from = []
add_histogram (suc n) (x ∷ into) [] = x ∷ into
add_histogram (suc n) (x ∷ into) (y ∷ from) = (x + y) % 2 ^ 64 ∷ add_histogram n into from

-- One round of the sums of `run_acdc`: the results of a thread are added to those of the first.
unfoldable pub aggregate_one : GOptions → MStat → MStat → MStat
aggregate_one g sum res = record sum {
  running_time = (sum.running_time + res.running_time) % 2 ^ 64;
  allocation_time = (sum.allocation_time + res.allocation_time) % 2 ^ 64;
  deallocation_time = (sum.deallocation_time + res.deallocation_time) % 2 ^ 64;
  access_time = (sum.access_time + res.access_time) % 2 ^ 64;
  bytes_allocated = (sum.bytes_allocated + res.bytes_allocated) % 2 ^ 64;
  bytes_deallocated = (sum.bytes_deallocated + res.bytes_deallocated) % 2 ^ 64;
  objects_allocated = (sum.objects_allocated + res.objects_allocated) % 2 ^ 64;
  objects_deallocated = (sum.objects_deallocated + res.objects_deallocated) % 2 ^ 64;
  lt_histogram = add_histogram g.max_liveness sum.lt_histogram res.lt_histogram;
  sz_histogram = add_histogram g.max_object_sc sum.sz_histogram res.sz_histogram;
}

unfoldable pub aggregate : GOptions → MStat → List MStat → MStat
aggregate g sum [] = sum
aggregate g sum (res ∷ rest) = aggregate g (aggregate_one g sum res) rest

-- The choice of the function of the threads: only the mode ACDC has one.
unfoldable pub is_supported : Mode → Bool
is_supported acdc_mode = true
is_supported fs_mode = false

-- The contexts of the threads from `i` on; `n` are left.
unfoldable pub create_contexts : ℕ → ℕ → GOptions → Cmd MetadataHeap (List (MContext × List LClass))
create_contexts zero i gopts = pure []
create_contexts (suc n) i gopts = do
  context ← create_mutator_context gopts i
  rest ← create_contexts n (i + 1) gopts
  pure (context ∷ rest)

-- `thread_0_index`, from the results from `i` on and its value so far.
unfoldable pub index_of_thread_0 : ℕ → ℕ → List MContext → ℕ
index_of_thread_0 i found [] = found
index_of_thread_0 i found (mc ∷ rest) =
    index_of_thread_0 (i + 1) (if mc.thread_id == 0 then i else found) rest

-- A quotient of a `long` by `duration - warmup`, which rounds towards zero, as a `size_t`.
unfoldable pub quotient_by : ℕ → ℕ → ℕ → ℕ
quotient_by n duration warmup =
    if leb warmup duration
    then n / (duration - warmup)
    else (2 ^ 64 - n / (warmup - duration)) % 2 ^ 64

-- `avg_rss`, or `none` at the division by zero.
unfoldable pub average_rss : GOptions → MStat → Option ℕ
average_rss g st =
    if g.benchmark_duration == 2 * g.max_liveness
    then none
    else some (
        let avg =
          quotient_by st.resident_set_size_counter g.benchmark_duration (2 * g.max_liveness) in
        if g.do_baseline_rss
        then avg
        else (avg + 2 ^ 64 - g.metadata_heap_sz * 1024 % 2 ^ 64) % 2 ^ 64)

-- A `struct timeval`, and `time_in_ms` from the start to a later end.
pub record Timeval : Type 0 where
  pub tv_sec : ℕ
  pub tv_usec : ℕ

unfoldable pub time_in_ms : Timeval → Timeval → ℕ
time_in_ms start end =
    (end.tv_sec * 1000000 + end.tv_usec - (start.tv_sec * 1000000 + start.tv_usec)) / 1000

-- `((double) part / (double) whole) * 100.0`
unfoldable pub percentage : (d : Arithmetic) → ℕ → ℕ → d.Double
percentage d part whole = d.mul (d.div (of_nat d part) (of_nat d whole)) (of_nat d 100)

-- What `run_acdc` prints: the histograms, the sums, their shares of the running time, the time and the
-- average.
pub record Report (Double : Type 0) : Type 0 where
  pub lifetimes : List ℕ
  pub sizes : List ℕ
  pub sums : MStat
  pub allocation_percentage : Double
  pub deallocation_percentage : Double
  pub access_percentage : Double
  pub wallclock : ℕ
  pub avg_rss : ℕ

-- The values that the `printf`s up to the average get.
unfoldable pub report_of : (d : Arithmetic) → GOptions → MStat → ℕ → ℕ → Report d.Double
report_of d gopts sums wallclock avg_rss = record {
  lifetimes = take (gopts.max_liveness + 1) sums.lt_histogram;
  sizes = take (gopts.max_object_sc + 1) sums.sz_histogram;
  sums = sums;
  allocation_percentage = percentage d sums.allocation_time sums.running_time;
  deallocation_percentage = percentage d sums.deallocation_time sums.running_time;
  access_percentage = percentage d sums.access_time sums.running_time;
  wallclock = wallclock;
  avg_rss = avg_rss;
}

abbrev pub stats_of : List MContext → List MStat
stats_of [] = []
stats_of (mc ∷ rest) = mc.stat ∷ stats_of rest

-- The end of `run_acdc`, from the results of the threads. The average is of the statistics of thread 0.
unfoldable pub report :
    (d : Arithmetic) → GOptions → ℕ → List MContext → Cmd MetadataHeap (Report d.Double)
unfolding report_of
report d gopts wallclock [] = stop out_of_bounds
report d gopts wallclock (first ∷ rest) =
    of_thread_0 (get_elem? (first ∷ rest) (index_of_thread_0 0 0 (first ∷ rest)))
  where
    of_average : Option ℕ → Cmd MetadataHeap (Report d.Double)
    of_average none = stop division_by_zero
    of_average (some avg) =
        pure (report_of d gopts (aggregate gopts first.stat (stats_of rest)) wallclock avg)

    of_thread_0 : Option MContext → Cmd MetadataHeap (Report d.Double)
    of_thread_0 none = stop out_of_bounds
    of_thread_0 (some mc) = of_average (average_rss gopts mc.stat)

-- The sizes of `pthread_t` and of `pthread_mutex_t` on x86-64.
abbrev pub sizeof_pthread_t : ℕ
sizeof_pthread_t = 8

abbrev pub sizeof_pthread_mutex_t : ℕ
sizeof_pthread_mutex_t = 40

unfoldable pub run_acdc :
    (d : Arithmetic)
    → (List (MContext × List LClass) → Option (List MContext))
    → Bool
    → Timeval
    → Timeval
    → GOptions
    → Cmd MetadataHeap (Report d.Double)
run_acdc d run_threads barrier_ok start end gopts = do
  threads ← malloc_meta (sizeof_pthread_t * gopts.num_threads)
  thread_data ← malloc_meta (8 * gopts.num_threads)
  thread_results ← malloc_meta (8 * gopts.num_threads)
  shared_heap_classes ← calloc_meta gopts.num_threads 8
  locks ← calloc_meta gopts.num_threads sizeof_pthread_mutex_t
  if barrier_ok then pure tt else stop exit_failure
  if is_supported gopts.mode then pure tt else stop exit_failure
  contexts ← create_contexts gopts.num_threads 0 gopts
  joined (run_threads contexts)
  where
    joined : Option (List MContext) → Cmd MetadataHeap (Report d.Double)
    joined none = stop exit_failure
    joined (some results) = report d gopts (time_in_ms start end) results
