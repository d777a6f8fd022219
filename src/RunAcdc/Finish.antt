-- ===== src/RunAcdc/Finish.antt =====
-- `run_acdc` of src/acdc.c as a whole, when there is room for its metadata and the threads come back.
use acdc.Base.{
  ◌%◌, ℕ, suc, ◌+◌, ◌*◌, ◌^◌, ◌≤◌, ◌<◌, ◌≡◌, refl, arith, List, [], ◌∷◌, length, Option, some,
  get_elem?, take, leb, ◌⊎◌, inl, inr, Bool-cases, ap, ◌∙◌, ◌-◌, ◌/◌, false, true, ◌==◌,
  if◌then◌else◌,
}
use acdc.Base.Run.{Returns, Returns-bind}
use acdc.Base.Double.{Arithmetic, of_nat}
use acdc.Types.{MStat, GOptions, MContext, LClass, Mode, acdc_mode}
use acdc.MetadataHeap.{MetadataHeap, malloc_meta, calloc_meta}
use acdc.Context.Fresh.{context_size, At, At-Took, malloc_meta-Took, calloc_meta-Took}
use acdc.RunAcdc.{
  quotient_by, percentage, create_contexts, index_of_thread_0, average_rss, stats_of, Report,
  report, report_of, run_acdc, is_supported, time_in_ms, Timeval,
}
use acdc.RunAcdc.Aggregate.{AllLong, IsTotal, aggregate_lem}
use acdc.RunAcdc.Contexts.{create_contexts-AllFresh}

-- The bytes that `run_acdc` takes for `n` threads: five arrays and the contexts.
abbrev pub run_size : GOptions → ℕ
run_size g = 72 * g.num_threads + 75 + g.num_threads * context_size g

-- No thread of these has the identifier 0.
abbrev pub NoneIsFirst : List MContext → Type 0
NoneIsFirst [] = Unit
NoneIsFirst (mc ∷ mcs) = ((mc.thread_id == 0) ≡ false) × NoneIsFirst mcs

-- A thread with the identifier 0, or the first one where there is none.
abbrev pub IsThread0 : List MContext → MContext → Type 0
IsThread0 mcs mc =
    ((mc.thread_id ≡ 0) × ((i : ℕ) × (get_elem? mcs i ≡ some mc)))
    ⊎ (NoneIsFirst mcs × (get_elem? mcs 0 ≡ some mc))

-- The sum of the samples of a thread, divided by the number of steps after the warm-up, in kB.
abbrev pub mean_rss : GOptions → MStat → ℕ
mean_rss g st = st.resident_set_size_counter / (g.benchmark_duration - 2 * g.max_liveness)

-- What is reported: the totals of the results of all threads, the histograms up to their last entries,
-- the shares of the running time in percent, the milliseconds from the start to the end, and the average
-- of thread 0, less the metadata heap unless only the baseline is asked for.
pub record IsReport (d : Arithmetic) (g : GOptions) (first : MContext) (rest : List MContext)
    (start end : Timeval) (r : Report d.Double) : Type 0 where
  pub thread : MContext
  pub found : IsThread0 (first ∷ rest) thread
  pub average : r.avg_rss ≡ (
      if g.do_baseline_rss
      then mean_rss g thread.stat
      else (mean_rss g thread.stat + 2 ^ 64 - g.metadata_heap_sz * 1024 % 2 ^ 64) % 2 ^ 64)
  pub totals : IsTotal g first.stat (stats_of rest) r.sums
  pub lifetimes : r.lifetimes ≡ take (g.max_liveness + 1) r.sums.lt_histogram
  pub sizes : r.sizes ≡ take (g.max_object_sc + 1) r.sums.sz_histogram
  pub allocation :
      r.allocation_percentage
      ≡ d.mul
          (d.div (of_nat d r.sums.allocation_time) (of_nat d r.sums.running_time))
          (of_nat d 100)
  pub deallocation :
      r.deallocation_percentage
      ≡ d.mul
          (d.div (of_nat d r.sums.deallocation_time) (of_nat d r.sums.running_time))
          (of_nat d 100)
  pub access :
      r.access_percentage
      ≡ d.mul (d.div (of_nat d r.sums.access_time) (of_nat d r.sums.running_time)) (of_nat d 100)
  pub wallclock :
      r.wallclock
      ≡ (end.tv_sec * 1000000 + end.tv_usec - (start.tv_sec * 1000000 + start.tv_usec)) / 1000

-- Where the loop ends: at the value so far, or at a thread with the identifier 0.
index_of_thread_0_lem :
    (i found : ℕ) (mcs : List MContext)
    → (NoneIsFirst mcs × (index_of_thread_0 i found mcs ≡ found))
      ⊎ ((j : ℕ) × (mc : MContext) × (mc.thread_id ≡ 0)
          × (get_elem? mcs j ≡ some mc)
          × (index_of_thread_0 i found mcs ≡ i + j))
unfolding index_of_thread_0
index_of_thread_0_lem i found [] = inl (tt, refl)
index_of_thread_0_lem i found (mc ∷ mcs) = elim (Bool-cases (mc.thread_id == 0)) [
  | inl zero_ ↦ elim (index_of_thread_0_lem (i + 1) (if mc.thread_id == 0 then i else found) mcs) [
    | inl (none_, e) ↦ inr (0, mc, ground arith, refl, ground (arith, e))
    | inr (j, m, id, at, e) ↦ inr (suc j, m, id, at, omega (arith, e))
  ]
  | inr other ↦ elim (index_of_thread_0_lem (i + 1) (if mc.thread_id == 0 then i else found) mcs) [
    | inl (none_, e) ↦ inl ((other, none_), ground (arith, e))
    | inr (j, m, id, at, e) ↦ inr (suc j, m, id, at, omega (arith, e))
  ]
]

plain : (j : ℕ) → 0 + j ≡ j
plain j = omega arith

thread_0 :
    (first : MContext) (rest : List MContext)
    → (mc : MContext) × (get_elem? (first ∷ rest) (index_of_thread_0 0 0 (first ∷ rest)) ≡ some mc)
      × IsThread0 (first ∷ rest) mc
thread_0 first rest = elim (index_of_thread_0_lem 0 0 (first ∷ rest)) [
  | inl (none_, e) ↦ (first, ap (get_elem? (first ∷ rest)) e, inr (none_, refl))
  | inr (j, mc, id, at, e) ↦
      (mc, ap (get_elem? (first ∷ rest)) (e ∙ plain j) ∙ at, inl (id, (j, at)))
]

average_rss_lem :
    (g : GOptions) (st : MStat)
    → 2 * g.max_liveness < g.benchmark_duration
    → average_rss g st
      ≡ some (
          if g.do_baseline_rss
          then mean_rss g st
          else (mean_rss g st + 2 ^ 64 - g.metadata_heap_sz * 1024 % 2 ^ 64) % 2 ^ 64)
unfolding average_rss quotient_by
average_rss_lem g st long =
    let apart : (g.benchmark_duration == 2 * g.max_liveness) ≡ false = ground arith in
    let later : leb (2 * g.max_liveness) g.benchmark_duration ≡ true = ground arith in
    rw (apart, later) refl

report-IsReport :
    (d : Arithmetic) (g : GOptions) (first : MContext) (rest : List MContext) (start end : Timeval)
    (m : MetadataHeap)
    → 2 * g.max_liveness < g.benchmark_duration
    → AllLong g (stats_of (first ∷ rest))
    → Returns
        (λ r _. IsReport d g first rest start end r)
        (report d g (time_in_ms start end) (first ∷ rest) m)
unfolding report report_of percentage time_in_ms
report-IsReport d g first rest start end m after long =
    let (mc, at, is_0) = thread_0 first rest in
    rw (at, average_rss_lem g mc.stat after)
      (record {
        thread = mc;
        found = is_0;
        average = refl;
        totals = aggregate_lem g first.stat (stats_of rest) long;
        lifetimes = refl;
        sizes = refl;
        allocation = refl;
        deallocation = refl;
        access = refl;
        wallclock = refl;
      })

acdc_supported : (m : Mode) → m ≡ acdc_mode → is_supported m ≡ true
unfolding is_supported
acdc_supported m e = rw e refl

module _ (d : Arithmetic) (run_threads : List (MContext × List LClass) → Option (List MContext))
    (start end : Timeval) (g : GOptions) (first : MContext) (rest : List MContext)
    (come_back : (cs : List (MContext × List LClass))
      → length cs ≡ g.num_threads
      → run_threads cs ≡ some (first ∷ rest)) where
  pub run_acdc-IsReport :
      (m : MetadataHeap)
      → g.mode ≡ acdc_mode
      → 2 * g.max_liveness < g.benchmark_duration
      → AllLong g (stats_of (first ∷ rest))
      → m.metadata_heap_end ≤ 2 ^ 64
      → 0 < m.metadata_heap_bump_pointer
      → m.metadata_heap_bump_pointer + run_size g < m.metadata_heap_end
      → Returns
          (λ r _. IsReport d g first rest start end r)
          (run_acdc d run_threads true start end g m)
  unfolding run_acdc
  run_acdc-IsReport m mode after long wide some_start room =
      let n = g.num_threads in
      let supported : is_supported g.mode ≡ true = acdc_supported g.mode mode in
      Returns-bind _ (malloc_meta (8 * n) m) _ (malloc_meta-Took (8 * n) m wide (omega arith))
        λ p₁ m₁ t₁.
          let a₁ : At m (8 * n + 15) m₁ = record {
            bump = omega (arith, t₁.bump);
            limit = t₁.limit;
          } in
          Returns-bind _ (malloc_meta (8 * n) m₁) _
            (malloc_meta-Took (8 * n) m₁ (omega (arith, a₁.limit))
              (omega (arith, a₁.bump, a₁.limit)))
            λ p₂ m₂ t₂.
              let a₂ = At-Took m _ _ _ m₁ _ m₂ a₁ t₂ in
              Returns-bind _ (malloc_meta (8 * n) m₂) _
                (malloc_meta-Took (8 * n) m₂ (omega (arith, a₂.limit))
                  (omega (arith, a₂.bump, a₂.limit)))
                λ p₃ m₃ t₃.
                  let a₃ = At-Took m _ _ _ m₂ _ m₃ a₂ t₃ in
                  Returns-bind _ (calloc_meta n 8 m₃) _
                    (calloc_meta-Took n 8 m₃ (omega (arith, a₃.limit))
                      (omega (arith, a₃.bump, a₃.limit)))
                    λ p₄ m₄ t₄.
                      let a₄ = At-Took m _ _ _ m₃ _ m₄ a₃ t₄ in
                      Returns-bind _ (calloc_meta n 40 m₄) _
                        (calloc_meta-Took n 40 m₄ (omega (arith, a₄.limit))
                          (omega (arith, a₄.bump, a₄.limit)))
                        λ p₅ m₅ t₅.
                          let a₅ = At-Took m _ _ _ m₄ _ m₅ a₄ t₅ in
                          rw supported (
                            Returns-bind _ (create_contexts n 0 g m₅) _
                              (create_contexts-AllFresh n 0 g m₅ (omega (arith, a₅.limit))
                                (omega (arith, a₅.bump)) (omega (arith, a₅.bump, a₅.limit)))
                              λ cs m₆ (len, all).
                                rw (come_back cs len)
                                  (report-IsReport d g first rest start end m₆ after long))
