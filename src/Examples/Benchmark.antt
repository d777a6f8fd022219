-- ===== src/Examples/Benchmark.antt =====
-- Heap classes, reference counters, options and results.
use acdc.Base.{ℕ, ◌+◌, ◌≤◌, ◌<◌, ◌≡◌, ◌↔◌, ◌⊎◌, refl, arith, [], ◌∷◌, Option, some}
use acdc.Base.Int.{pos}
use acdc.Types.{GOptions}
use acdc.Options.{default_params, check_params, complete_params}
use acdc.Options.Parameters.{IsCompleted, SizesGiven, NoSizeGiven, check_params_lem}
use acdc.HeapClass.{insert_index, live_index, delete_index}
use acdc.HeapClass.Slots.{delete_index-insert_index, live_index-insert_index}
use acdc.RunAcdc.{aggregate}
use acdc.RunAcdc.Aggregate.{aggregate_lem, IsTotal}
use acdc.Examples.{sample_options, sample_stat}

-- A class of liveness 3 from time 20 expires at time 25.
delete_index-insert_index_example :
    (delete_index sample_options 25 ≡ pos (insert_index sample_options 20 (3 + 2)))
    ↔ (25 ≡ 20 + 3 + 2)
delete_index-insert_index_example =
    delete_index-insert_index sample_options 20 3 25 (omega arith) (omega arith) (omega arith)
      (omega arith) (omega arith)

live_index-insert_index_example :
    ((i : ℕ) × (i < 10) × (live_index sample_options 24 i ≡ insert_index sample_options 20 (3 + 2)))
    ↔ (24 ≤ 20 + 3)
live_index-insert_index_example =
    live_index-insert_index sample_options 20 3 24 (omega arith) (omega arith) (omega arith)
      (omega arith) (omega arith) (omega arith)

-- A detection that finds one megabyte and a hundred nodes and classes.
abbrev detection : GOptions → Option GOptions
detection g =
    some (record g { metadata_heap_sz = 1; node_buffer_size = 100; class_buffer_size = 100 })

check_params_lem_example :
    ((q : ℕ) × (default_params.list_based_ratio ≡ pos q) × (q ≤ 100))
    × ((c : GOptions) × IsCompleted default_params c
        × ((SizesGiven default_params
              × (c ≡ record (complete_params default_params) {
                metadata_heap_sz = 1;
                node_buffer_size = 100;
                class_buffer_size = 100;
              }))
            ⊎ (NoSizeGiven default_params
                × (detection c
                    ≡ some (record (complete_params default_params) {
                      metadata_heap_sz = 1;
                      node_buffer_size = 100;
                      class_buffer_size = 100;
                    })))))
unfolding default_params check_params acdc.Options.check_sizes complete_params
    acdc.Options.params_for
check_params_lem_example =
    check_params_lem detection default_params
      (record (complete_params default_params) {
        metadata_heap_sz = 1;
        node_buffer_size = 100;
        class_buffer_size = 100;
      })
      (omega arith) refl

aggregate_lem_example :
    IsTotal sample_options sample_stat
      (sample_stat ∷ sample_stat ∷ [])
      (aggregate sample_options sample_stat (sample_stat ∷ sample_stat ∷ []))
aggregate_lem_example =
    aggregate_lem sample_options sample_stat (sample_stat ∷ sample_stat ∷ [])
      (omega arith, omega arith, (omega arith, omega arith, (omega arith, omega arith, tt)))
