-- ===== src/Examples/Program.antt =====
-- A run of the whole program.
use mathlib.Core.Option.{some-injective}
use acdc.Base.{ℕ, ◌+◌, ◌<◌, ◌^◌, ◌≡◌, refl, arith, true, List, [], ◌∷◌, some, none, map, ap, sym}
use acdc.Base.Text.{codes}
use acdc.Base.Double.{fractions}
use acdc.Base.Int.{pos}
use acdc.Types.{GOptions}
use acdc.Options.{Letter, lower_n, lower_q, default_params, apply_options, check_params}
use acdc.Options.Detection.{autodetect_metadata_parameters}
use acdc.Examples.{sample_context}
use acdc.Main.{Environment, main, run_checked}
use acdc.Main.Accepted.{Accepted, Succeeds, main-Accepted}

-- The first thread comes back with the context of an example.
abbrev joined : Environment
joined = record {
  doubles = fractions;
  first = some 4096;
  second = none;
  memory = λ _. 0;
  run_threads = λ _ _. some (sample_context ∷ []);
  barrier_ok = true;
  start = record { tv_sec = 0; tv_usec = 0 };
  end = record { tv_sec = 1; tv_usec = 0 };
}

-- The threads do nothing, and the metadata has a megabyte.
abbrev quiet : Environment
quiet = record {
  doubles = fractions;
  first = some 4096;
  second = none;
  memory = λ _. 0;
  run_threads = λ _ contexts. some (map (λ c. c.0) contexts);
  barrier_ok = true;
  start = record { tv_sec = 0; tv_usec = 0 };
  end = record { tv_sec = 1; tv_usec = 0 };
}

abbrev two_options : List (Letter × List ℕ)
two_options = (lower_n, codes "2") ∷ (lower_q, codes "70") ∷ []

quiet-Succeeds : Succeeds (main quiet two_options)
unfolding main acdc.Main.run_checked acdc.Main.run_in acdc.RunAcdc.run_acdc
    acdc.RunAcdc.create_contexts acdc.RunAcdc.report acdc.RunAcdc.average_rss
    acdc.RunAcdc.quotient_by acdc.RunAcdc.index_of_thread_0 acdc.RunAcdc.is_supported
    acdc.MetadataHeap.malloc_meta acdc.MetadataHeap.calloc_meta acdc.MetadataHeap.get_chunk
    acdc.MetadataHeap.malloc_meta_aligned acdc.MetadataHeap.calloc_meta_aligned
    acdc.MetadataHeap.init_metadata_heap acdc.MetadataHeap.fresh_heap
    acdc.MetadataHeap.align_address acdc.MetadataHeap.zero_bytes acdc.Context.create_mutator_context
    acdc.Context.allocate_heap_class acdc.Context.zero_stat acdc.Options.check_params
    acdc.Options.check_sizes acdc.Options.complete_params acdc.Options.params_for
    acdc.Options.time_gap acdc.Options.apply_options acdc.Options.apply_option
    acdc.Options.set_allocation_pointers acdc.Base.Text.starts_with acdc.Options.atoi
    acdc.Options.digits acdc.Options.default_params
    acdc.Options.Detection.autodetect_metadata_parameters fractions
quiet-Succeeds = tt

quiet-small :
    (g : GOptions)
    → apply_options two_options default_params ≡ some g
    → g.metadata_heap_sz + g.node_buffer_size + g.class_buffer_size < 2 ^ 64
unfolding apply_options acdc.Options.apply_option default_params
quiet-small g e =
    let same = sym (some-injective _ g e) in
    omega (
      arith,
      ap (λ (x : GOptions). x.metadata_heap_sz) same,
      ap (λ (x : GOptions). x.node_buffer_size) same,
      ap (λ (x : GOptions). x.class_buffer_size) same,
    )

main-Accepted_example : Accepted two_options
main-Accepted_example = main-Accepted quiet two_options quiet-small quiet-Succeeds

-- Exact fractions detect 1212 classes for the default options.
default_sizes :
    autodetect_metadata_parameters fractions default_params
    ≡ some (record default_params {
      class_buffer_size = 1212;
      node_buffer_size = 1212;
      metadata_heap_sz = 1;
    })
unfolding autodetect_metadata_parameters fractions default_params
default_sizes = refl

-- The options of the example, as given and as checked.
abbrev given_options : GOptions
unfolding default_params
given_options = record default_params { num_threads = 2; list_based_ratio = pos 70 }

abbrev checked_options : GOptions
unfolding default_params
checked_options = record given_options {
  btree_based_ratio = pos 30;
  max_time_gap = pos 10;
  class_buffer_size = 1212;
  node_buffer_size = 1212;
  metadata_heap_sz = 2;
}

-- The options with the sizes that exact fractions detect.
abbrev detected_options : GOptions
unfolding given_options
detected_options = record given_options {
  class_buffer_size = 1212;
  node_buffer_size = 1212;
  metadata_heap_sz = 2;
}
