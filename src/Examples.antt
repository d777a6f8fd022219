-- ===== src/Examples.antt =====
-- Concrete inputs on which the theorems are applied, and the data that these inputs share.
pub mod Nodes
pub mod Pools
pub mod Memory
pub mod Draws
pub mod Benchmark
pub mod Classes
pub mod System
pub mod Expiry
pub mod Program
pub mod Sharing
use acdc.Base.{◌*◌, ℕ, ◌^◌, true, false, [], ◌∷◌, ◌==◌, if◌then◌else◌, replicate}
use acdc.Base.Int.{pos, negsuc}
use acdc.Types.{GOptions, MContext, MStat, acdc_mode, Chunk, Heap, LClass, empty_class, list_type}
use acdc.Store.{Store}
use acdc.Mutator.{World}

abbrev pub sample_options : GOptions
sample_options = record {
  mode = acdc_mode;
  num_threads = 4;
  time_quantum = 2 ^ 18;
  benchmark_duration = 100;
  seed = pos 1;
  metadata_heap_sz = 1;
  min_liveness = 1;
  max_liveness = 10;
  fixed_number_of_objects = 0;
  deallocation_delay = 2;
  max_time_gap = negsuc 0;
  min_object_sc = 4;
  max_object_sc = 8;
  list_based_ratio = pos 70;
  btree_based_ratio = pos 30;
  node_buffer_size = 100;
  class_buffer_size = 100;
  write_iterations = 1;
  access_live_objects = true;
  write_access_ratio = 50;
  shared_objects = true;
  shared_objects_ratio = 100;
  receiving_threads_ratio = 60;
  verbosity = 0;
  allocator_name = [];
  do_baseline_rss = false;
  use_hugepages = false;
  use_compact_allocation = false;
}

abbrev pub sample_stat : MStat
sample_stat = record {
  running_time = 0;
  allocation_time = 0;
  deallocation_time = 0;
  access_time = 0;
  bytes_allocated = 320;
  bytes_deallocated = 64;
  objects_allocated = 20;
  objects_deallocated = 4;
  lt_histogram = replicate 11 3;
  sz_histogram = replicate 9 1;
  current_rss = 0;
  resident_set_size_counter = 0;
}

abbrev pub sample_context : MContext
sample_context = record {
  gopts = sample_options;
  thread_id = 0;
  rand = pos 1;
  stat = sample_stat;
  time = 0;
  heap_class = replicate 12 empty_class;
  node_buffer_memory = 4096;
  node_buffer_counter = 0;
  node_cache = empty_class;
  class_buffer_memory = 16384;
  class_buffer_counter = 1;
  class_cache = empty_class;
  thread_id_buffer = replicate 4 0;
}

abbrev pub chunk : ℕ → ℕ → ℕ → Chunk
chunk word0 word1 word2 = record {
  prev = word0;
  next = word1;
  ls_class = word2;
  num_objects = 1;
  type = list_type;
  start = 0;
}

-- Three linked nodes.
abbrev pub three_nodes : Heap
three_nodes p =
    if p == 64
    then chunk 0 128 0
    else if p == 128
    then chunk 64 192 0
    else if p == 192
    then chunk 128 0 0
    else chunk 0 0 0

abbrev pub three : LClass
three = record { first = 64; last = 192 }

-- Nothing is allocated, and the allocator has five blocks.
abbrev pub sample_store : Store
sample_store = record {
  word0 = λ _. 0;
  word1 = λ _. 0;
  bytes = λ _. 7;
  live = λ _. false;
  sizes = λ _. 0;
  supply = 1024 ∷ 2048 ∷ 3072 ∷ 4096 ∷ 5120 ∷ [];
}

-- A class at 16384 with lifetime 12 that three threads share.
abbrev pub sample_world : World
sample_world = record {
  mc = sample_context;
  heap = λ _. chunk 3 16 12;
  store = sample_store;
  shared_heap_classes = replicate 4 (replicate 10 empty_class);
  clock = λ n. (1, 100 * n);
  readings = 0;
  proc_status = record { vm_size = 0; vm_rss = 0; vm_data = 0 };
}
