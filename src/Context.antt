-- ===== src/Context.antt =====
-- The creation of a thread's context in the metadata heap: `create_mutator_context` and
-- `allocate_heap_class` of src/acdc.c.
pub mod Fresh
use acdc.Base.{ℕ, ◌+◌, ◌*◌, List, replicate}
use acdc.Base.Int.{pos, ◌+ℤ◌}
use acdc.Base.Run.{Cmd, pure, ◌>>=◌}
use acdc.Types.{GOptions, MContext, MStat, LClass, empty_class, l1_line_sz}
use acdc.MetadataHeap.{MetadataHeap, calloc_meta, calloc_meta_aligned, malloc_meta_aligned}

-- The sizes of `LClass`, `MStat`, `MContext`, `unsigned long` and `int` on x86-64.
abbrev pub sizeof_l_class : ℕ
sizeof_l_class = 16

abbrev pub sizeof_m_stat : ℕ
sizeof_m_stat = 96

abbrev pub sizeof_m_context : ℕ
sizeof_m_context = 112

-- The array is zeroed, so that every list is empty.
unfoldable pub allocate_heap_class : ℕ → Cmd MetadataHeap (List LClass)
allocate_heap_class max_lifetime = do
  ec ← calloc_meta max_lifetime sizeof_l_class
  pure (replicate max_lifetime empty_class)

-- The zeroed statistics of a thread.
unfoldable pub zero_stat : GOptions → MStat
zero_stat gopts = record {
  running_time = 0;
  allocation_time = 0;
  deallocation_time = 0;
  access_time = 0;
  bytes_allocated = 0;
  bytes_deallocated = 0;
  objects_allocated = 0;
  objects_deallocated = 0;
  lt_histogram = replicate (gopts.max_liveness + 1) 0;
  sz_histogram = replicate (gopts.max_object_sc + 1) 0;
  current_rss = 0;
  resident_set_size_counter = 0;
}

-- The context and the entry of the thread in `shared_heap_classes`. `pthread_mutex_init` succeeds.
unfoldable pub create_mutator_context : GOptions → ℕ → Cmd MetadataHeap (MContext × List LClass)
unfolding ◌+ℤ◌
create_mutator_context gopts thread_id = do
  mc ← calloc_meta_aligned 1 sizeof_m_context l1_line_sz
  stat ← calloc_meta 1 sizeof_m_stat
  lt ← calloc_meta (gopts.max_liveness + 1) 8
  sz ← calloc_meta (gopts.max_object_sc + 1) 8
  heap_class ← allocate_heap_class (gopts.max_liveness + gopts.deallocation_delay)
  shared ← allocate_heap_class gopts.max_liveness
  node_buffer_memory ← malloc_meta_aligned (l1_line_sz * gopts.node_buffer_size) l1_line_sz
  class_buffer_memory ← malloc_meta_aligned (l1_line_sz * gopts.class_buffer_size) l1_line_sz
  ids ← calloc_meta gopts.num_threads 4
  pure (
    record {
      gopts = gopts;
      thread_id = thread_id;
      rand = gopts.seed +ℤ pos thread_id;
      stat = zero_stat gopts;
      time = 0;
      heap_class = heap_class;
      node_buffer_memory = node_buffer_memory;
      node_buffer_counter = 0;
      node_cache = empty_class;
      class_buffer_memory = class_buffer_memory;
      class_buffer_counter = 0;
      class_cache = empty_class;
      thread_id_buffer = replicate gopts.num_threads 0;
    },
    shared,
  )
