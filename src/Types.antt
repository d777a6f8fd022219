-- ===== src/Types.antt =====
-- The data that the parts of the program share: src/acdc.h, the constants of src/caches.h, and the
-- memory of nodes and classes.
use acdc.Base.{ℕ, ◌%◌, ◌^◌, Bool, List, ◌==◌, if◌then◌else◌}
use acdc.Base.Int.{ℤ}

-- `benchmark_mode_t`. The type of the constants is `Mode`.
pub data Mode : Type 0 where
  acdc_mode fs_mode : Mode

-- `GOptions`. Options whose sign the code tests are integers, the others natural numbers; the
-- options that are only switched on are Booleans. `allocator_name` is the list of its bytes.
pub record GOptions : Type 0 where
  pub mode : Mode
  pub num_threads : ℕ
  pub time_quantum : ℕ
  pub benchmark_duration : ℕ
  pub seed : ℤ
  pub metadata_heap_sz : ℕ
  pub min_liveness : ℕ
  pub max_liveness : ℕ
  pub fixed_number_of_objects : ℕ
  pub deallocation_delay : ℕ
  pub max_time_gap : ℤ
  pub min_object_sc : ℕ
  pub max_object_sc : ℕ
  pub list_based_ratio : ℤ
  pub btree_based_ratio : ℤ
  pub node_buffer_size : ℕ
  pub class_buffer_size : ℕ
  pub write_iterations : ℕ
  pub access_live_objects : Bool
  pub write_access_ratio : ℕ
  pub shared_objects : Bool
  pub shared_objects_ratio : ℕ
  pub receiving_threads_ratio : ℕ
  pub verbosity : ℕ
  pub allocator_name : List ℕ
  pub do_baseline_rss : Bool
  pub use_hugepages : Bool
  pub use_compact_allocation : Bool

-- `MStat`.
pub record MStat : Type 0 where
  pub running_time : ℕ
  pub allocation_time : ℕ
  pub deallocation_time : ℕ
  pub access_time : ℕ
  pub bytes_allocated : ℕ
  pub bytes_deallocated : ℕ
  pub objects_allocated : ℕ
  pub objects_deallocated : ℕ
  pub lt_histogram : List ℕ
  pub sz_histogram : List ℕ
  pub current_rss : ℕ
  pub resident_set_size_counter : ℕ

-- `lifetime_size_class_type`.
pub data ClassType : Type 0 where
  list_type btree_type false_sharing : ClassType
  optimal_list optimal_btree optimal_false_sharing : ClassType

abbrev pub Ptr : Type 0
Ptr = ℕ

abbrev pub null : Ptr
null = 0

-- One cache line of node or class memory. The program casts an `LSClass` to an `LSCNode` when it
-- recycles it, so the first three words have two readings:
--   word 0: `prev` of a node, `reference_counter` of a class;
--   word 1: `next` of a node, `object_size` of a class;
--   word 2: `ls_class` of a node, `lifetime` (the low half) of a class.
pub record Chunk : Type 0 where
  pub prev : ℕ
  pub next : ℕ
  pub ls_class : ℕ
  pub num_objects : ℕ
  pub type : ClassType
  pub start : Ptr

abbrev pub reference_counter : Chunk → ℕ
reference_counter c = c.prev

abbrev pub object_size : Chunk → ℕ
object_size c = c.next

abbrev pub lifetime : Chunk → ℕ
lifetime c = c.ls_class % 2 ^ 32

-- Every address but `NULL` is mapped.
abbrev pub Heap : Type 0
Heap = Ptr → Chunk

unfoldable pub write : Heap → Ptr → Chunk → Heap
write h p c a = if a == p then c else h a

-- `LClass`: the ends of a list of nodes.
pub record LClass : Type 0 where
  pub first : Ptr
  pub last : Ptr

abbrev pub empty_class : LClass
empty_class = record { first = null; last = null }

-- `L1_LINE_SZ`.
abbrev pub l1_line_sz : ℕ
l1_line_sz = 64

-- `sizeof(LSClass)`, `sizeof(BTObject)`, `sizeof(LObject)` and `sizeof(Object)` on x86-64; the last
-- is the size of `void` in GNU C.
abbrev pub sizeof_ls_class : ℕ
sizeof_ls_class = 48

abbrev pub sizeof_bt_object : ℕ
sizeof_bt_object = 16

abbrev pub sizeof_l_object : ℕ
sizeof_l_object = 8

abbrev pub sizeof_object : ℕ
sizeof_object = 1

-- `MContext`.
pub record MContext : Type 0 where
  pub gopts : GOptions
  pub thread_id : ℕ
  pub rand : ℤ
  pub stat : MStat
  pub time : ℕ
  pub heap_class : List LClass
  pub node_buffer_memory : Ptr
  pub node_buffer_counter : ℕ
  pub node_cache : LClass
  pub class_buffer_memory : Ptr
  pub class_buffer_counter : ℕ
  pub class_cache : LClass
  pub thread_id_buffer : List ℕ
