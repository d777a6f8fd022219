-- ===== src/Mutator.antt =====
-- The state that a thread of the benchmark runs on, and the memory of its nodes and classes: the first
-- part of src/acdc.c and of src/lifetime-size-classes.c.
pub mod Pools
pub mod ClassPool
pub mod NodePool
use acdc.Base.{◌-◌, ◌^◌, ◌%◌, ℕ, ◌+◌, ◌*◌, ◌/◌, List, leb, ◌==◌, if◌then◌else◌}
use acdc.Base.Run.{
  Cmd, Outcome, ok, failed, pure, stop, assert, get_state, ◌>>=◌, ◌>>◌, null_dereference,
  exit_failure,
}
use acdc.Types.{
  Ptr, null, Chunk, Heap, write, LClass, MContext, l1_line_sz, sizeof_ls_class, reference_counter,
}
use acdc.Store.{Store}
use acdc.ProcStatus.{ProcStatus}
use acdc.LifetimeClass.{set_prev, set_next, load, lclass_remove, lclass_insert_beginning}

-- What the functions of one thread reach: its context, the memory of nodes and classes, the memory of
-- the objects, and `shared_heap_classes`, whose entry of each thread is under a lock of its own. A
-- section under a lock is one step. `clock` gives what the processor's counter will show at each of the
-- thread's readings of it: its upper and its lower half. `proc_status` is `stat` of src/proc-status.c.
pub record World : Type 0 where
  pub mc : MContext
  pub heap : Heap
  pub store : Store
  pub shared_heap_classes : List (List LClass)
  pub clock : ℕ → ℕ × ℕ
  pub readings : ℕ
  pub proc_status : ProcStatus

abbrev pub context_back : {A : Type 0} → World → Outcome MContext A → Outcome World A
context_back w (ok a mc) = ok a (record w { mc = mc })
context_back w (failed e) = failed e

abbrev pub heap_back : {A : Type 0} → World → Outcome Heap A → Outcome World A
heap_back w (ok a h) = ok a (record w { heap = h })
heap_back w (failed e) = failed e

abbrev pub store_back : {A : Type 0} → World → Outcome Store A → Outcome World A
store_back w (ok a s) = ok a (record w { store = s })
store_back w (failed e) = failed e

abbrev pub proc_back : {A : Type 0} → World → Outcome ProcStatus A → Outcome World A
proc_back w (ok a stat) = ok a (record w { proc_status = stat })
proc_back w (failed e) = failed e

-- A command on one part of the state.
abbrev pub in_context : {A : Type 0} → Cmd MContext A → Cmd World A
in_context m w = context_back w (m w.mc)

abbrev pub in_heap : {A : Type 0} → Cmd Heap A → Cmd World A
in_heap m w = heap_back w (m w.heap)

abbrev pub in_proc : {A : Type 0} → Cmd ProcStatus A → Cmd World A
in_proc m w = proc_back w (m w.proc_status)

abbrev pub in_store : {A : Type 0} → Cmd Store A → Cmd World A
in_store m w = store_back w (m w.store)

-- `rdtsc`.
unfoldable pub rdtsc : Cmd World ℕ
rdtsc w =
    let (hi, lo) = w.clock w.readings in
    ok (lo % 2 ^ 32 + hi % 2 ^ 32 * 2 ^ 32) (record w { readings = w.readings + 1 })

-- `end - start`, and what is added to a sum of times.
abbrev pub elapsed : ℕ → ℕ → ℕ
elapsed start end = (end + 2 ^ 64 - start) % 2 ^ 64

-- A new value of the context.
abbrev pub set_context : (MContext → MContext) → Cmd World (Unit {0})
set_context f w = ok tt (record w { mc = f w.mc })

-- A new value of the node or the class at `p`.
unfoldable pub set_chunk : Ptr → (Chunk → Chunk) → Cmd World (Unit {0})
set_chunk p f w =
    if p == null
    then failed null_dereference
    else ok tt (record w { heap = write w.heap p (f (w.heap p)) })

-- The part of `get_lsc_node` that takes a node from the buffer.
unfoldable pub fresh_lsc_node : Cmd World Ptr
fresh_lsc_node = do
  w ← get_state
  if leb w.mc.gopts.node_buffer_size w.mc.node_buffer_counter then stop exit_failure else do
    let node = w.mc.node_buffer_memory + w.mc.node_buffer_counter * l1_line_sz
    set_context λ mc. record mc { node_buffer_counter = mc.node_buffer_counter + 1 }
    in_heap (set_next node null)
    in_heap (set_prev node null)
    set_chunk node (λ n. record n { ls_class = null })
    pure node

unfoldable pub get_lsc_node : Cmd World Ptr
get_lsc_node = do
  w ← get_state
  let node = w.mc.node_cache.first
  if node == null then fresh_lsc_node else do
    cache ← in_heap (lclass_remove w.mc.node_cache node)
    set_context λ mc. record mc { node_cache = cache }
    in_heap (set_next node null)
    in_heap (set_prev node null)
    pure node

unfoldable pub recycle_lsc_node : Ptr → Cmd World (Unit {0})
recycle_lsc_node node = do
  w ← get_state
  cache ← in_heap (lclass_insert_beginning w.mc.node_cache node)
  set_context λ mc. record mc { node_cache = cache }

-- The distance of two classes in their buffer.
abbrev pub class_stride : ℕ
class_stride = sizeof_ls_class / l1_line_sz * l1_line_sz + l1_line_sz

-- The part of `get_ls_class` that takes a class from the buffer.
unfoldable pub fresh_ls_class : Cmd World Ptr
fresh_ls_class = do
  w ← get_state
  if leb w.mc.gopts.class_buffer_size w.mc.class_buffer_counter then stop exit_failure else do
    let node = w.mc.class_buffer_memory + w.mc.class_buffer_counter * class_stride
    set_context λ mc. record mc { class_buffer_counter = mc.class_buffer_counter + 1 }
    in_heap (set_next node null)
    in_heap (set_prev node null)
    set_chunk node (λ n. record n { ls_class = null })
    pure node

unfoldable pub get_ls_class : Cmd World Ptr
get_ls_class = do
  w ← get_state
  let node = w.mc.class_cache.first
  if node == null then fresh_ls_class else do
    cache ← in_heap (lclass_remove w.mc.class_cache node)
    set_context λ mc. record mc { class_cache = cache }
    in_heap (set_next node null)
    in_heap (set_prev node null)
    pure node

-- A class is recycled as a node.
unfoldable pub recycle_ls_class : Ptr → Cmd World (Unit {0})
recycle_ls_class class = do
  c ← in_heap (load class)
  assert (reference_counter c == 0)
  w ← get_state
  cache ← in_heap (lclass_insert_beginning w.mc.class_cache class)
  set_context λ mc. record mc { class_cache = cache }
