-- ===== src/HeapClass.antt =====
-- The heap classes of src/acdc.c: for each remaining liveness a list of the classes with that liveness,
-- in a cyclic array whose origin moves with the thread's time.
pub mod Slots
pub mod Counting
pub mod Insert
pub mod Expiry
pub mod Remove
pub mod Owned
pub mod Departure
pub mod Emptying
pub mod Leaving
pub mod RemoveAlone
pub mod Waiting
pub mod Life
pub mod Receivers
pub mod Sharing
pub mod ShareClass
pub mod LastReceiver
pub mod Fetching
pub mod FetchLists
pub mod FetchRound
pub mod AppendRound
pub mod Fetched
pub mod Received
use acdc.Base.{
  ℕ, zero, suc, ◌+◌, ◌-◌, ◌*◌, ◌%◌, ◌^◌, List, [], ◌∷◌, ltb, ◌==◌, if◌then◌else◌, Option, none,
  some, get_elem?, set, take,
}
use acdc.Base.Int.{ℤ, pos, ◌+ℤ◌, ◌-ℤ◌, ltb_ℤ, pos_part}
use acdc.Base.Run.{
  Cmd, Outcome, ok, failed, pure, stop, assert, get_state, ◌>>=◌, ◌>>◌, out_of_fuel, out_of_bounds,
  division_by_zero,
}
use acdc.Types.{Ptr, null, LClass, empty_class, reference_counter, lifetime, GOptions}
use acdc.LifetimeClass.{load, set_next, lclass_insert_end}
use acdc.Distribution.{get_random_thread_selection}
use acdc.Mutator.{
  World, in_context, in_heap, set_chunk, set_context, get_lsc_node, recycle_lsc_node,
}
use acdc.Classes.{deallocate_ls_class, traverse_ls_class}

-- The number of entries that the indices range over.
abbrev pub slots : GOptions → ℕ
slots g = g.max_liveness + g.deallocation_delay

-- `insert_index`, for a class of that lifetime. The liveness is an `unsigned int`.
unfoldable pub insert_index : GOptions → ℕ → ℕ → ℕ
insert_index g time lifetime =
    let liveness = (lifetime + 2 ^ 32 - g.deallocation_delay) % 2 ^ 32 in
    (time + liveness) % slots g

-- `index` of `heap_class_get_LClass`.
unfoldable pub live_index : GOptions → ℕ → ℕ → ℕ
live_index g time remaining_liveness = (time + remaining_liveness) % 2 ^ 32 % slots g

-- `if (delete_index < 0) delete_index += slots;`
abbrev pub wrap_index : ℕ → ℤ → ℤ
wrap_index n index = if ltb_ℤ index (pos 0) then index +ℤ pos n else index

unfoldable pub delete_index : GOptions → ℕ → ℤ
unfolding ◌-ℤ◌ ◌+ℤ◌
delete_index g time = wrap_index (slots g) (pos (time % slots g) -ℤ pos g.deallocation_delay)

-- A read of `heap_class[i]`.
unfoldable pub class_at : List LClass → ℕ → Cmd World LClass
class_at heap_class i w = read (get_elem? heap_class i)
  where
    read : Option LClass → Outcome World LClass
    read none = failed out_of_bounds
    read (some lc) = ok lc w

-- The result is the new value of the array. `NULL` as a class is not dereferenced by the insertion but
-- by the read of its lifetime.
unfoldable pub heap_class_insert : List LClass → Ptr → Cmd World (List LClass)
heap_class_insert heap_class c = do
  k ← in_heap (load c)
  w ← get_state
  if slots w.mc.gopts == 0 then stop division_by_zero else do
    let index = insert_index w.mc.gopts w.mc.time (lifetime k)
    node ← get_lsc_node
    set_chunk node (λ n. record n { ls_class = c })
    target ← class_at heap_class index
    target ← in_heap (lclass_insert_end target node)
    pure (set heap_class index target)

-- The index of the lifetime-class and its value.
unfoldable pub heap_class_get_LClass : List LClass → ℕ → Cmd World (ℕ × LClass)
heap_class_get_LClass heap_class remaining_liveness = do
  w ← get_state
  assert (ltb remaining_liveness w.mc.gopts.max_liveness)
  let index = live_index w.mc.gopts w.mc.time remaining_liveness
  lc ← class_at heap_class index
  pure (index, lc)

-- `atomic_uint64_decrement(&c->reference_counter)` and its result.
unfoldable pub decrement : Ptr → Cmd World ℕ
decrement c = do
  k ← in_heap (load c)
  let left = (reference_counter k + 2 ^ 64 - 1) % 2 ^ 64
  set_chunk c (λ n. record n { prev = left })
  pure left

unfoldable pub unreference_and_deallocate_ls_class : Ptr → Cmd World (Unit {0})
unreference_and_deallocate_ls_class c = do
  left ← decrement c
  if left == 0 then deallocate_ls_class c else pure tt

-- The loop of `heap_class_remove`, on fuel.
unfoldable pub expire_nodes : ℕ → Ptr → Cmd World (Unit {0})
expire_nodes zero iterator = stop out_of_fuel
expire_nodes (suc f) iterator = if iterator == null then pure tt else do
  n ← in_heap (load iterator)
  unreference_and_deallocate_ls_class n.ls_class
  n ← in_heap (load iterator)
  recycle_lsc_node iterator
  expire_nodes f n.next

-- The nodes of every thread fit into the fuel of the loops over a lifetime-class.
abbrev pub node_fuel : GOptions → ℕ
node_fuel g = g.num_threads * g.node_buffer_size + 1

unfoldable pub heap_class_remove : List LClass → Cmd World (List LClass)
heap_class_remove heap_class = do
  w ← get_state
  if slots w.mc.gopts == 0 then stop division_by_zero else do
    let index = pos_part (delete_index w.mc.gopts w.mc.time)
    expired ← class_at heap_class index
    expire_nodes (node_fuel w.mc.gopts) expired.first
    pure (set heap_class index empty_class)

-- The inner loop of `access_live_LClasses`, on fuel.
unfoldable pub access_nodes : ℕ → Ptr → Cmd World (Unit {0})
access_nodes zero iterator = stop out_of_fuel
access_nodes (suc f) iterator = if iterator == null then pure tt else do
  n ← in_heap (load iterator)
  traverse_ls_class n.ls_class
  n ← in_heap (load iterator)
  access_nodes f n.next

-- `for (i = ...; i < max_liveness; ++i)`; `n` rounds are left.
unfoldable pub access_classes : ℕ → ℕ → Cmd World (Unit {0})
access_classes zero i = pure tt
access_classes (suc n) i = do
  w ← get_state
  found ← heap_class_get_LClass w.mc.heap_class i
  let (index, lc) = found
  access_nodes (node_fuel w.mc.gopts) lc.first
  access_classes n (i + 1)

unfoldable pub access_live_LClasses : Cmd World (Unit {0})
access_live_LClasses = do
  w ← get_state
  if w.mc.gopts.access_live_objects then access_classes w.mc.gopts.max_liveness 0 else pure tt

-- The shared heap class of a thread, and its new value.
unfoldable pub shared_of : ℕ → Cmd World (List LClass)
shared_of tid w = read (get_elem? w.shared_heap_classes tid)
  where
    read : Option (List LClass) → Outcome World (List LClass)
    read none = failed out_of_bounds
    read (some heap_class) = ok heap_class w

unfoldable pub set_shared : ℕ → List LClass → Cmd World (Unit {0})
set_shared tid heap_class w =
    ok tt (record w { shared_heap_classes = set w.shared_heap_classes tid heap_class })

-- The loop of `share_ls_class`, over the receiving threads that are left.
unfoldable pub share_with : List ℕ → Ptr → Cmd World (Unit {0})
share_with [] c = pure tt
share_with (tid ∷ tids) c = do
  heap_class ← shared_of tid
  heap_class ← heap_class_insert heap_class c
  set_shared tid heap_class
  share_with tids c

-- The selection is in `thread_id_buffer`, whose first entries are the receiving threads.
unfoldable pub share_ls_class : Ptr → Cmd World (Unit {0})
share_ls_class c = do
  selection ← in_context get_random_thread_selection
  let (ids, number_of_receiving_threads) = selection
  set_context λ mc. record mc { thread_id_buffer = ids }
  set_chunk c (λ n. record n { prev = number_of_receiving_threads })
  share_with (take number_of_receiving_threads ids) c

-- One round of the loop of `get_shared_LClasses`, after the tests: the new value of `local`.
unfoldable pub append_remote : LClass → LClass → Cmd World LClass
append_remote local remote =
    if local.first == null
    then pure remote
    else do in_heap (set_next local.last remote.first); pure (record local { last = remote.last })

-- `for (i = ...; i < max_liveness; ++i)`; `n` rounds are left. The local heap class is that of the
-- context.
unfoldable pub fetch_classes : ℕ → ℕ → Cmd World (Unit {0})
fetch_classes zero i = pure tt
fetch_classes (suc n) i = do
  w ← get_state
  shared ← shared_of w.mc.thread_id
  remote ← class_at shared i
  found ← heap_class_get_LClass w.mc.heap_class i
  let (index, local) = found
  (if remote.first == null then pure tt else do
    local ← append_remote local remote
    set_context λ mc. record mc { heap_class = set mc.heap_class index local }
    set_shared w.mc.thread_id (set shared i empty_class))
  fetch_classes n (i + 1)

unfoldable pub get_shared_LClasses : Cmd World (Unit {0})
get_shared_LClasses = do w ← get_state; fetch_classes w.mc.gopts.max_liveness 0
