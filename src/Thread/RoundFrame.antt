-- ===== src/Thread/RoundFrame.antt =====
-- What the operations of a thread leave alone: the options. The heap classes, the samples and the round
-- of a thread, src/acdc.c.
use acdc.Base.{ℕ, zero, suc, refl, List, [], ◌∷◌, Option, none, some, get_elem?}
use acdc.Base.Run.{ok, failed, out_of_bounds}
use acdc.Base.Int.{ℤ}
use acdc.Types.{Ptr, LClass}
use acdc.Mutator.{World}
use acdc.HeapClass.{
  class_at, heap_class_insert, heap_class_get_LClass, decrement,
  unreference_and_deallocate_ls_class, expire_nodes, heap_class_remove, access_nodes,
  access_classes, access_live_LClasses, shared_of, set_shared, share_with, share_ls_class,
  append_remote, fetch_classes, get_shared_LClasses,
}
use acdc.MemoryStats.{Sources, get_and_print_memstats}
use acdc.Distribution.{ObjectProps}
use acdc.Thread.{add_at, count_objects, at_time_gap, advance}
use acdc.Thread.Frame.{Keeps, keeps, KeptIn, world_options, keeping}
use acdc.Thread.Draws.{
  get_lsc_node-Keeps, recycle_lsc_node-Keeps, get_random_thread_selection-Keeps,
}
use acdc.Thread.ClassFrame.{deallocate_ls_class-Keeps, traverse_ls_class-Keeps}

class_at-Keeps : (heap_class : List LClass) (i : ℕ) → Keeps world_options (class_at heap_class i)
unfolding class_at
class_at-Keeps [] i = keeps (λ w. tt)
class_at-Keeps (lc ∷ heap_class) zero = keeps (λ w. refl)
class_at-Keeps (lc ∷ heap_class) (suc i) = class_at-Keeps heap_class i

pub heap_class_insert-Keeps :
    (heap_class : List LClass) (c : Ptr) → Keeps world_options (heap_class_insert heap_class c)
unfolding heap_class_insert
heap_class_insert-Keeps heap_class c = search (keeping, class_at-Keeps, get_lsc_node-Keeps) depth 24

pub heap_class_get_LClass-Keeps :
    (heap_class : List LClass) (i : ℕ) → Keeps world_options (heap_class_get_LClass heap_class i)
unfolding heap_class_get_LClass
heap_class_get_LClass-Keeps heap_class i = search (keeping, class_at-Keeps) depth 24

pub decrement-Keeps : (c : Ptr) → Keeps world_options (decrement c)
unfolding decrement
decrement-Keeps c = search (keeping) depth 24

pub unreference_and_deallocate_ls_class-Keeps :
    (c : Ptr) → Keeps world_options (unreference_and_deallocate_ls_class c)
unfolding unreference_and_deallocate_ls_class
unreference_and_deallocate_ls_class-Keeps c =
    search (keeping, decrement-Keeps, deallocate_ls_class-Keeps) depth 24

pub expire_nodes-Keeps : (f : ℕ) (iterator : Ptr) → Keeps world_options (expire_nodes f iterator)
unfolding expire_nodes
expire_nodes-Keeps zero iterator = search (keeping) depth 24
expire_nodes-Keeps (suc f) iterator =
    search
      (
        keeping,
        unreference_and_deallocate_ls_class-Keeps,
        recycle_lsc_node-Keeps,
        expire_nodes-Keeps f,
      )
      depth 24

pub heap_class_remove-Keeps :
    (heap_class : List LClass) → Keeps world_options (heap_class_remove heap_class)
unfolding heap_class_remove
heap_class_remove-Keeps heap_class = search (keeping, class_at-Keeps, expire_nodes-Keeps) depth 24

pub access_nodes-Keeps : (f : ℕ) (iterator : Ptr) → Keeps world_options (access_nodes f iterator)
unfolding access_nodes
access_nodes-Keeps zero iterator = search (keeping) depth 24
access_nodes-Keeps (suc f) iterator =
    search (keeping, traverse_ls_class-Keeps, access_nodes-Keeps f) depth 24

pub access_classes-Keeps : (n i : ℕ) → Keeps world_options (access_classes n i)
unfolding access_classes
access_classes-Keeps zero i = search (keeping) depth 24
access_classes-Keeps (suc n) i =
    search (keeping, heap_class_get_LClass-Keeps, access_nodes-Keeps, access_classes-Keeps n) depth
      24

pub access_live_LClasses-Keeps : Keeps world_options access_live_LClasses
unfolding access_live_LClasses
access_live_LClasses-Keeps = search (keeping, access_classes-Keeps) depth 24

shared_of-Keeps : (tid : ℕ) → Keeps world_options (shared_of tid)
unfolding shared_of
shared_of-Keeps tid = keeps (λ w. by_entry (get_elem? w.shared_heap_classes tid) w)
  where
    by_entry :
        (r : Option (List LClass)) (w : World)
        → KeptIn {A = List LClass} world_options w.mc.gopts
            (elim r [ none ↦ failed out_of_bounds | some heap_class ↦ ok heap_class w ])
    by_entry none w = tt
    by_entry (some heap_class) w = refl

set_shared-Keeps :
    (tid : ℕ) (heap_class : List LClass) → Keeps world_options (set_shared tid heap_class)
unfolding set_shared
set_shared-Keeps tid heap_class = keeps (λ w. refl)

pub share_with-Keeps : (tids : List ℕ) (c : Ptr) → Keeps world_options (share_with tids c)
unfolding share_with
share_with-Keeps [] c = search (keeping) depth 24
share_with-Keeps (tid ∷ tids) c =
    search
      (keeping, shared_of-Keeps, heap_class_insert-Keeps, set_shared-Keeps, share_with-Keeps tids)
      depth 24

pub share_ls_class-Keeps : (c : Ptr) → Keeps world_options (share_ls_class c)
unfolding share_ls_class
share_ls_class-Keeps c =
    search (keeping, get_random_thread_selection-Keeps, share_with-Keeps) depth 24

pub append_remote-Keeps : (local remote : LClass) → Keeps world_options (append_remote local remote)
unfolding append_remote
append_remote-Keeps local remote = search (keeping) depth 24

pub fetch_classes-Keeps : (n i : ℕ) → Keeps world_options (fetch_classes n i)
unfolding fetch_classes
fetch_classes-Keeps zero i = search (keeping) depth 24
fetch_classes-Keeps (suc n) i =
    search
      (
        keeping,
        shared_of-Keeps,
        class_at-Keeps,
        heap_class_get_LClass-Keeps,
        append_remote-Keeps,
        set_shared-Keeps,
        fetch_classes-Keeps n,
      )
      depth 24

pub get_shared_LClasses-Keeps : Keeps world_options get_shared_LClasses
unfolding get_shared_LClasses
get_shared_LClasses-Keeps = search (keeping, fetch_classes-Keeps) depth 24

pub get_and_print_memstats-Keeps :
    (src : Sources) → Keeps world_options (get_and_print_memstats src)
unfolding get_and_print_memstats
get_and_print_memstats-Keeps src = search (keeping) depth 24

pub add_at-Keeps : (histogram : List ℕ) (i n : ℕ) → Keeps world_options (add_at histogram i n)
unfolding add_at
add_at-Keeps histogram i n = search (keeping) depth 24

pub count_objects-Keeps : (p : ObjectProps) → Keeps world_options (count_objects p)
unfolding count_objects
count_objects-Keeps p = search (keeping, add_at-Keeps) depth 24

pub at_time_gap-Keeps : (time : ℕ) (gap : ℤ) → Keeps world_options (at_time_gap time gap)
unfolding at_time_gap
at_time_gap-Keeps time gap = search (keeping) depth 24

pub advance-Keeps : (src : Sources) → Keeps world_options (advance src)
unfolding advance
advance-Keeps src =
    search (keeping, get_and_print_memstats-Keeps, heap_class_remove-Keeps, at_time_gap-Keeps) depth
      24
