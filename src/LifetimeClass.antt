-- ===== src/LifetimeClass.antt =====
-- src/lifetime-class.c: doubly-linked lists of nodes. A function that updates the `LClass` returns
-- its new value; the nodes are in the heap, and every access is in the order of the source.
pub mod Linked
pub mod InsertAfter
pub mod InsertBefore
pub mod Ends
pub mod Stores
pub mod Taking
pub mod Remove
pub mod Queue
use acdc.Base.{◌==◌, if◌then◌else◌}
use acdc.Base.Run.{Cmd, ok, failed, pure, ◌>>=◌, ◌>>◌, null_dereference}
use acdc.Types.{Ptr, null, Chunk, Heap, write, LClass}

-- `*p`, which faults at `NULL`.
unfoldable pub load : Ptr → Cmd Heap Chunk
load p h = if p == null then failed null_dereference else ok (h p) h

-- The heaps after `p->prev = q` and after `p->next = q`.
unfoldable pub with_prev : Heap → Ptr → Ptr → Heap
unfolding write
with_prev h p q = write h p (record (h p) { prev = q })

unfoldable pub with_next : Heap → Ptr → Ptr → Heap
unfolding write
with_next h p q = write h p (record (h p) { next = q })

-- `p->prev = q`.
unfoldable pub set_prev : Ptr → Ptr → Cmd Heap (Unit {0})
set_prev p q h = if p == null then failed null_dereference else ok tt (with_prev h p q)

-- `p->next = q`.
unfoldable pub set_next : Ptr → Ptr → Cmd Heap (Unit {0})
set_next p q h = if p == null then failed null_dereference else ok tt (with_next h p q)

unfoldable pub lclass_insert_after : LClass → Ptr → Ptr → Cmd Heap LClass
lclass_insert_after list after c = do
  set_prev c after
  a ← load after
  set_next c a.next
  a ← load after
  list' ←
      (if a.next == null then pure (record list { last = c }) else (set_prev a.next c >> pure list))
  set_next after c
  pure list'

unfoldable pub lclass_insert_before : LClass → Ptr → Ptr → Cmd Heap LClass
lclass_insert_before list before c = do
  b ← load before
  set_prev c b.prev
  set_next c before
  b ← load before
  list' ←
      (if b.prev == null
        then pure (record list { first = c })
        else (set_next b.prev c >> pure list))
  set_prev before c
  pure list'

unfoldable pub lclass_insert_beginning : LClass → Ptr → Cmd Heap LClass
lclass_insert_beginning list c =
    if list.first == null
    then (do set_prev c null; set_next c null; pure (record { first = c; last = c }))
    else lclass_insert_before list list.first c

unfoldable pub lclass_insert_end : LClass → Ptr → Cmd Heap LClass
lclass_insert_end list c =
    if list.last == null
    then lclass_insert_beginning list c
    else lclass_insert_after list list.last c

unfoldable pub lclass_remove : LClass → Ptr → Cmd Heap LClass
lclass_remove list c = do
  n ← load c
  list' ←
      (if n.prev == null
        then pure (record list { first = n.next })
        else (set_next n.prev n.next >> pure list))
  n ← load c
  if n.next == null
      then pure (record list' { last = n.prev })
      else (set_prev n.next n.prev >> pure list')
