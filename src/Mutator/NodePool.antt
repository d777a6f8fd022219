-- ===== src/Mutator/NodePool.antt =====
-- The pool of nodes: what `get_lsc_node` and `recycle_lsc_node` promise.
use acdc.Base.{
  inl, inr, ◌+◌, ◌*◌, ◌≤◌, ◌<◌, Bool, true, false, List, [], ◌∷◌, leb, ◌==◌, ◌≡◌, refl, ◌∙◌, arith,
  ◌≢◌,
}
use acdc.Base.Run.{Returns, failed, exit_failure}
use acdc.Types.{Ptr, null, l1_line_sz}
use acdc.Store.{update_ptr}
use acdc.LifetimeClass.{with_next, lclass_remove, lclass_insert_beginning}
use acdc.LifetimeClass.Stores.{set_prev-ok, set_next-ok}
use acdc.LifetimeClass.Remove.{lclass_remove-first}
use acdc.LifetimeClass.Ends.{lclass_insert_beginning-cons}
use acdc.Mutator.{World, set_chunk, fresh_lsc_node, get_lsc_node, recycle_lsc_node}
use acdc.Mutator.Pools.{
  Returns-in_heap, unlinked-outside, unlinked-IsDll, IsPool, Untouched, SameClasses, TakenFrom,
  used_free, used_taken, later, fresh_unused, fresh_taken, cleared-outside, recycled_free,
  recycled_range, still_used, new_or_old,
}

-- The pool of nodes of a thread.
abbrev pub IsNodePool : World → List Ptr → (Ptr → Bool) → Type 0
IsNodePool w xs used =
    IsPool w.heap w.mc.node_cache w.mc.node_buffer_memory w.mc.node_buffer_counter xs used

-- The next node of the buffer.
abbrev pub next_node : World → Ptr
next_node w = w.mc.node_buffer_memory + w.mc.node_buffer_counter * l1_line_sz

get_cached :
    (w : World) (used : Ptr → Bool) (x : Ptr) (xs : List Ptr)
    → IsNodePool w (x ∷ xs) used
    → Returns
        (λ c w'.
          (used c ≡ false)
          × (c ≢ null)
          × ((ys : List Ptr) × IsNodePool w' ys (update_ptr used c true)
              × TakenFrom (x ∷ xs) ys (next_node w) c)
          × Untouched (x ∷ xs) c w w'
          × SameClasses w w')
        (get_lsc_node w)
unfolding get_lsc_node
get_cached w used x xs pool =
    let nx : (x == null) ≡ false = ground (arith, pool.dll.not_null) in
    let start : w.mc.node_cache.first ≡ x = pool.dll.first in
    let new : used x ≡ false = ground (arith, pool.free x) in
    simp (start, nx)
      (Returns-in_heap _ w (lclass_remove w.mc.node_cache x w.heap) _
        (lclass_remove-first w.heap w.mc.node_cache x xs pool.dll)
        λ l g (d, only).
          rw (set_next-ok x g nx null, set_prev-ok x (with_next g x null) nx null)
            (
              new,
              (λ e. ground (arith, nx, e)),
              (
                xs,
                record {
                  dll = unlinked-IsDll g l xs x pool.dll.distinct.0 d;
                  free = λ a u. used_free used x xs a pool.dll.distinct.0 (pool.free a) u;
                  cached = λ a i. pool.cached a (ground arith);
                  taken = λ a u.
                      used_taken used x w.mc.node_buffer_memory
                        (w.mc.node_buffer_memory + w.mc.node_buffer_counter * l1_line_sz) a
                        (pool.cached x (ground arith)) (pool.taken a) u;
                  mapped = pool.mapped;
                },
                record {
                  rest = λ a i. ground arith;
                  kept = λ a i ne. ground arith;
                  origin = inl (ground arith);
                },
              ),
              record {
                store = refl;
                gopts = refl;
                time = refl;
                shared = refl;
                local = refl;
                memory = refl;
                counter = (omega arith, omega arith);
                stat = refl;
                others = λ a u ne. unlinked-outside g x a ne ∙ only.outside a (later x xs a u);
              },
              record { cache = refl; memory = refl; counter = refl },
            ))

get_fresh :
    (w : World) (used : Ptr → Bool)
    → IsNodePool w [] used
    → w.mc.node_buffer_counter < w.mc.gopts.node_buffer_size
    → Returns
        (λ c w'.
          (used c ≡ false)
          × (c ≢ null)
          × ((ys : List Ptr) × IsNodePool w' ys (update_ptr used c true)
              × TakenFrom [] ys (next_node w) c)
          × Untouched [] c w w'
          × SameClasses w w')
        (get_lsc_node w)
unfolding get_lsc_node fresh_lsc_node set_chunk
get_fresh w used pool room =
    let m = w.mc.node_buffer_memory in
    let n = w.mc.node_buffer_counter in
    let c = m + n * 64 in
    let nc : (c == null) ≡ false = ground (arith, pool.mapped) in
    let start : w.mc.node_cache.first ≡ null = pool.dll.first in
    let room' : leb w.mc.gopts.node_buffer_size n ≡ false = ground arith in
    simp (start, room')
      (rw (set_next-ok c w.heap nc null, set_prev-ok c (with_next w.heap c null) nc null, nc)
        (
          fresh_unused used c m (m + n * 64) (omega arith) (pool.taken c),
          (λ e. ground (arith, nc, e)),
          (
            [],
            record {
              dll = record {
                first = pool.dll.first;
                last = pool.dll.last;
                linked = tt;
                distinct = tt;
                not_null = refl;
              };
              free = λ a u. refl;
              cached = λ a i. absurd (ground arith);
              taken = λ a u.
                  fresh_taken used c m (m + n * 64) (m + (n + 1) * 64) a (omega arith) (omega arith)
                    (omega arith) (pool.taken a) u;
              mapped = pool.mapped;
            },
            record { rest = λ a i. i; kept = λ a i ne. i; origin = inr refl },
          ),
          record {
            store = refl;
            gopts = refl;
            time = refl;
            shared = refl;
            local = refl;
            memory = refl;
            counter = (omega arith, omega arith);
            stat = refl;
            others = λ a u ne. cleared-outside w.heap c a ne;
          },
          record { cache = refl; memory = refl; counter = refl },
        ))

-- An empty pool whose buffer is used up ends the program.
pub get_lsc_node-exit :
    (w : World) (used : Ptr → Bool)
    → IsNodePool w [] used
    → w.mc.gopts.node_buffer_size ≤ w.mc.node_buffer_counter
    → get_lsc_node w ≡ failed exit_failure
unfolding get_lsc_node fresh_lsc_node
get_lsc_node-exit w used pool full =
    let start : w.mc.node_cache.first ≡ null = pool.dll.first in
    let full' : leb w.mc.gopts.node_buffer_size w.mc.node_buffer_counter ≡ true = ground arith in
    simp (start, full')

-- A node that is in use goes back: it is then cached, and the pool of classes is the same.
pub recycle_lsc_node-IsPool :
    (w : World) (used : Ptr → Bool) (xs : List Ptr) (c : Ptr)
    → IsNodePool w xs used
    → used c ≡ true
    → Returns
        (λ _ w'.
          IsNodePool w' (c ∷ xs) (update_ptr used c false) × Untouched xs c w w' × SameClasses w w')
        (recycle_lsc_node c w)
unfolding recycle_lsc_node
recycle_lsc_node-IsPool w used xs c pool u =
    let nc : (c == null) ≡ false = ground (arith, pool.taken c u, pool.mapped) in
    Returns-in_heap _ w (lclass_insert_beginning w.mc.node_cache c w.heap) _
      (lclass_insert_beginning-cons w.heap w.mc.node_cache xs c pool.dll nc (pool.free c u))
      λ l g (d, only). (
        record {
          dll = d;
          free = λ a v. recycled_free used c xs a (pool.free a) v;
          cached = λ a i.
              recycled_range c xs a w.mc.node_buffer_memory
                (w.mc.node_buffer_memory + w.mc.node_buffer_counter * l1_line_sz) (pool.taken c u)
                (pool.cached a) i;
          taken = λ a v. pool.taken a (still_used used c a v);
          mapped = pool.mapped;
        },
        record {
          store = refl;
          gopts = refl;
          time = refl;
          shared = refl;
          local = refl;
          memory = refl;
          counter = (omega arith, omega arith);
          stat = refl;
          others = λ a v ne. only.outside a (new_or_old c xs a ne v);
        },
        record { cache = refl; memory = refl; counter = refl },
      )

-- `get_lsc_node` succeeds while the pool has a recycled node or room in its buffer. It hands out a node
-- that is not in use and not `NULL`, a cached one or the next of the buffer, the pool stays well-formed,
-- the pool of classes is the same, and no node or class changes but cached nodes and the new one.
pub get_lsc_node-IsPool :
    (w : World) (used : Ptr → Bool) (xs : List Ptr)
    → IsNodePool w xs used
    → (xs ≡ [] → w.mc.node_buffer_counter < w.mc.gopts.node_buffer_size)
    → Returns
        (λ c w'.
          (used c ≡ false)
          × (c ≢ null)
          × ((ys : List Ptr) × IsNodePool w' ys (update_ptr used c true)
              × TakenFrom xs ys (next_node w) c)
          × Untouched xs c w w'
          × SameClasses w w')
        (get_lsc_node w)
get_lsc_node-IsPool w used [] pool room = get_fresh w used pool (room refl)
get_lsc_node-IsPool w used (x ∷ xs) pool room = get_cached w used x xs pool
