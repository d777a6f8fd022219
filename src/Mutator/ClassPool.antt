-- ===== src/Mutator/ClassPool.antt =====
-- The pool of classes: what `get_ls_class` and `recycle_ls_class` promise.
use acdc.Base.{
  ◌+◌, ◌*◌, ◌≤◌, ◌<◌, Bool, true, false, List, [], ◌∷◌, leb, ◌==◌, ◌≡◌, refl, ◌∙◌, arith, ◌≢◌,
}
use acdc.Base.Run.{Returns, failed, exit_failure}
use acdc.Types.{Ptr, null, l1_line_sz, reference_counter}
use acdc.Store.{update_ptr}
use acdc.LifetimeClass.{with_next, lclass_remove, lclass_insert_beginning}
use acdc.LifetimeClass.Stores.{load-ok, set_prev-ok, set_next-ok}
use acdc.LifetimeClass.Remove.{lclass_remove-first}
use acdc.LifetimeClass.Ends.{lclass_insert_beginning-cons}
use acdc.Mutator.{World, set_chunk, fresh_ls_class, get_ls_class, recycle_ls_class}
use acdc.Mutator.Pools.{
  unlinked-cleared, cleared-counter, Returns-in_heap, unlinked-outside, unlinked-IsDll, IsPool,
  Untouched, SameNodes, used_free, used_taken, later, fresh_unused, fresh_taken, cleared-outside,
  recycled_free, recycled_range, still_used, new_or_old,
}

-- The pool of classes of a thread.
abbrev pub IsClassPool : World → List Ptr → (Ptr → Bool) → Type 0
IsClassPool w xs used =
    IsPool w.heap w.mc.class_cache w.mc.class_buffer_memory w.mc.class_buffer_counter xs used

get_cached :
    (w : World) (used : Ptr → Bool) (x : Ptr) (xs : List Ptr)
    → IsClassPool w (x ∷ xs) used
    → Returns
        (λ c w'.
          (used c ≡ false)
          × (c ≢ null)
          × (reference_counter (w'.heap c) ≡ 0)
          × ((ys : List Ptr) × IsClassPool w' ys (update_ptr used c true))
          × Untouched (x ∷ xs) c w w')
        (get_ls_class w)
unfolding get_ls_class
get_cached w used x xs pool =
    let nx : (x == null) ≡ false = ground (arith, pool.dll.not_null) in
    let start : w.mc.class_cache.first ≡ x = pool.dll.first in
    let new : used x ≡ false = ground (arith, pool.free x) in
    simp (start, nx)
      (Returns-in_heap _ w (lclass_remove w.mc.class_cache x w.heap) _
        (lclass_remove-first w.heap w.mc.class_cache x xs pool.dll)
        λ l g (d, only).
          rw (set_next-ok x g nx null, set_prev-ok x (with_next g x null) nx null)
            (
              new,
              (λ e. ground (arith, nx, e)),
              unlinked-cleared g x,
              (
                xs,
                record {
                  dll = unlinked-IsDll g l xs x pool.dll.distinct.0 d;
                  free = λ a u. used_free used x xs a pool.dll.distinct.0 (pool.free a) u;
                  cached = λ a i. pool.cached a (ground arith);
                  taken = λ a u.
                      used_taken used x w.mc.class_buffer_memory
                        (w.mc.class_buffer_memory + w.mc.class_buffer_counter * l1_line_sz) a
                        (pool.cached x (ground arith)) (pool.taken a) u;
                  mapped = pool.mapped;
                },
              ),
              record {
                store = refl;
                gopts = refl;
                time = refl;
                shared = refl;
                local = refl;
                memory = refl;
                counter = (omega arith, omega arith);
                stat = refl;
                others = λ a u ne. unlinked-outside g x a ne ∙ only.outside a (later x xs a u);
              },
            ))

get_fresh :
    (w : World) (used : Ptr → Bool)
    → IsClassPool w [] used
    → w.mc.class_buffer_counter < w.mc.gopts.class_buffer_size
    → Returns
        (λ c w'.
          (used c ≡ false)
          × (c ≢ null)
          × (reference_counter (w'.heap c) ≡ 0)
          × ((ys : List Ptr) × IsClassPool w' ys (update_ptr used c true))
          × Untouched [] c w w')
        (get_ls_class w)
unfolding get_ls_class fresh_ls_class set_chunk
get_fresh w used pool room =
    let m = w.mc.class_buffer_memory in
    let n = w.mc.class_buffer_counter in
    let c = m + n * 64 in
    let nc : (c == null) ≡ false = ground (arith, pool.mapped) in
    let start : w.mc.class_cache.first ≡ null = pool.dll.first in
    let room' : leb w.mc.gopts.class_buffer_size n ≡ false = ground arith in
    simp (start, room')
      (rw (set_next-ok c w.heap nc null, set_prev-ok c (with_next w.heap c null) nc null, nc)
        (
          fresh_unused used c m (m + n * 64) (omega arith) (pool.taken c),
          (λ e. ground (arith, nc, e)),
          cleared-counter w.heap c,
          (
            [],
            record {
              dll = record {
                first = pool.dll.first;
                last = pool.dll.last;
                linked = tt;
                distinct = tt;
                not_null = refl;
              };
              free = λ a u. refl;
              cached = λ a i. absurd (ground arith);
              taken = λ a u.
                  fresh_taken used c m (m + n * 64) (m + (n + 1) * 64) a (omega arith) (omega arith)
                    (omega arith) (pool.taken a) u;
              mapped = pool.mapped;
            },
          ),
          record {
            store = refl;
            gopts = refl;
            time = refl;
            shared = refl;
            local = refl;
            memory = refl;
            counter = (omega arith, omega arith);
            stat = refl;
            others = λ a u ne. cleared-outside w.heap c a ne;
          },
        ))

-- An empty pool whose buffer is used up ends the program.
pub get_ls_class-exit :
    (w : World) (used : Ptr → Bool)
    → IsClassPool w [] used
    → w.mc.gopts.class_buffer_size ≤ w.mc.class_buffer_counter
    → get_ls_class w ≡ failed exit_failure
unfolding get_ls_class fresh_ls_class
get_ls_class-exit w used pool full =
    let start : w.mc.class_cache.first ≡ null = pool.dll.first in
    let full' : leb w.mc.gopts.class_buffer_size w.mc.class_buffer_counter ≡ true = ground arith in
    simp (start, full')

-- A class that is in use and has the reference counter 0 goes back: it is then cached, and the pool of
-- nodes is the same.
pub recycle_ls_class-IsPool :
    (w : World) (used : Ptr → Bool) (xs : List Ptr) (c : Ptr)
    → IsClassPool w xs used
    → used c ≡ true
    → reference_counter (w.heap c) ≡ 0
    → Returns
        (λ _ w'.
          IsClassPool w' (c ∷ xs) (update_ptr used c false) × Untouched xs c w w' × SameNodes w w')
        (recycle_ls_class c w)
unfolding recycle_ls_class
recycle_ls_class-IsPool w used xs c pool u zero_count =
    let nc : (c == null) ≡ false = ground (arith, pool.taken c u, pool.mapped) in
    rw (load-ok c w.heap nc) (
      simp zero_count (
        Returns-in_heap _ w (lclass_insert_beginning w.mc.class_cache c w.heap) _
          (lclass_insert_beginning-cons w.heap w.mc.class_cache xs c pool.dll nc (pool.free c u))
          λ l g (d, only). (
            record {
              dll = d;
              free = λ a v. recycled_free used c xs a (pool.free a) v;
              cached = λ a i.
                  recycled_range c xs a w.mc.class_buffer_memory
                    (w.mc.class_buffer_memory + w.mc.class_buffer_counter * l1_line_sz)
                    (pool.taken c u) (pool.cached a) i;
              taken = λ a v. pool.taken a (still_used used c a v);
              mapped = pool.mapped;
            },
            record {
              store = refl;
              gopts = refl;
              time = refl;
              shared = refl;
              local = refl;
              memory = refl;
              counter = (omega arith, omega arith);
              stat = refl;
              others = λ a v ne. only.outside a (new_or_old c xs a ne v);
            },
            record { cache = refl; memory = refl; counter = refl },
          )))

-- `get_ls_class` succeeds while the pool has a recycled class or room in its buffer. It hands out a
-- class that is not in use, not `NULL` and without references, the pool stays well-formed, and no class
-- changes but cached ones and the new one.
pub get_ls_class-IsPool :
    (w : World) (used : Ptr → Bool) (xs : List Ptr)
    → IsClassPool w xs used
    → (xs ≡ [] → w.mc.class_buffer_counter < w.mc.gopts.class_buffer_size)
    → Returns
        (λ c w'.
          (used c ≡ false)
          × (c ≢ null)
          × (reference_counter (w'.heap c) ≡ 0)
          × ((ys : List Ptr) × IsClassPool w' ys (update_ptr used c true))
          × Untouched xs c w w')
        (get_ls_class w)
get_ls_class-IsPool w used [] pool room = get_fresh w used pool (room refl)
get_ls_class-IsPool w used (x ∷ xs) pool room = get_cached w used x xs pool
