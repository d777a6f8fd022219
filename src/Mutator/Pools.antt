-- ===== src/Mutator/Pools.antt =====
-- What the pools of classes and of nodes have in common.
use acdc.Base.{
  ◌⊎◌, ℕ, ◌+◌, ◌*◌, ◌≤◌, ◌<◌, Bool, true, false, List, ◌∷◌, ◌==◌, ◌≡◌, ap, arith, has, ◌∉◌,
}
use acdc.Base.Run.{Returns, Cmd, Outcome, ok, failed, and_then}
use acdc.Types.{reference_counter, Ptr, null, Chunk, Heap, write, LClass, MContext, l1_line_sz}
use acdc.Store.{update_ptr}
use acdc.LifetimeClass.{with_prev, with_next}
use acdc.LifetimeClass.Linked.{IsDll, IsDll-frame, Linked-frame}
use acdc.Mutator.{World, context_back, heap_back}

pub Returns-in_heap :
    {A B : Type 0} {P : A → Heap → Type 0} (Q : B → World → Type 0) (w : World) (r : Outcome Heap A)
    (k : A → Cmd World B)
    → Returns P r
    → ((a : A) (h : Heap) → P a h → Returns Q (k a (record w { heap = h })))
    → Returns Q (and_then (heap_back w r) k)
Returns-in_heap Q w (ok a h) k p next = next a h p
Returns-in_heap Q w (failed e) k p next = absurd p

pub Returns-in_context :
    {A B : Type 0} {P : A → MContext → Type 0} (Q : B → World → Type 0) (w : World)
    (r : Outcome MContext A) (k : A → Cmd World B)
    → Returns P r
    → ((a : A) (mc : MContext) → P a mc → Returns Q (k a (record w { mc = mc })))
    → Returns Q (and_then (context_back w r) k)
Returns-in_context Q w (ok a mc) k p next = next a mc p
Returns-in_context Q w (failed e) k p next = absurd p

-- The heap after both links of a node are cleared.
abbrev pub unlinked : Heap → Ptr → Heap
unlinked h c = with_prev (with_next h c null) c null

pub unlinked-outside : (h : Heap) (c a : Ptr) → (a == c) ≡ false → unlinked h c a ≡ h a
unfolding with_prev with_next write
unlinked-outside h c a ne = simp ne

pub unlinked-cleared : (h : Heap) (c : Ptr) → reference_counter (unlinked h c c) ≡ 0
unfolding with_prev with_next write
unlinked-cleared h c = ground arith

pub other : (c a : Ptr) (xs : List Ptr) → c ∉ xs → has a xs ≡ true → (a == c) ≡ false
other c a xs out i = ground arith

pub unlinked-IsDll :
    (h : Heap) (l : LClass) (xs : List Ptr) (c : Ptr)
    → c ∉ xs
    → IsDll h l xs
    → IsDll (unlinked h c) l xs
unlinked-IsDll h l xs c out dll = record {
  first = dll.first;
  last = dll.last;
  linked = Linked-frame h (unlinked h c) null xs null dll.linked λ a i.
      let ne : (a == c) ≡ false = other c a xs out i in
      let e = unlinked-outside h c a ne in
      (ap (λ (k : Chunk). k.prev) e, ap (λ (k : Chunk). k.next) e);
  distinct = dll.distinct;
  not_null = dll.not_null;
}

-- A cache `xs` of free items in a buffer of which `counter` items have been taken, and the items that
-- are in use.
pub record IsPool (h : Heap) (cache : LClass) (memory counter : ℕ) (xs : List Ptr)
    (used : Ptr → Bool) : Type 0 where
  pub dll : IsDll h cache xs
  pub free : (a : Ptr) → used a ≡ true → a ∉ xs
  pub cached : (a : Ptr) → has a xs ≡ true → (memory ≤ a) × (a < memory + counter * l1_line_sz)
  pub taken : (a : Ptr) → used a ≡ true → (memory ≤ a) × (a < memory + counter * l1_line_sz)
  pub mapped : 0 < memory

-- What an operation on a pool leaves of the rest of the state: the objects, the options, the time, the
-- statistics, the heap classes, and every node and class that is neither cached nor `c`. It takes at most
-- one node of the buffer.
pub record Untouched (xs : List Ptr) (c : Ptr) (w w' : World) : Type 0 where
  pub store : w'.store ≡ w.store
  pub gopts : w'.mc.gopts ≡ w.mc.gopts
  pub time : w'.mc.time ≡ w.mc.time
  pub shared : w'.shared_heap_classes ≡ w.shared_heap_classes
  pub local : w'.mc.heap_class ≡ w.mc.heap_class
  pub memory : w'.mc.node_buffer_memory ≡ w.mc.node_buffer_memory
  pub counter :
      (w.mc.node_buffer_counter ≤ w'.mc.node_buffer_counter)
      × (w'.mc.node_buffer_counter ≤ w.mc.node_buffer_counter + 1)
  pub stat : w'.mc.stat ≡ w.mc.stat
  pub others : (a : Ptr) → a ∉ xs → (a == c) ≡ false → w'.heap a ≡ w.heap a

-- The pool of nodes is the same, but for links of its nodes.
pub record SameNodes (w w' : World) : Type 0 where
  pub cache : w'.mc.node_cache ≡ w.mc.node_cache
  pub memory : w'.mc.node_buffer_memory ≡ w.mc.node_buffer_memory
  pub counter : w'.mc.node_buffer_counter ≡ w.mc.node_buffer_counter

-- The pool of classes is the same, but for links of its classes.
pub record SameClasses (w w' : World) : Type 0 where
  pub cache : w'.mc.class_cache ≡ w.mc.class_cache
  pub memory : w'.mc.class_buffer_memory ≡ w.mc.class_buffer_memory
  pub counter : w'.mc.class_buffer_counter ≡ w.mc.class_buffer_counter

-- An item `c` is taken from the cached ones `xs`, of which all others, `ys`, are left, or is the next
-- of the buffer.
pub record TakenFrom (xs ys : List Ptr) (next c : Ptr) : Type 0 where
  pub rest : (a : Ptr) → has a ys ≡ true → has a xs ≡ true
  pub kept : (a : Ptr) → has a xs ≡ true → (a == c) ≡ false → has a ys ≡ true
  pub origin : (has c xs ≡ true) ⊎ (c ≡ next)

pub IsPool-frame :
    (h g : Heap) (cache : LClass) (memory counter : ℕ) (xs : List Ptr) (used : Ptr → Bool)
    → IsPool h cache memory counter xs used
    → ((a : Ptr) → has a xs ≡ true → g a ≡ h a)
    → IsPool g cache memory counter xs used
IsPool-frame h g cache memory counter xs used pool same = record {
  dll = IsDll-frame h g cache xs pool.dll same;
  free = pool.free;
  cached = pool.cached;
  taken = pool.taken;
  mapped = pool.mapped;
}

pub used_free :
    (used : Ptr → Bool) (x : Ptr) (xs : List Ptr) (a : Ptr)
    → x ∉ xs
    → (used a ≡ true → a ∉ (x ∷ xs))
    → update_ptr used x true a ≡ true
    → a ∉ xs
used_free used x xs a out free u = ground (arith, free)

pub used_taken :
    (used : Ptr → Bool) (x low high a : ℕ)
    → (low ≤ x) × (x < high)
    → (used a ≡ true → (low ≤ a) × (a < high))
    → update_ptr used x true a ≡ true
    → (low ≤ a) × (a < high)
used_taken used x low high a inside taken u = ground (arith, taken)

pub later : (x : Ptr) (xs : List Ptr) (a : Ptr) → a ∉ (x ∷ xs) → a ∉ xs
later x xs a out = ground arith

pub fresh_unused :
    (used : Ptr → Bool) (c low high : ℕ)
    → high ≤ c
    → (used c ≡ true → (low ≤ c) × (c < high))
    → used c ≡ false
fresh_unused used c low high h taken = ground (arith, taken)

pub fresh_taken :
    (used : Ptr → Bool) (c low high high' a : ℕ)
    → low ≤ c
    → c < high'
    → high ≤ high'
    → (used a ≡ true → (low ≤ a) × (a < high))
    → update_ptr used c true a ≡ true
    → (low ≤ a) × (a < high')
fresh_taken used c low high high' a h₁ h₂ h₃ taken u = ground (arith, taken)

pub cleared-counter :
    (h : Heap) (c : Ptr)
    → reference_counter (write (unlinked h c) c (record (unlinked h c c) { ls_class = null }) c) ≡ 0
unfolding write with_next with_prev
cleared-counter h c = ground arith

pub cleared-outside :
    (h : Heap) (c a : Ptr)
    → (a == c) ≡ false
    → write (unlinked h c) c (record (unlinked h c c) { ls_class = null }) a ≡ h a
unfolding write with_next with_prev
cleared-outside h c a ne = simp ne

pub recycled_free :
    (used : Ptr → Bool) (c : Ptr) (xs : List Ptr) (a : Ptr)
    → (used a ≡ true → a ∉ xs)
    → update_ptr used c false a ≡ true
    → a ∉ (c ∷ xs)
recycled_free used c xs a free u = ground (arith, free)

pub recycled_range :
    (c : Ptr) (xs : List Ptr) (a low high : ℕ)
    → (low ≤ c) × (c < high)
    → (has a xs ≡ true → (low ≤ a) × (a < high))
    → has a (c ∷ xs) ≡ true
    → (low ≤ a) × (a < high)
recycled_range c xs a low high inside cached i = ground (arith, cached)

pub still_used : (used : Ptr → Bool) (c a : Ptr) → update_ptr used c false a ≡ true → used a ≡ true
still_used used c a u = ground arith

pub new_or_old : (c : Ptr) (xs : List Ptr) (a : Ptr) → (a == c) ≡ false → a ∉ xs → a ∉ (c ∷ xs)
new_or_old c xs a ne out = ground arith
