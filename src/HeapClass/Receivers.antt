-- ===== src/HeapClass/Receivers.antt =====
-- `share_with`, the loop of `share_LSClass` of src/acdc.c: a class comes into the shared heap class of
-- each receiving thread.
use acdc.Base.{
  ℕ, ◌+◌, ◌*◌, ◌≤◌, ◌<◌, Bool, true, false, List, [], ◌∷◌, ◌++◌, ◌==◌, ◌≡◌, refl, ◌∙◌, ap, arith,
  has, ◌∉◌, Distinct, length, some, get_elem?, get_elem?-set_other, set, Bool-cases, inl, inr, ◌⊎◌,
}
use acdc.Types.{Ptr, null, LClass, lifetime, l1_line_sz}
use acdc.Store.{update_ptr}
use acdc.LifetimeClass.Queue.{IsQueue, IsQueue-frame}
use acdc.Mutator.{World}
use acdc.Mutator.Pools.{SameClasses}
use acdc.Mutator.NodePool.{IsNodePool, next_node}
use acdc.HeapClass.{slots, insert_index}
use acdc.HeapClass.Insert.{Inserted, AreTaken}

-- The end of the buffer of nodes.
abbrev pub buffer_end : World → Ptr
buffer_end w = w.mc.node_buffer_memory + w.mc.gopts.node_buffer_size * l1_line_sz

-- No node that the thread can still take: it is not cached and not in the rest of the buffer.
abbrev pub IsOutside : World → List Ptr → Ptr → Type 0
IsOutside w xs a = (a ∉ xs) × ((a < next_node w) ⊎ (buffer_end w ≤ a))

-- In the shared heap class of thread `t` the slot `i` holds the nodes `ns`, no node that this thread can
-- take and not the class `c`.
pub record IsReceiver (w : World) (xs : List Ptr) (c : Ptr) (i t : ℕ) (array : List LClass)
    (ns : List Ptr) : Type 0 where
  pub target : LClass
  pub at_thread : get_elem? w.shared_heap_classes t ≡ some array
  pub at_slot : get_elem? array i ≡ some target
  pub queue : IsQueue w.heap target ns
  pub outside : (a : Ptr) → has a ns ≡ true → IsOutside w xs a
  pub no_class : c ∉ ns

-- What the thread needs to share the class `c` with the threads `ts`: a node for each, and the slots,
-- in which different threads have different nodes.
pub record CanShare (w : World) (used : Ptr → Bool) (xs : List Ptr) (c : Ptr) (i : ℕ)
    (arrays : ℕ → List LClass) (lists : ℕ → List Ptr) (ts : List ℕ) : Type 0 where
  pub pool : IsNodePool w xs used
  pub room : w.mc.node_buffer_counter + length ts ≤ w.mc.gopts.node_buffer_size
  pub some_class : (c == null) ≡ false
  pub class : IsOutside w xs c
  pub some_slot : 0 < slots w.mc.gopts
  pub slot : insert_index w.mc.gopts w.mc.time (lifetime (w.heap c)) ≡ i
  pub distinct : Distinct ts
  pub receivers : (t : ℕ) → has t ts ≡ true → IsReceiver w xs c i t (arrays t) (lists t)
  pub apart : (s t : ℕ) (a : Ptr) → has a (lists s) ≡ true → (s == t) ≡ false → a ∉ lists t

-- The class has come to the end of the slot of each of the threads `ts`, in a node of its own. The pool
-- of nodes is well-formed, the other heap classes are the same, and no other node or class changes.
pub record Delivered (w : World) (used : Ptr → Bool) (xs : List Ptr) (c : Ptr) (i : ℕ)
    (arrays : ℕ → List LClass) (lists : ℕ → List Ptr) (ts : List ℕ) (w' : World) : Type 0 where
  pub node : ℕ → Ptr
  pub target : ℕ → LClass
  pub at_thread :
      (t : ℕ)
      → has t ts ≡ true
      → get_elem? w'.shared_heap_classes t ≡ some (set (arrays t) i (target t))
  pub queue : (t : ℕ) → has t ts ≡ true → IsQueue w'.heap (target t) (lists t ++ node t ∷ [])
  pub points : (t : ℕ) → has t ts ≡ true → (w'.heap (node t)).ls_class ≡ c
  pub same_class : (a : Ptr) → IsOutside w xs a → (w'.heap a).ls_class ≡ (w.heap a).ls_class
  pub others :
      (a : Ptr)
      → IsOutside w xs a
      → ((t : ℕ) → has t ts ≡ true → a ∉ lists t)
      → w'.heap a ≡ w.heap a
  pub other_threads :
      (t : ℕ) → t ∉ ts → get_elem? w'.shared_heap_classes t ≡ get_elem? w.shared_heap_classes t
  pub used' : Ptr → Bool
  pub cache : List Ptr
  pub pool : IsNodePool w' cache used'
  pub still_used : (a : Ptr) → used a ≡ true → used' a ≡ true
  pub classes : SameClasses w w'
  pub local : w'.mc.heap_class ≡ w.mc.heap_class
  pub store : w'.store ≡ w.store
  pub gopts : w'.mc.gopts ≡ w.mc.gopts
  pub time : w'.mc.time ≡ w.mc.time
  pub stat : w'.mc.stat ≡ w.mc.stat

pub outside-AreTaken :
    (w : World) (xs ns : List Ptr)
    → w.mc.node_buffer_counter < w.mc.gopts.node_buffer_size
    → ((a : Ptr) → has a ns ≡ true → IsOutside w xs a)
    → AreTaken w xs ns
outside-AreTaken w xs ns room out a i = ((out a i).0, not_next (out a i).1)
  where
    not_next : (a < next_node w) ⊎ (buffer_end w ≤ a) → (a == next_node w) ≡ false
    not_next (inl before) = ground arith
    not_next (inr behind) = ground arith

-- The state after the first of the insertions.
module _ (w : World) (used : Ptr → Bool) (xs : List Ptr) (c : Ptr) (i : ℕ)
    (arrays : ℕ → List LClass) (lists : ℕ → List Ptr) (t : ℕ) (ts : List ℕ)
    (can : CanShare w used xs c i arrays lists (t ∷ ts)) (hc : List LClass) (w₁ : World)
    (ins : Inserted (arrays t) i xs (lists t) c used w hc w₁) where
  abbrev pub next_world : World
  next_world = record w₁ { shared_heap_classes = set w₁.shared_heap_classes t hc }

  room_now : w.mc.node_buffer_counter < w.mc.gopts.node_buffer_size
  room_now = omega (arith, can.room)

  -- What this thread cannot take is not the new node.
  pub not_new : (a : Ptr) → IsOutside w xs a → (a == ins.node) ≡ false
  not_new a (out, beyond) = elim ins.from.origin [
    | inl cached ↦ elim (Bool-cases (a == ins.node)) [
      | inr apart ↦ apart
      | inl same ↦
          let e : a ≡ ins.node = ground arith in
          absurd (ground (arith, out, ap (λ b. has b xs) e, cached))
    ]
    | inr fresh ↦ elim beyond [
      | inl before ↦ ground (arith, fresh)
      | inr behind ↦ let r = room_now in ground (arith, fresh, r)
    ]
  ]

  same_end : buffer_end w₁ ≡ buffer_end w
  same_end = rw (ins.memory, ins.gopts) refl

  later_next : next_node w ≤ next_node w₁
  later_next = omega (arith, ins.memory, ins.counter)

  pub still-IsOutside : (a : Ptr) → IsOutside w xs a → IsOutside next_world ins.cache a
  still-IsOutside a (out, beyond) = (
    ground (arith, ins.from.rest a),
    elim beyond [
      | inl before ↦ inl (omega (arith, later_next))
      | inr behind ↦ inr (omega (arith, same_end))
    ],
  )

  pub unchanged : (a : Ptr) → IsOutside w xs a → a ∉ lists t → w₁.heap a ≡ w.heap a
  unchanged a o absent = ins.others a o.0 (let ne = not_new a o in ground arith)

  c_same : w₁.heap c ≡ w.heap c
  c_same = unchanged c can.class (can.receivers t (ground arith)).no_class

  pub node-IsOutside : IsOutside next_world ins.cache ins.node
  node-IsOutside =
      let u : update_ptr used ins.node true ins.node ≡ true = ground arith in
      (ins.pool.free ins.node u, inl (ins.pool.taken ins.node u).1)

  other_thread : (s : ℕ) → has s ts ≡ true → (s == t) ≡ false
  other_thread s h = let out = can.distinct.0 in ground arith

  still-IsReceiver :
      (s : ℕ) → has s ts ≡ true → IsReceiver next_world ins.cache c i s (arrays s) (lists s)
  still-IsReceiver s h =
      let r = can.receivers s (ground arith) in
      let ne = other_thread s h in
      record {
        target = r.target;
        at_thread =
            get_elem?-set_other w₁.shared_heap_classes t s hc ne
            ∙ ap (λ l. get_elem? l s) ins.shared
            ∙ r.at_thread;
        at_slot = r.at_slot;
        queue =
            IsQueue-frame w.heap w₁.heap r.target (lists s) r.queue
              λ a j. unchanged a (r.outside a j) (can.apart s t a j ne);
        outside = λ a j. still-IsOutside a (r.outside a j);
        no_class = r.no_class;
      }

  pub CanShare-rest :
      CanShare next_world (update_ptr used ins.node true) ins.cache c i arrays lists ts
  CanShare-rest = record {
    pool = ins.pool;
    room =
        let sizes = ap (λ (g : _). g.node_buffer_size) ins.gopts in
        omega (arith, can.room, ins.counter, sizes);
    some_class = can.some_class;
    class = still-IsOutside c can.class;
    some_slot = omega (arith, can.some_slot, ap slots ins.gopts);
    slot = rw (ins.gopts, ins.time, c_same) can.slot;
    distinct = can.distinct.1;
    receivers = still-IsReceiver;
    apart = can.apart;
  }
