-- ===== src/HeapClass/Insert.antt =====
-- `heap_class_insert` of src/acdc.c on well-formed pools and lists.
use acdc.Base.{
  Bool-cases, inl, inr, ℕ, ◌+◌, ◌≤◌, ◌<◌, Bool, true, false, List, [], ◌∷◌, ◌++◌, ◌==◌, ◌≡◌, refl,
  ◌∙◌, ap, arith, has, ◌∉◌, some, get_elem?, set,
}
use acdc.Base.Run.{Returns, Returns-bind}
use acdc.Types.{Ptr, null, Chunk, Heap, write, LClass, lifetime}
use acdc.Store.{update_ptr}
use acdc.LifetimeClass.{lclass_insert_end}
use acdc.LifetimeClass.Linked.{write-outside, write-here, OnlyLinks}
use acdc.LifetimeClass.Queue.{IsQueue, IsQueue-frame, lclass_insert_end-IsQueue}
use acdc.LifetimeClass.Stores.{load-ok}
use acdc.Mutator.{World, set_chunk, get_lsc_node}
use acdc.Mutator.Pools.{Returns-in_heap, SameClasses, TakenFrom, IsPool-frame}
use acdc.Mutator.NodePool.{IsNodePool, next_node, get_lsc_node-IsPool}
use acdc.HeapClass.{slots, insert_index, class_at, heap_class_insert}

-- The nodes `ns` are neither cached nor the next of the buffer.
abbrev pub AreTaken : World → List Ptr → List Ptr → Type 0
AreTaken w xs ns = (a : Ptr) → has a ns ≡ true → (a ∉ xs) × ((a == next_node w) ≡ false)

new-out :
    (w : World) (xs ys ns : List Ptr) (n : Ptr)
    → AreTaken w xs ns
    → TakenFrom xs ys (next_node w) n
    → n ∉ ns
new-out w xs ys ns n taken from = elim (Bool-cases (has n ns)) [
  | inr outside ↦ outside
  | inl inside ↦ elim from.origin [
    | inl cached ↦ absurd (ground (arith, taken n inside))
    | inr fresh ↦ let t = taken n inside in absurd (ground (arith, t, fresh))
  ]
]

member_apart : (a n : Ptr) (ns : List Ptr) → has a ns ≡ true → n ∉ ns → (a == n) ≡ false
member_apart a n ns i o = ground arith

-- After the insertion the list of the slot ends in a new node that points to the class. The pool of
-- nodes is well-formed with the new node in use, and of the nodes and classes only cached nodes, the new
-- one and those of the list have changed.
pub record Inserted (hc : List LClass) (index : ℕ) (xs ns : List Ptr) (c : Ptr) (used : Ptr → Bool)
    (w : World) (hc' : List LClass) (w' : World) : Type 0 where
  pub node : Ptr
  pub target : LClass
  pub array : hc' ≡ set hc index target
  pub list : IsQueue w'.heap target (ns ++ node ∷ [])
  pub class : (w'.heap node).ls_class ≡ c
  pub new : used node ≡ false
  pub store : w'.store ≡ w.store
  pub cache : List Ptr
  pub from : TakenFrom xs cache (next_node w) node
  pub pool : IsNodePool w' cache (update_ptr used node true)
  pub classes : SameClasses w w'
  pub gopts : w'.mc.gopts ≡ w.mc.gopts
  pub time : w'.mc.time ≡ w.mc.time
  pub stat : w'.mc.stat ≡ w.mc.stat
  pub shared : w'.shared_heap_classes ≡ w.shared_heap_classes
  pub local : w'.mc.heap_class ≡ w.mc.heap_class
  pub memory : w'.mc.node_buffer_memory ≡ w.mc.node_buffer_memory
  pub counter :
      (w.mc.node_buffer_counter ≤ w'.mc.node_buffer_counter)
      × (w'.mc.node_buffer_counter ≤ w.mc.node_buffer_counter + 1)
  pub same_class :
      (a : Ptr) → a ∉ xs → (a == node) ≡ false → (w'.heap a).ls_class ≡ (w.heap a).ls_class
  pub others : (a : Ptr) → a ∉ xs → a ∉ (node ∷ ns) → w'.heap a ≡ w.heap a

cached_out :
    (w : World) (xs ys ns : List Ptr) (n a : Ptr)
    → AreTaken w xs ns
    → TakenFrom xs ys (next_node w) n
    → n ∉ ys
    → has a ys ≡ true
    → a ∉ (n ∷ ns)
cached_out w xs ys ns n a taken from out i =
    let old = from.rest a i in
    let ne : (a == n) ≡ false = member_apart a n ys i out in
    elim (Bool-cases (has a ns)) [
      | inr outside ↦ ground arith
      | inl inside ↦ absurd (ground (arith, taken a inside))
    ]

new_used : (used : Ptr → Bool) (n : Ptr) → update_ptr used n true n ≡ true
new_used used n = ground arith

first_out : (a n : Ptr) (ns : List Ptr) → a ∉ (n ∷ ns) → (a == n) ≡ false
first_out a n ns out = ground arith

-- The insertion of a class into a heap class with its slot in range succeeds while the node pool has a
-- node: the class is appended to the list of the slot that its lifetime and the clock determine, the
-- pool of nodes stays well-formed, and no object and no other node or class changes but cached nodes and
-- those of the list.
pub heap_class_insert-Inserted :
    (w : World) (used : Ptr → Bool) (xs : List Ptr) (hc : List LClass) (c : Ptr) (target : LClass)
    (ns : List Ptr)
    → IsNodePool w xs used
    → (xs ≡ [] → w.mc.node_buffer_counter < w.mc.gopts.node_buffer_size)
    → (c == null) ≡ false
    → 0 < slots w.mc.gopts
    → get_elem? hc (insert_index w.mc.gopts w.mc.time (lifetime (w.heap c))) ≡ some target
    → IsQueue w.heap target ns
    → AreTaken w xs ns
    → Returns
        (λ hc' w'.
          Inserted hc
            (insert_index w.mc.gopts w.mc.time (lifetime (w.heap c)))
            xs
            ns
            c
            used
            w
            hc'
            w')
        (heap_class_insert hc c w)
unfolding heap_class_insert class_at set_chunk
heap_class_insert-Inserted w used xs hc c target ns pool room nc some_slot at q taken =
    let index = insert_index w.mc.gopts w.mc.time (lifetime (w.heap c)) in
    let slots_left : (slots w.mc.gopts == 0) ≡ false = ground arith in
    rw (load-ok c w.heap nc, slots_left)
      (Returns-bind _ (get_lsc_node w) _ (get_lsc_node-IsPool w used xs pool room)
        λ n w₁ (un, nn, (ys, pool₁, from), rest, same).
          let nz : (n == null) ≡ false = ground (arith, nn) in
          let out = new-out w xs ys ns n taken from in
          let n_out = pool₁.free n (new_used used n) in
          let k : Chunk = record (w₁.heap n) { ls_class = c } in
          let q₁ : IsQueue (write w₁.heap n k) target ns =
            IsQueue-frame w.heap (write w₁.heap n k) target ns q λ a i.
              let ne = member_apart a n ns i out in
              write-outside w₁.heap n k a ne ∙ rest.others a (taken a i).0 ne in
          let frame : (g : Heap)
              → OnlyLinks (n ∷ ns) (write w₁.heap n k) g
              → (a : Ptr) → a ∉ (n ∷ ns)
              → g a ≡ w₁.heap a =
            λ g only a o. only.outside a o ∙ write-outside w₁.heap n k a (first_out a n ns o) in
          rw (nz, at)
            (Returns-in_heap _ (record w₁ { heap = write w₁.heap n k })
              (lclass_insert_end target n (write w₁.heap n k)) _
              (lclass_insert_end-IsQueue (write w₁.heap n k) target ns n q₁ nz out)
              λ l g (d, only). record {
                node = n;
                target = l;
                array = refl;
                list = d;
                class = only.ls_class n ∙ ap (λ (x : Chunk). x.ls_class) (write-here w₁.heap n k);
                new = un;
                store = rest.store;
                cache = ys;
                from = record { rest = from.rest; kept = from.kept; origin = from.origin };
                pool =
                    IsPool-frame w₁.heap g w₁.mc.node_cache w₁.mc.node_buffer_memory
                      w₁.mc.node_buffer_counter ys (update_ptr used n true) pool₁
                      λ a i. frame g only a (cached_out w xs ys ns n a taken from n_out i);
                classes = record {
                  cache = same.cache;
                  memory = same.memory;
                  counter = same.counter;
                };
                gopts = rest.gopts;
                time = rest.time;
                stat = rest.stat;
                shared = rest.shared;
                local = rest.local;
                memory = rest.memory;
                counter = rest.counter;
                same_class = λ a ox ne.
                    only.ls_class a
                    ∙ ap (λ (x : Chunk). x.ls_class)
                        (write-outside w₁.heap n k a ne ∙ rest.others a ox ne);
                others = λ a ox o. frame g only a o ∙ rest.others a ox (first_out a n ns o);
              }))
