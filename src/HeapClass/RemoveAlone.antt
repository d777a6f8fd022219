-- ===== src/HeapClass/RemoveAlone.antt =====
-- `heap_class_remove` of src/acdc.c when no other thread refers to the classes that expire.
use acdc.Base.{
  ℕ, suc, zero, ◌<◌, Bool, true, false, List, [], ◌∷◌, ◌==◌, ◌≡◌, refl, sym, ◌∙◌, ap, subst, arith,
  some, get_elem?, set, length,
}
use acdc.Base.Int.{pos_part}
use acdc.Base.Run.{Returns, Returns-bind, Returns-mono}
use acdc.Types.{Chunk, Ptr, null, GOptions, LClass, empty_class, reference_counter}
use acdc.Store.{update_ptr}
use acdc.LifetimeClass.Linked.{write-outside, write-here, head_or}
use acdc.LifetimeClass.Stores.{load-ok}
use acdc.Mutator.{World, recycle_lsc_node}
use acdc.Mutator.Pools.{IsPool-frame}
use acdc.Mutator.NodePool.{IsNodePool, recycle_lsc_node-IsPool}
use acdc.Mutator.ClassPool.{IsClassPool}
use acdc.Classes.{deallocate_ls_class}
use acdc.Classes.Release.{deallocate_ls_class-Deallocated}
use acdc.HeapClass.{slots, delete_index, class_at, node_fuel, expire_nodes, heap_class_remove}
use acdc.HeapClass.Counting.{with_counter, unreference-alone}
use acdc.HeapClass.Expiry.{differ_from}
use acdc.HeapClass.Owned.{AreSeparate, IsAlone, IsOwner-counter}
use acdc.HeapClass.Departure.{Departed, departed, node_kept, node_pool₂}
use acdc.HeapClass.Emptying.{Emptied}
use acdc.HeapClass.Leaving.{Leaving, Leaving-round, Emptied-round}

-- One round of the loop, and what follows it.
expire_one :
    (Q : Unit {0} → World → Type 0) (f : ℕ) (w : World) (nodes : Ptr → Bool) (xs : List Ptr)
    (classes : Ptr → Bool) (ys : List Ptr) (n c : Ptr) (ns bs : List Ptr)
    → IsNodePool w xs nodes
    → IsClassPool w ys classes
    → AreSeparate nodes xs classes ys
    → (w.heap n).next ≡ head_or null ns
    → (w.heap n).ls_class ≡ c
    → nodes n ≡ true
    → IsAlone w.mc.gopts w.heap w.store classes bs c
    → ((w' : World)
        → Departed nodes xs classes ys n c bs w w'
        → Returns Q (expire_nodes f (head_or null ns) w'))
    → Returns Q (expire_nodes (suc f) n w)
unfolding expire_nodes
expire_one Q f w nodes xs classes ys n c ns bs np cp sep next class un alone rest =
    let nn : (n == null) ≡ false = ground (arith, np.taken n un, np.mapped) in
    let nc : (c == null) ≡ false = ground (arith, cp.taken c alone.taken, cp.mapped) in
    let w₁ = with_counter w c 0 in
    let cp₁ : IsClassPool w₁ ys classes =
      IsPool-frame w.heap w₁.heap w.mc.class_cache w.mc.class_buffer_memory
        w.mc.class_buffer_counter ys classes cp
        λ a i. write-outside w.heap c _ a (differ_from a c ys (cp.free c alone.taken) i).0 in
    let none_left : reference_counter (w₁.heap c) ≡ 0 =
      ap reference_counter (write-here w.heap c (record (w.heap c) { prev = 0 })) in
    rw (nn, load-ok n w.heap nn, class, unreference-alone w c nc alone.one_reference)
      (Returns-bind _ (deallocate_ls_class c w₁) _
        (deallocate_ls_class-Deallocated classes ys bs c w₁ cp₁ alone.taken none_left
          (IsOwner-counter w.mc.gopts w.store bs w.heap c 0 alone.owner))
        λ _ w₂ d.
          let kept = node_kept nodes xs classes ys sep n c bs w w₂ un alone.taken np d in
          let next₂ : (w₂.heap n).next ≡ head_or null ns = ap (λ (k : Chunk). k.next) kept ∙ next in
          rw (load-ok n w₂.heap nn, next₂)
            (Returns-bind _ (recycle_lsc_node n w₂) _
              (recycle_lsc_node-IsPool w₂ nodes xs n
                (node_pool₂ nodes xs classes ys sep n c bs w w₂ un alone.taken np d) un)
              λ _ w₃ (np₃, kept₃, same). rest w₃ (
                departed nodes xs classes ys sep n c bs w w₂ un alone.taken np d w₃ np₃ kept₃
                  same)))

expire_nodes-Emptied :
    (g : GOptions) (blocks : Ptr → List Ptr) (f : ℕ) (w : World) (nodes : Ptr → Bool)
    (xs : List Ptr) (classes : Ptr → Bool) (ys ns cs : List Ptr)
    → Leaving g blocks nodes xs classes ys ns cs w
    → length ns < f
    → Returns
        (λ _ w'. Emptied nodes xs classes ys ns cs blocks w w')
        (expire_nodes f (head_or null ns) w)
unfolding expire_nodes
expire_nodes-Emptied g blocks zero w nodes xs classes ys ns cs h lt = absurd (omega arith)
expire_nodes-Emptied g blocks (suc f) w nodes xs classes ys [] [] h lt = record {
  node_cache = xs;
  node_pool = h.node_pool;
  nodes_back = λ a. refl;
  class_cache = ys;
  classes_back = λ a. refl;
  class_pool = h.class_pool;
  freed = record { live = λ a. refl; word0 = refl; word1 = refl; bytes = refl; supply = refl };
  bytes = omega arith;
  objects = omega arith;
  others = λ a _ _ _ _. refl;
}
expire_nodes-Emptied g blocks (suc f) w nodes xs classes ys [] (c ∷ cs) h lt = absurd h.listed
expire_nodes-Emptied g blocks (suc f) w nodes xs classes ys (n ∷ ns) [] h lt = absurd h.listed
expire_nodes-Emptied g blocks (suc f) w nodes xs classes ys (n ∷ ns) (c ∷ cs) h lt =
    expire_one _ f w nodes xs classes ys n c ns (blocks c) h.node_pool h.class_pool h.separate
      h.listed.0 h.listed.1 (h.taken n (ground arith))
      (subst (λ o. IsAlone o w.heap w.store classes (blocks c) c) (sym h.gopts)
        (h.alone c (ground arith)))
      λ w₃ r.
        Returns-mono _ (expire_nodes f (head_or null ns) w₃)
          (expire_nodes-Emptied g blocks f w₃ (update_ptr nodes n false) (n ∷ xs)
            (update_ptr classes c false) (c ∷ ys) ns cs
            (Leaving-round g blocks nodes xs classes ys n c ns cs w h w₃ r) (omega arith))
          λ _ w₄ e. Emptied-round g blocks nodes xs classes ys n c ns cs w h w₃ r w₄ e

-- When this thread alone refers to every class of the expired lifetime-class, `heap_class_remove` ends:
-- it empties the slot of the delayed clock, gives all nodes and classes back to their pools, which stay
-- well-formed and cache exactly them and what they cached before, frees exactly the blocks of these
-- classes, and counts their bytes and objects as deallocated. The classes may have different types, but
-- not those for false sharing.
pub heap_class_remove-Emptied :
    (w : World) (nodes : Ptr → Bool) (xs : List Ptr) (classes : Ptr → Bool) (ys ns cs : List Ptr)
    (blocks : Ptr → List Ptr) (hc : List LClass) (expired : LClass)
    → 0 < slots w.mc.gopts
    → get_elem? hc (pos_part (delete_index w.mc.gopts w.mc.time)) ≡ some expired
    → expired.first ≡ head_or null ns
    → Leaving w.mc.gopts blocks nodes xs classes ys ns cs w
    → length ns < node_fuel w.mc.gopts
    → Returns
        (λ hc' w'.
          (hc' ≡ set hc (pos_part (delete_index w.mc.gopts w.mc.time)) empty_class)
          × Emptied nodes xs classes ys ns cs blocks w w')
        (heap_class_remove hc w)
unfolding heap_class_remove class_at
heap_class_remove-Emptied w nodes xs classes ys ns cs blocks hc expired some_slot at start h lt =
    let slots_left : (slots w.mc.gopts == 0) ≡ false = ground arith in
    rw (slots_left, at, start)
      (Returns-bind _ (expire_nodes (node_fuel w.mc.gopts) (head_or null ns) w) _
        (expire_nodes-Emptied w.mc.gopts blocks (node_fuel w.mc.gopts) w nodes xs classes ys ns cs h
          lt)
        λ _ w' e. (refl, e))
