-- ===== src/HeapClass/Departure.antt =====
-- One round of the expiry of a lifetime-class when no other thread refers to its class
-- (`heap_class_remove` of src/acdc.c): the class and its objects are freed.
use acdc.Base.{
  inr, inl, Bool-cases, ◌+◌, ◌%◌, ◌^◌, Bool, true, false, List, ◌∷◌, ◌==◌, ◌≡◌, sym, ◌∙◌, ap, subst,
  arith, has, ◌∉◌, ◌||◌,
}
use acdc.Types.{Ptr, MStat}
use acdc.Store.{update_ptr}
use acdc.LifetimeClass.Linked.{write-outside, write-here}
use acdc.Mutator.{World}
use acdc.Mutator.Pools.{SameClasses, Untouched, IsPool-frame}
use acdc.Mutator.NodePool.{IsNodePool}
use acdc.Mutator.ClassPool.{IsClassPool}
use acdc.Objects.FreeTrees.{Freed}
use acdc.Classes.Release.{Deallocated}
use acdc.HeapClass.Counting.{with_counter}
use acdc.HeapClass.Expiry.{differ_by, flip}
use acdc.HeapClass.Owned.{AreSeparate, class_bytes, class_objects}

-- One round: the node `n` and its class `c` are cached, and the blocks of the class are freed.
pub record Departed (nodes : Ptr → Bool) (xs : List Ptr) (classes : Ptr → Bool) (ys : List Ptr)
    (n c : Ptr) (bs : List Ptr) (w w' : World) : Type 0 where
  pub node_pool : IsNodePool w' (n ∷ xs) (update_ptr nodes n false)
  pub class_pool : IsClassPool w' (c ∷ ys) (update_ptr classes c false)
  pub freed : Freed bs w.store w'.store
  pub gopts : w'.mc.gopts ≡ w.mc.gopts
  pub time : w'.mc.time ≡ w.mc.time
  pub bytes :
      w'.mc.stat.bytes_deallocated ≡ (w.mc.stat.bytes_deallocated + class_bytes (w.heap c)) % 2 ^ 64
  pub objects :
      w'.mc.stat.objects_deallocated
      ≡ (w.mc.stat.objects_deallocated + class_objects (w.heap c)) % 2 ^ 64
  pub others :
      (a : Ptr) → a ∉ xs → (a == n) ≡ false → a ∉ ys → (a == c) ≡ false → w'.heap a ≡ w.heap a

module _ (nodes : Ptr → Bool) (xs : List Ptr) (classes : Ptr → Bool) (ys : List Ptr)
    (separate : AreSeparate nodes xs classes ys) where
  pub node_apart : (a : Ptr) → nodes a ≡ true → (classes a ≡ false) × (a ∉ ys)
  node_apart a u = (ground (arith, separate a), ground (arith, separate a))

  cached_apart : (a : Ptr) → has a xs ≡ true → (classes a ≡ false) × (a ∉ ys)
  cached_apart a i = (ground (arith, separate a), ground (arith, separate a))

  pub class_apart : (a : Ptr) → classes a ≡ true → (nodes a ≡ false) × (a ∉ xs)
  class_apart a u = (ground (arith, separate a), ground (arith, separate a))

  in_classes :
      (c a : Ptr) → classes c ≡ true → has a (c ∷ ys) ≡ true → (classes a || has a ys) ≡ true
  in_classes c a uc i = elim (Bool-cases (a == c)) [
    | inl same ↦ let e : a ≡ c = ground arith in let u = ap classes e ∙ uc in ground (arith, u)
    | inr other ↦ ground arith
  ]

  classes_apart :
      (c a : Ptr) → classes c ≡ true → has a (c ∷ ys) ≡ true → (nodes a ≡ false) × (a ∉ xs)
  classes_apart c a uc i =
      let u = in_classes c a uc i in (ground (arith, separate a), ground (arith, separate a))

  module _ (n c : Ptr) (bs : List Ptr) (w w₂ : World) (un : nodes n ≡ true) (uc : classes c ≡ true)
      (node_pool : IsNodePool w xs nodes)
      (d : Deallocated classes ys bs c (with_counter w c 0) w₂) where
    class_kept : (a : Ptr) → a ∉ ys → (a == c) ≡ false → w₂.heap a ≡ w.heap a
    class_kept a out ne = d.others a out ne ∙ write-outside w.heap c _ a ne

    pub node_kept : w₂.heap n ≡ w.heap n
    node_kept =
        let (free, out) = node_apart n un in
        class_kept n out (flip c n (differ_by classes c n uc free))

    pub node_pool₂ : IsNodePool w₂ xs nodes
    node_pool₂ =
        rw (d.nodes.cache, d.nodes.memory, d.nodes.counter)
          (IsPool-frame w.heap w₂.heap w.mc.node_cache w.mc.node_buffer_memory
            w.mc.node_buffer_counter xs nodes node_pool
            λ a i.
              let (free, out) = cached_apart a i in
              class_kept a out (flip c a (differ_by classes c a uc free)))

    pub departed :
        (w₃ : World)
        → IsNodePool w₃ (n ∷ xs) (update_ptr nodes n false)
        → Untouched xs n w₂ w₃
        → SameClasses w₂ w₃
        → Departed nodes xs classes ys n c bs w w₃
    departed w₃ pool₃ kept same = record {
      node_pool = pool₃;
      class_pool =
          rw (same.cache, same.memory, same.counter)
            (IsPool-frame w₂.heap w₃.heap w₂.mc.class_cache w₂.mc.class_buffer_memory
              w₂.mc.class_buffer_counter (c ∷ ys) (update_ptr classes c false) d.pool
              λ a i.
                let (free, out) = classes_apart c a uc i in
                kept.others a out (flip n a (differ_by nodes n a un free)));
      freed = subst (Freed bs w.store) (sym kept.store) d.freed;
      gopts = kept.gopts ∙ d.gopts;
      time = kept.time ∙ d.time;
      bytes =
          ap (λ (x : MStat). x.bytes_deallocated) kept.stat
          ∙ (d.bytes
              ∙ ap (λ k. (w.mc.stat.bytes_deallocated + class_bytes k) % 2 ^ 64)
                  (write-here w.heap c _));
      objects =
          ap (λ (x : MStat). x.objects_deallocated) kept.stat
          ∙ (d.objects
              ∙ ap (λ k. (w.mc.stat.objects_deallocated + class_objects k) % 2 ^ 64)
                  (write-here w.heap c _));
      others = λ a ox an oy ac. kept.others a ox an ∙ class_kept a oy ac;
    }
