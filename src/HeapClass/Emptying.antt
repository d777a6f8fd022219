-- ===== src/HeapClass/Emptying.antt =====
-- The expiry of a lifetime-class whose classes no other thread refers to: `heap_class_remove` of
-- src/acdc.c.
use acdc.Base.{
  inr, inl, Bool-cases, ◌+◌, ◌%◌, ◌^◌, Bool, true, false, List, ◌∷◌, ◌==◌, ◌≡◌, sym, ◌∙◌, ap, subst,
  arith, has, ◌∉◌, ◌||◌,
}
use acdc.Types.{Ptr, GOptions, reference_counter}
use acdc.Store.{update_ptr}
use acdc.Mutator.{World}
use acdc.Mutator.NodePool.{IsNodePool}
use acdc.Mutator.ClassPool.{IsClassPool}
use acdc.Objects.FreeTrees.{Freed}
use acdc.Classes.Holding.{IsOwner}
use acdc.HeapClass.Expiry.{without, differ_by, flip, still, without-cons, out_cons, out_parts}
use acdc.HeapClass.Owned.{
  AreSeparate, all_blocks, sum_over, class_bytes, class_objects, IsAlone, Freed-append,
  sum_over-frame, IsOwner-Freed,
}
use acdc.HeapClass.Departure.{Departed, class_apart}

-- All rounds: the nodes `ns` and the classes `cs` are cached besides those that were, exactly the
-- blocks of the classes are freed, and all are counted.
pub record Emptied (nodes : Ptr → Bool) (xs : List Ptr) (classes : Ptr → Bool) (ys ns cs : List Ptr)
    (blocks : Ptr → List Ptr) (w w' : World) : Type 0 where
  pub node_cache : List Ptr
  pub node_pool : IsNodePool w' node_cache (without nodes ns)
  pub nodes_back : (a : Ptr) → has a node_cache ≡ (has a ns || has a xs)
  pub class_cache : List Ptr
  pub class_pool : IsClassPool w' class_cache (without classes cs)
  pub classes_back : (a : Ptr) → has a class_cache ≡ (has a cs || has a ys)
  pub freed : Freed (all_blocks blocks cs) w.store w'.store
  pub bytes :
      w'.mc.stat.bytes_deallocated % 2 ^ 64
      ≡ (w.mc.stat.bytes_deallocated + sum_over class_bytes w.heap cs) % 2 ^ 64
  pub objects :
      w'.mc.stat.objects_deallocated % 2 ^ 64
      ≡ (w.mc.stat.objects_deallocated + sum_over class_objects w.heap cs) % 2 ^ 64
  pub others : (a : Ptr) → a ∉ xs → a ∉ ns → a ∉ ys → a ∉ cs → w'.heap a ≡ w.heap a

moved : (a n : Ptr) (ns xs : List Ptr) → (has a ns || has a (n ∷ xs)) ≡ (has a (n ∷ ns) || has a xs)
moved a n ns xs = ground arith

module _ (nodes : Ptr → Bool) (xs : List Ptr) (classes : Ptr → Bool) (ys : List Ptr) (n c : Ptr)
    (blocks : Ptr → List Ptr) (w w₂ : World) (un : nodes n ≡ true) (uc : classes c ≡ true)
    (separate : AreSeparate nodes xs classes ys)
    (d : Departed nodes xs classes ys n c (blocks c) w w₂) where
  one_less :
      (a : Ptr)
      → (a == c) ≡ false
      → (nodes a || has a xs) ≡ true
      → (update_ptr classes c false a || has a (c ∷ ys)) ≡ false
  one_less a ne u = ground (arith, separate a u)

  in_nodes :
      (a : Ptr)
      → (update_ptr nodes n false a || has a (n ∷ xs)) ≡ true
      → (nodes a || has a xs) ≡ true
  in_nodes a u = elim (Bool-cases (a == n)) [
    | inl same ↦ let e : a ≡ n = ground arith in let v = ap nodes e ∙ un in ground (arith, v)
    | inr other ↦ ground arith
  ]

  pub separate_round :
      AreSeparate (update_ptr nodes n false) (n ∷ xs) (update_ptr classes c false) (c ∷ ys)
  separate_round a u =
      let v = in_nodes a u in
      let free : classes a ≡ false = ground (arith, separate a v) in
      one_less a (flip c a (differ_by classes c a uc free)) v

  -- The other classes have not changed.
  pub class_same : (b : Ptr) → classes b ≡ true → b ∉ ys → (b == c) ≡ false → w₂.heap b ≡ w.heap b
  class_same b ub oy ne =
      let (free, ox) = class_apart nodes xs classes ys separate b ub in
      d.others b ox (flip n b (differ_by nodes n b un free)) oy ne

  pub IsAlone-round :
      (g : GOptions) (b : Ptr)
      → b ∉ ys
      → (b == c) ≡ false
      → ((a : Ptr) → has a (blocks b) ≡ true → a ∉ blocks c)
      → IsAlone g w.heap w.store classes (blocks b) b
      → IsAlone g w₂.heap w₂.store (update_ptr classes c false) (blocks b) b
  IsAlone-round g b oy ne apart o =
      let same = class_same b o.taken oy ne in
      record {
        taken = still classes c b true ne o.taken;
        one_reference = ap reference_counter same ∙ o.one_reference;
        owner = subst (IsOwner g w₂.store (blocks b)) (sym same) (
            IsOwner-Freed g w.store w₂.store (blocks b) (blocks c) (w.heap b) d.freed apart
              o.owner);
      }

  module _ (ns cs : List Ptr) (w₃ : World)
      (same : (b : Ptr) → has b cs ≡ true → w₂.heap b ≡ w.heap b)
      (e : Emptied
        (update_ptr nodes n false)
        (n ∷ xs)
        (update_ptr classes c false)
        (c ∷ ys)
        ns
        cs
        blocks
        w₂
        w₃) where
    pub Emptied-cons : Emptied nodes xs classes ys (n ∷ ns) (c ∷ cs) blocks w w₃
    Emptied-cons =
        let bytes = sum_over-frame class_bytes w.heap w₂.heap cs same in
        let objects = sum_over-frame class_objects w.heap w₂.heap cs same in
        record {
          node_cache = e.node_cache;
          node_pool = subst (IsNodePool w₃ e.node_cache) (without-cons nodes n ns) e.node_pool;
          nodes_back = λ a. e.nodes_back a ∙ moved a n ns xs;
          class_cache = e.class_cache;
          classes_back = λ a. e.classes_back a ∙ moved a c cs ys;
          class_pool =
              subst (IsClassPool w₃ e.class_cache) (without-cons classes c cs) e.class_pool;
          freed =
              Freed-append (blocks c) (all_blocks blocks cs) w.store w₂.store w₃.store d.freed
                e.freed;
          bytes = omega (arith, e.bytes, d.bytes, bytes);
          objects = omega (arith, e.objects, d.objects, objects);
          others = λ a ox on oy oc.
              let (an, ans) = out_parts a n ns on in
              let (ac, acs) = out_parts a c cs oc in
              e.others a (out_cons a n xs an ox) ans (out_cons a c ys ac oy) acs
              ∙ d.others a ox an oy ac;
        }
