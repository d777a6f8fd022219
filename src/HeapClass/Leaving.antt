-- ===== src/HeapClass/Leaving.antt =====
-- The expiring classes that one thread alone refers to, during the loop of `heap_class_remove` of
-- src/acdc.c.
use acdc.Base.{Bool, true, false, List, ◌∷◌, ◌==◌, ◌≡◌, ◌∙◌, arith, has, ◌∉◌, Distinct}
use acdc.Types.{Ptr, GOptions}
use acdc.Store.{update_ptr}
use acdc.Mutator.{World}
use acdc.Mutator.NodePool.{IsNodePool}
use acdc.Mutator.ClassPool.{IsClassPool}
use acdc.HeapClass.Expiry.{Listed, Listed-frame, differ_by, differ_from, flip, still}
use acdc.HeapClass.Owned.{AreSeparate, IsAlone, AreApart}
use acdc.HeapClass.Departure.{node_apart, Departed}
use acdc.HeapClass.Emptying.{Emptied, separate_round, IsAlone-round, class_same, Emptied-cons}

-- The loop's hypotheses: the nodes `ns` with their classes `cs`, which this thread alone refers to.
pub record Leaving (g : GOptions) (blocks : Ptr → List Ptr) (nodes : Ptr → Bool) (xs : List Ptr)
    (classes : Ptr → Bool) (ys ns cs : List Ptr) (w : World) : Type 0 where
  pub gopts : w.mc.gopts ≡ g
  pub node_pool : IsNodePool w xs nodes
  pub class_pool : IsClassPool w ys classes
  pub separate : AreSeparate nodes xs classes ys
  pub listed : Listed w.heap ns cs
  pub distinct_nodes : Distinct ns
  pub distinct_classes : Distinct cs
  pub taken : (a : Ptr) → has a ns ≡ true → nodes a ≡ true
  pub alone : (c : Ptr) → has c cs ≡ true → IsAlone g w.heap w.store classes (blocks c) c
  pub apart : AreApart blocks cs

module _ (g : GOptions) (blocks : Ptr → List Ptr) (nodes : Ptr → Bool) (xs : List Ptr)
    (classes : Ptr → Bool) (ys : List Ptr) (n c : Ptr) (ns cs : List Ptr) (w : World)
    (h : Leaving g blocks nodes xs classes ys (n ∷ ns) (c ∷ cs) w) where
  node_taken : nodes n ≡ true
  node_taken = h.taken n (ground arith)

  class-IsAlone : IsAlone g w.heap w.store classes (blocks c) c
  class-IsAlone = h.alone c (ground arith)

  other-IsAlone : (b : Ptr) → has b cs ≡ true → IsAlone g w.heap w.store classes (blocks b) b
  other-IsAlone b i = h.alone b (ground arith)

  other_apart : (b : Ptr) → has b cs ≡ true → ((b == c) ≡ false) × (b ∉ ys)
  other_apart b i =
      ((differ_from b c cs h.distinct_classes.0 i).0, h.class_pool.free b (other-IsAlone b i).taken)

  other_taken : (a : Ptr) → has a ns ≡ true → nodes a ≡ true
  other_taken a i = h.taken a (ground arith)

  away : (a : Ptr) → has a ns ≡ true → (a == n) ≡ false
  away a i = (differ_from a n ns h.distinct_nodes.0 i).0

  module _ (w₃ : World) (r : Departed nodes xs classes ys n c (blocks c) w w₃) where
    node_same : (a : Ptr) → has a ns ≡ true → w₃.heap a ≡ w.heap a
    node_same a i =
        let (free, oy) = node_apart nodes xs classes ys h.separate a (other_taken a i) in
        r.others a (h.node_pool.free a (other_taken a i)) (away a i) oy
          (flip c a (differ_by classes c a class-IsAlone.taken free))

    pub Leaving-round :
        Leaving g blocks
          (update_ptr nodes n false)
          (n ∷ xs)
          (update_ptr classes c false)
          (c ∷ ys)
          ns
          cs
          w₃
    Leaving-round = record {
      gopts = r.gopts ∙ h.gopts;
      node_pool = r.node_pool;
      class_pool = r.class_pool;
      separate =
          separate_round nodes xs classes ys n c blocks w w₃ node_taken class-IsAlone.taken
            h.separate r;
      listed = Listed-frame w.heap w₃.heap ns cs h.listed.2 node_same;
      distinct_nodes = h.distinct_nodes.1;
      distinct_classes = h.distinct_classes.1;
      taken = λ a i. still nodes n a true (away a i) (other_taken a i);
      alone = λ b i.
          let (ne, oy) = other_apart b i in
          IsAlone-round nodes xs classes ys n c blocks w w₃ node_taken class-IsAlone.taken
            h.separate r g b oy ne (h.apart b c (ground arith) (ground arith) ne)
            (other-IsAlone b i);
      apart = λ b₁ b₂ i₁ i₂. h.apart b₁ b₂ (ground arith) (ground arith);
    }

    pub Emptied-round :
        (w₄ : World)
        → Emptied
            (update_ptr nodes n false)
            (n ∷ xs)
            (update_ptr classes c false)
            (c ∷ ys)
            ns
            cs
            blocks
            w₃
            w₄
        → Emptied nodes xs classes ys (n ∷ ns) (c ∷ cs) blocks w w₄
    Emptied-round w₄ e =
        Emptied-cons nodes xs classes ys n c blocks w w₃ node_taken class-IsAlone.taken h.separate r
          ns cs w₄
          (λ b i.
            let (ne, oy) = other_apart b i in
            class_same nodes xs classes ys n c blocks w w₃ node_taken class-IsAlone.taken h.separate
              r b (other-IsAlone b i).taken oy ne)
          e
