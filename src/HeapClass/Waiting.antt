-- ===== src/HeapClass/Waiting.antt =====
-- A class between its insertion into a heap class and its expiry: from `heap_class_insert` to
-- `heap_class_remove` of src/acdc.c.
use acdc.Base.{
  ℕ, ◌+◌, ◌%◌, ◌^◌, Bool, true, false, List, [], ◌∷◌, ◌++◌, ◌==◌, ◌≡◌, refl, sym, ◌∙◌, ap, subst,
  arith, has, ◌∉◌, ◌||◌, Bool-cases, inl, inr, has-append,
}
use acdc.Types.{Ptr, LClass, reference_counter, MStat}
use acdc.Store.{Store, update_ptr}
use acdc.Mutator.{World}
use acdc.Mutator.Pools.{TakenFrom, IsPool-frame}
use acdc.Mutator.NodePool.{IsNodePool, next_node}
use acdc.Mutator.ClassPool.{IsClassPool}
use acdc.Objects.FreeTrees.{Freed}
use acdc.Classes.Holding.{IsOwner}
use acdc.HeapClass.Insert.{Inserted}
use acdc.HeapClass.Expiry.{without, differ_by, differ_from}
use acdc.HeapClass.Owned.{AreSeparate, IsAlone, class_bytes, class_objects}
use acdc.HeapClass.Emptying.{Emptied}
use acdc.HeapClass.Leaving.{Leaving}

-- The state at another time of the thread.
abbrev pub at_time : ℕ → World → World
at_time t w = record w { mc = record w.mc { time = t } }

-- The class `c` is gone again: it is cached besides the classes `ys`, and its node `n` besides the nodes
-- `xs`, in well-formed pools, its blocks are freed, and
-- it is counted.
pub record Over (nodes classes : Ptr → Bool) (xs ys bs : List Ptr) (n c : Ptr) (w w' : World)
    : Type 0 where
  pub node_cache : List Ptr
  pub node_pool : IsNodePool w' node_cache nodes
  pub node_back : (a : Ptr) → has a node_cache ≡ has a (n ∷ xs)
  pub class_cache : List Ptr
  pub class_pool : IsClassPool w' class_cache (update_ptr classes c false)
  pub class_back : (a : Ptr) → has a class_cache ≡ has a (c ∷ ys)
  pub freed : Freed bs w.store w'.store
  pub bytes :
      w'.mc.stat.bytes_deallocated % 2 ^ 64
      ≡ (w.mc.stat.bytes_deallocated + class_bytes (w.heap c)) % 2 ^ 64
  pub objects :
      w'.mc.stat.objects_deallocated % 2 ^ 64
      ≡ (w.mc.stat.objects_deallocated + class_objects (w.heap c)) % 2 ^ 64

in_front : (a n : Ptr) (xs : List Ptr) → (has a (n ∷ []) || has a xs) ≡ has a (n ∷ xs)
in_front a n xs = ground arith

one_out : (used : Ptr → Bool) (c a : Ptr) → without used (c ∷ []) a ≡ update_ptr used c false a
one_out used c a = ground arith

again :
    (used : Ptr → Bool) (n a : Ptr)
    → used n ≡ false
    → without (update_ptr used n true) (n ∷ []) a ≡ used a
again used n a un = elim (Bool-cases (a == n)) [
  | inl same ↦ let e : a ≡ n = ground arith in let u = ap used e ∙ un in ground (arith, u)
  | inr apart ↦ ground arith
]

Freed-one : (bs : List Ptr) (s s' : Store) → Freed (bs ++ []) s s' → Freed bs s s'
Freed-one bs s s' f = record {
  live = λ a. ground (arith, f.live a, has-append a bs []);
  word0 = f.word0;
  word1 = f.word1;
  bytes = f.bytes;
  supply = f.supply;
}

module _ (w : World) (nodes : Ptr → Bool) (xs : List Ptr) (classes : Ptr → Bool) (ys : List Ptr)
    (separate : AreSeparate nodes xs classes ys)
    (next_apart : (classes (next_node w) || has (next_node w) ys) ≡ false) where
  node_no_class :
      (n : Ptr) (cache : List Ptr)
      → TakenFrom xs cache (next_node w) n
      → (classes n || has n ys) ≡ false
  node_no_class n cache from = elim from.origin [
    | inl cached ↦ ground (arith, separate n)
    | inr fresh ↦ ap (λ a. classes a || has a ys) fresh ∙ next_apart
  ]

  separate_after :
      (n : Ptr) (cache : List Ptr)
      → TakenFrom xs cache (next_node w) n
      → AreSeparate (update_ptr nodes n true) cache classes ys
  separate_after n cache from a u = elim (Bool-cases (a == n)) [
    | inl same ↦
        let e : a ≡ n = ground arith in
        ap (λ b. classes b || has b ys) e ∙ node_no_class n cache from
    | inr apart ↦ ground (arith, separate a, from.rest a)
  ]

  module _ (hc : List LClass) (i : ℕ) (c : Ptr) (bs : List Ptr) (hc' : List LClass) (w' : World)
      (class_pool : IsClassPool w ys classes)
      (alone : IsAlone w.mc.gopts w.heap w.store classes bs c)
      (ins : Inserted hc i xs [] c nodes w hc' w') where
    no_node : (nodes c ≡ false) × (c ∉ xs)
    no_node = (ground (arith, alone.taken, separate c), ground (arith, alone.taken, separate c))

    no_class : (classes ins.node ≡ false) × (ins.node ∉ ys)
    no_class =
        let none_there = node_no_class ins.node ins.cache ins.from in
        (ground (arith, none_there), ground (arith, none_there))

    class_same : (a : Ptr) → a ∉ xs → (a == ins.node) ≡ false → w'.heap a ≡ w.heap a
    class_same a ox ne = ins.others a ox (ground arith)

    c_same : w'.heap c ≡ w.heap c
    c_same = class_same c no_node.1 (differ_by classes c ins.node alone.taken no_class.0)

    IsAlone-after : IsAlone w'.mc.gopts w'.heap w'.store classes bs c
    IsAlone-after = record {
      taken = alone.taken;
      one_reference = ap reference_counter c_same ∙ alone.one_reference;
      owner = subst (IsOwner w'.mc.gopts w'.store bs) (sym c_same) (
          subst (λ s. IsOwner w'.mc.gopts s bs (w.heap c)) (sym ins.store)
            (subst (λ g. IsOwner g w.store bs (w.heap c)) (sym ins.gopts) alone.owner));
    }

    IsClassPool-after : IsClassPool w' ys classes
    IsClassPool-after =
        rw (ins.classes.cache, ins.classes.memory, ins.classes.counter)
          (IsPool-frame w.heap w'.heap w.mc.class_cache w.mc.class_buffer_memory
            w.mc.class_buffer_counter ys classes class_pool
            λ a h.
              class_same a (ground (arith, separate a)) (differ_from a ins.node ys no_class.1 h).0)

    pub Leaving-after :
        (u : ℕ)
        → Leaving w'.mc.gopts
            (λ _. bs)
            (update_ptr nodes ins.node true)
            ins.cache
            classes
            ys
            (ins.node ∷ [])
            (c ∷ [])
            (at_time u w')
    Leaving-after u = record {
      gopts = refl;
      node_pool = ins.pool;
      class_pool = IsClassPool-after;
      separate = separate_after ins.node ins.cache ins.from;
      listed = (ins.list.chain.0, ins.class, tt);
      distinct_nodes = (refl, tt);
      distinct_classes = (refl, tt);
      taken = λ a h. ground arith;
      alone = λ a h.
          let e : c ≡ a = ground arith in
          subst (IsAlone w'.mc.gopts w'.heap w'.store classes bs) e IsAlone-after;
      apart = λ a b h₁ h₂ ne. absurd (ground arith);
    }

    pub Over-after :
        (u : ℕ) (w'' : World)
        → Emptied
            (update_ptr nodes ins.node true)
            ins.cache
            classes
            ys
            (ins.node ∷ [])
            (c ∷ [])
            (λ _. bs)
            (at_time u w')
            w''
        → Over nodes classes ins.cache ys bs ins.node c w w''
    Over-after u w'' e = record {
      node_cache = e.node_cache;
      node_pool =
          subst (IsNodePool w'' e.node_cache) (λ k a. again nodes ins.node a ins.new k) e.node_pool;
      node_back = λ a. e.nodes_back a ∙ in_front a ins.node ins.cache;
      class_cache = e.class_cache;
      class_back = λ a. e.classes_back a ∙ in_front a c ys;
      class_pool =
          subst (IsClassPool w'' e.class_cache) (λ k a. one_out classes c a k) e.class_pool;
      freed = subst (λ s. Freed bs s w''.store) ins.store (Freed-one bs w'.store w''.store e.freed);
      bytes =
          let before = ap (λ (x : MStat). x.bytes_deallocated) ins.stat in
          let of_class = ap class_bytes c_same in omega (arith, e.bytes, before, of_class);
      objects =
          let before = ap (λ (x : MStat). x.objects_deallocated) ins.stat in
          let of_class = ap class_objects c_same in omega (arith, e.objects, before, of_class);
    }
