-- ===== src/HeapClass/Expiry.antt =====
-- What one round of the expiry of a lifetime-class does when its class is still shared with other
-- threads (`heap_class_remove` of src/acdc.c).
use acdc.Base.{
  ◌||◌, ℕ, suc, ◌+◌, ◌^◌, ◌<◌, Bool, true, false, List, [], ◌∷◌, ◌==◌, ◌≡◌, sym, ◌∙◌, ap, subst,
  arith, has, ◌∉◌, if◌then◌else◌, Bool-cases, inl, inr,
}
use acdc.Types.{Ptr, null, Chunk, Heap, write, LClass, reference_counter}
use acdc.Store.{update_ptr}
use acdc.LifetimeClass.Linked.{write-outside, head_or}
use acdc.Mutator.{World}
use acdc.Mutator.Pools.{IsPool, IsPool-frame}
use acdc.Mutator.NodePool.{IsNodePool}

-- The nodes `ns` are chained, and point to the classes `cs`.
abbrev pub Listed : Heap → List Ptr → List Ptr → Type 0
Listed h [] [] = Unit
Listed h [] (c ∷ cs) = ⊥
Listed h (n ∷ ns) [] = ⊥
Listed h (n ∷ ns) (c ∷ cs) = ((h n).next ≡ head_or null ns) × ((h n).ls_class ≡ c) × Listed h ns cs

pub Listed-frame :
    (h g : Heap) (ns cs : List Ptr)
    → Listed h ns cs
    → ((a : Ptr) → has a ns ≡ true → g a ≡ h a)
    → Listed g ns cs
Listed-frame h g [] [] l same = tt
Listed-frame h g [] (c ∷ cs) l same = l
Listed-frame h g (n ∷ ns) [] l same = l
Listed-frame h g (n ∷ ns) (c ∷ cs) (next, class, l) same =
    let here = same n (ground arith) in
    (
      ap (λ (k : Chunk). k.next) here ∙ next,
      ap (λ (k : Chunk). k.ls_class) here ∙ class,
      Listed-frame h g ns cs l (λ a i. same a (ground arith)),
    )

-- A class that this thread does not own alone, and that is no node.
pub record IsShared (h : Heap) (used : Ptr → Bool) (xs : List Ptr) (c : Ptr) : Type 0 where
  pub no_node : used c ≡ false
  pub not_cached : c ∉ xs
  pub not_null : (c == null) ≡ false
  pub references : (k : ℕ) × (reference_counter (h c) ≡ suc (suc k)) × (suc (suc k) < 2 ^ 64)

-- The nodes in use without the nodes `ns`.
abbrev pub without : (Ptr → Bool) → List Ptr → Ptr → Bool
without used ns a = if has a ns then false else used a

-- The nodes `ns` are cached besides those that were, the classes `cs` have one reference less, and no
-- other node or class but those that were cached, no object, and neither the options, the statistics
-- nor the time have changed.
pub record Expired (used : Ptr → Bool) (xs ns cs : List Ptr) (w w' : World) : Type 0 where
  pub cache : List Ptr
  pub pool : IsNodePool w' cache (without used ns)
  pub back : (a : Ptr) → has a cache ≡ (has a ns || has a xs)
  pub counters :
      (c : Ptr) → has c cs ≡ true → reference_counter (w'.heap c) + 1 ≡ reference_counter (w.heap c)
  pub others : (a : Ptr) → a ∉ ns → a ∉ xs → a ∉ cs → w'.heap a ≡ w.heap a
  pub store : w'.store ≡ w.store
  pub gopts : w'.mc.gopts ≡ w.mc.gopts
  pub stat : w'.mc.stat ≡ w.mc.stat
  pub time : w'.mc.time ≡ w.mc.time

pub IsPool-class :
    (h : Heap) (cache : LClass) (memory counter : ℕ) (xs : List Ptr) (used : Ptr → Bool) (c : Ptr)
    (k : Chunk)
    → c ∉ xs
    → IsPool h cache memory counter xs used
    → IsPool (write h c k) cache memory counter xs used
IsPool-class h cache memory counter xs used c k out pool =
    IsPool-frame h (write h c k) cache memory counter xs used pool
      λ a i. write-outside h c k a (apart a c xs out i)
  where
    apart : (a c : Ptr) (xs : List Ptr) → c ∉ xs → has a xs ≡ true → (a == c) ≡ false
    apart a c xs out i = ground arith

pub differ_by : (used : Ptr → Bool) (a b : Ptr) → used a ≡ true → used b ≡ false → (a == b) ≡ false
differ_by used a b ua ub = elim (Bool-cases (a == b)) [
  | inl same ↦
      let e : a ≡ b = ground arith in
      let clash : true ≡ false = sym ua ∙ (ap used e ∙ ub) in absurd (ground (arith, clash))
  | inr apart ↦ apart
]

pub differ_from :
    (a b : Ptr) (xs : List Ptr) → b ∉ xs → has a xs ≡ true → ((a == b) ≡ false) × ((b == a) ≡ false)
differ_from a b xs out i = (ground arith, ground arith)

without_at :
    (used : Ptr → Bool) (n : Ptr) (ns : List Ptr) (a : Ptr)
    → without (update_ptr used n false) ns a ≡ without used (n ∷ ns) a
without_at used n ns a = ground arith

pub without-cons :
    (used : Ptr → Bool) (n : Ptr) (ns : List Ptr)
    → without (update_ptr used n false) ns ≡ without used (n ∷ ns)
without-cons used n ns i a = without_at used n ns a i

pub flip : (a b : Ptr) → (a == b) ≡ false → (b == a) ≡ false
flip a b ne = ground arith

pub out_of :
    (used : Ptr → Bool) (c : Ptr) (ns : List Ptr)
    → used c ≡ false
    → ((a : Ptr) → has a ns ≡ true → used a ≡ true)
    → c ∉ ns
out_of used c ns no_node un = elim (Bool-cases (has c ns)) [
  | inl inside ↦ absurd (ground (arith, un c inside))
  | inr outside ↦ outside
]

pub out_cons : (a n : Ptr) (xs : List Ptr) → (a == n) ≡ false → a ∉ xs → a ∉ (n ∷ xs)
out_cons a n xs ne out = ground arith

pub out_parts : (a n : Ptr) (xs : List Ptr) → a ∉ (n ∷ xs) → ((a == n) ≡ false) × (a ∉ xs)
out_parts a n xs out = (ground arith, ground arith)

pub still :
    (used : Ptr → Bool) (n a : Ptr) (b : Bool)
    → (a == n) ≡ false
    → used a ≡ b
    → update_ptr used n false a ≡ b
still used n a b ne u = simp ne u

in_rest : (a c : Ptr) (cs : List Ptr) → has a (c ∷ cs) ≡ true → (a == c) ≡ false → has a cs ≡ true
in_rest a c cs i ne = ground arith

-- One round of the loop: the class `c` of the node `n` has lost a reference, and `n` is cached.
pub record Round (used : Ptr → Bool) (xs : List Ptr) (n c : Ptr) (w w₂ : World) : Type 0 where
  pub node : used n ≡ true
  pub class : IsShared w.heap used xs c
  pub counted : reference_counter (w₂.heap c) + 1 ≡ reference_counter (w.heap c)
  pub others : (a : Ptr) → a ∉ xs → (a == n) ≡ false → (a == c) ≡ false → w₂.heap a ≡ w.heap a
  pub store : w₂.store ≡ w.store
  pub gopts : w₂.mc.gopts ≡ w.mc.gopts
  pub stat : w₂.mc.stat ≡ w.mc.stat
  pub time : w₂.mc.time ≡ w.mc.time

module _ (used : Ptr → Bool) (xs : List Ptr) (n c : Ptr) (w w₂ : World)
    (round : Round used xs n c w w₂) where
  not_node : (d : Ptr) → used d ≡ false → (d == n) ≡ false
  not_node d ud = flip n d (differ_by used n d round.node ud)

  -- The other classes are still shared.
  pub IsShared-round :
      (d : Ptr)
      → (d == c) ≡ false
      → IsShared w.heap used xs d
      → IsShared w₂.heap (update_ptr used n false) (n ∷ xs) d
  IsShared-round d dc sd =
      let (j, count, small) = sd.references in
      let dn = not_node d sd.no_node in
      record {
        no_node = still used n d false dn sd.no_node;
        not_cached = out_cons d n xs dn sd.not_cached;
        not_null = sd.not_null;
        references = (j, ap reference_counter (round.others d sd.not_cached dn dc) ∙ count, small);
      }

  module _ (ns cs : List Ptr) (w₃ : World)
      (e : Expired (update_ptr used n false) (n ∷ xs) ns cs w₂ w₃) where
    counters-round :
        c ∉ ns
        → c ∉ cs
        → ((d : Ptr) → has d (c ∷ cs) ≡ true → IsShared w.heap used xs d)
        → (d : Ptr) → has d (c ∷ cs) ≡ true
        → reference_counter (w₃.heap d) + 1 ≡ reference_counter (w.heap d)
    counters-round cn cc sh d i = elim (Bool-cases (d == c)) [
      | inl same ↦
          let here : c ≡ d = ground arith in
          let out = out_cons c n xs (not_node c round.class.no_node) round.class.not_cached in
          subst (λ d. reference_counter (w₃.heap d) + 1 ≡ reference_counter (w.heap d)) here
            (ap (λ k. reference_counter k + 1) (e.others c cn out cc) ∙ round.counted)
      | inr apart ↦
          let sd = sh d i in
          e.counters d (in_rest d c cs i apart)
          ∙ ap reference_counter (round.others d sd.not_cached (not_node d sd.no_node) apart)
    ]

    moved : (a : Ptr) → (has a ns || has a (n ∷ xs)) ≡ (has a (n ∷ ns) || has a xs)
    moved a = ground arith

    pub Expired-cons :
        c ∉ ns
        → c ∉ cs
        → ((d : Ptr) → has d (c ∷ cs) ≡ true → IsShared w.heap used xs d)
        → Expired used xs (n ∷ ns) (c ∷ cs) w w₃
    Expired-cons cn cc sh = record {
      cache = e.cache;
      pool = subst (IsNodePool w₃ e.cache) (without-cons used n ns) e.pool;
      back = λ a. e.back a ∙ moved a;
      counters = counters-round cn cc sh;
      others = λ a o₁ o₂ o₃.
          let (an, ans) = out_parts a n ns o₁ in
          let (ac, acs) = out_parts a c cs o₃ in
          e.others a ans (out_cons a n xs an o₂) acs ∙ round.others a o₂ an ac;
      store = e.store ∙ round.store;
      gopts = e.gopts ∙ round.gopts;
      stat = e.stat ∙ round.stat;
      time = e.time ∙ round.time;
    }
