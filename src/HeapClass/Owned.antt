-- ===== src/HeapClass/Owned.antt =====
-- Classes that one thread alone refers to, and what they own, when others are freed.
use acdc.Base.{
  ℕ, ◌+◌, ◌*◌, Bool, true, false, List, [], ◌∷◌, ◌++◌, ◌==◌, ◌≡◌, refl, sym, ◌∙◌, ap, subst, arith,
  has, ◌∉◌, ◌||◌, has-append,
}
use acdc.Types.{
  ClassType, list_type, btree_type, optimal_list, optimal_btree, false_sharing,
  optimal_false_sharing, Ptr, Chunk, Heap, write, GOptions, reference_counter, object_size,
}
use acdc.Store.{Store}
use acdc.LifetimeClass.Linked.{write-here}
use acdc.Objects.FreeTrees.{Freed}
use acdc.Objects.Lists.{Chained}
use acdc.Objects.Trees.{IsTree}
use acdc.Classes.Holding.{IsOwner, Holds}

-- No node is a class: those in use and those cached.
abbrev pub AreSeparate : (Ptr → Bool) → List Ptr → (Ptr → Bool) → List Ptr → Type 0
AreSeparate nodes xs classes ys =
    (a : Ptr) → (nodes a || has a xs) ≡ true → (classes a || has a ys) ≡ false

-- The blocks of all classes `cs`.
abbrev pub all_blocks : (Ptr → List Ptr) → List Ptr → List Ptr
all_blocks blocks [] = []
all_blocks blocks (c ∷ cs) = blocks c ++ all_blocks blocks cs

-- The sum over the classes `cs`.
abbrev pub sum_over : (Chunk → ℕ) → Heap → List Ptr → ℕ
sum_over f h [] = 0
sum_over f h (c ∷ cs) = f (h c) + sum_over f h cs

abbrev pub class_bytes : Chunk → ℕ
class_bytes k = object_size k * k.num_objects

abbrev pub class_objects : Chunk → ℕ
class_objects k = k.num_objects

-- A class that this thread alone refers to, in use, with its blocks.
pub record IsAlone (g : GOptions) (h : Heap) (s : Store) (classes : Ptr → Bool) (bs : List Ptr)
    (c : Ptr) : Type 0 where
  pub taken : classes c ≡ true
  pub one_reference : reference_counter (h c) ≡ 1
  pub owner : IsOwner g s bs (h c)

-- The blocks of different classes are different.
abbrev pub AreApart : (Ptr → List Ptr) → List Ptr → Type 0
AreApart blocks cs =
    (c d : Ptr)
    → has c cs ≡ true
    → has d cs ≡ true
    → (c == d) ≡ false
    → (a : Ptr) → has a (blocks c) ≡ true
    → a ∉ blocks d

pub Freed-append :
    (xs ys : List Ptr) (s s₁ s₂ : Store) → Freed xs s s₁ → Freed ys s₁ s₂ → Freed (xs ++ ys) s s₂
Freed-append xs ys s s₁ s₂ f₁ f₂ = record {
  live = λ a. ground (arith, f₁.live a, f₂.live a, has-append a xs ys);
  word0 = f₂.word0 ∙ f₁.word0;
  word1 = f₂.word1 ∙ f₁.word1;
  bytes = f₂.bytes ∙ f₁.bytes;
  supply = f₂.supply ∙ f₁.supply;
}

pub sum_over-frame :
    (f : Chunk → ℕ) (h g : Heap) (cs : List Ptr)
    → ((c : Ptr) → has c cs ≡ true → g c ≡ h c)
    → sum_over f g cs ≡ sum_over f h cs
sum_over-frame f h g [] same = refl
sum_over-frame f h g (c ∷ cs) same =
    let rest = sum_over-frame f h g cs (λ d i. same d (ground arith)) in
    let here : f (g c) ≡ f (h c) = ap f (same c (ground arith)) in omega (arith, rest, here)

Holds-Freed :
    (t : ClassType) (n : ℕ) (bs freed : List Ptr) (p : Ptr) (s s' : Store)
    → Freed freed s s'
    → Holds t n bs p s
    → Holds t n bs p s'
Holds-Freed list_type n bs freed p s s' f (start, count, chained) =
    (start, count, subst (λ v. Chained v bs) (sym f.word0) chained)
Holds-Freed btree_type n bs freed p s s' f (t, start, order, count, linked) = (
  t,
  start,
  order,
  count,
  subst (λ v. IsTree v s'.word1 t) (sym f.word0)
      (subst (λ v. IsTree s.word0 v t) (sym f.word1) linked),
)
Holds-Freed optimal_list n bs freed p s s' f h = h
Holds-Freed optimal_btree n bs freed p s s' f h = h
Holds-Freed false_sharing n bs freed p s s' f h = h
Holds-Freed optimal_false_sharing n bs freed p s s' f h = h

-- Owners do not notice when other blocks are freed.
pub IsOwner-Freed :
    (g : GOptions) (s s' : Store) (bs freed : List Ptr) (k : Chunk)
    → Freed freed s s'
    → ((a : Ptr) → has a bs ≡ true → a ∉ freed)
    → IsOwner g s bs k
    → IsOwner g s' bs k
IsOwner-Freed g s s' bs freed k f apart o = record {
  some_size = o.some_size;
  size = o.size;
  some_object = o.some_object;
  blocks_live = record {
    distinct = o.blocks_live.distinct;
    not_null = o.blocks_live.not_null;
    live = λ a i. f.live a ∙ rw (apart a i) (o.blocks_live.live a i);
  };
  holds = Holds-Freed k.type k.num_objects bs freed k.start s s' f o.holds;
}

pub IsOwner-counter :
    (g : GOptions) (s : Store) (bs : List Ptr) (h : Heap) (c : Ptr) (n : ℕ)
    → IsOwner g s bs (h c)
    → IsOwner g s bs (write h c (record (h c) { prev = n }) c)
IsOwner-counter g s bs h c n o =
    subst (IsOwner g s bs) (sym (write-here h c (record (h c) { prev = n }))) (record {
      some_size = o.some_size;
      size = o.size;
      some_object = o.some_object;
      blocks_live = o.blocks_live;
      holds = o.holds;
    })
