-- ===== src/Classes/Dispatch.antt =====
-- The classes of every type: the `switch` of `allocate_LSClass` of src/lifetime-size-classes.c.
use acdc.Base.{
  ◌||◌, ℕ, ◌≤◌, ◌<◌, Bool, true, false, List, [], ◌∷◌, ◌++◌, ◌≡◌, sym, ◌∙◌, ap, subst, arith, has,
  ◌∉◌, Distinct, length,
}
use acdc.Base.Run.{Returns}
use acdc.Types.{
  ClassType, list_type, btree_type, optimal_list, optimal_btree, false_sharing,
  optimal_false_sharing, sizeof_bt_object, sizeof_l_object, Ptr, null,
}
use acdc.Store.{Store}
use acdc.Mutator.{World}
use acdc.Mutator.ClassPool.{IsClassPool}
use acdc.Classes.{allocate_of_type, allocate_list, allocate_btree}
use acdc.Classes.Holding.{Holds}
use acdc.Classes.NewClass.{Owns, allocate_list-Owns, allocate_btree-Owns}
use acdc.Classes.Compact.{
  IsArray, IsHeapTree, allocate_optimal_list_unaligned-Owns, allocate_optimal_btree-Owns,
}

-- What a class of `n` objects of size `sz` needs: a size for its links, and a block for each object, or
-- one block.
abbrev pub Needs : ClassType → ℕ → ℕ → List Ptr → Type 0
Needs list_type sz n blocks = (sizeof_l_object ≤ sz) × (length blocks ≡ n)
Needs btree_type sz n blocks = (sizeof_bt_object ≤ sz) × (length blocks ≡ n)
Needs optimal_list sz n blocks = (sizeof_l_object ≤ sz) × (length blocks ≡ 1)
Needs optimal_btree sz n blocks = (sizeof_bt_object ≤ sz) × (length blocks ≡ 1)
Needs false_sharing sz n blocks = ⊥
Needs optimal_false_sharing sz n blocks = ⊥

-- The objects of a class, in blocks of its own.
abbrev pub IsMade : ClassType → ℕ → ℕ → List Ptr → List Ptr → Store → Ptr → Store → Type 0
IsMade list_type sz n blocks rest s₀ p s = acdc.Objects.Lists.IsBuilt sz blocks rest s₀ p s
IsMade btree_type sz n blocks rest s₀ p s = acdc.Objects.Trees.IsBuilt sz blocks rest s₀ p s
IsMade optimal_list sz n [] rest s₀ p s = ⊥
IsMade optimal_list sz n (b ∷ bs) rest s₀ p s = IsArray sz n b rest s₀ p s
IsMade optimal_btree sz n [] rest s₀ p s = ⊥
IsMade optimal_btree sz n (b ∷ bs) rest s₀ p s = IsHeapTree sz n b rest s₀ p s
IsMade false_sharing sz n blocks rest s₀ p s = ⊥
IsMade optimal_false_sharing sz n blocks rest s₀ p s = ⊥

-- Blocks that the allocator hands out next: different ones, which are not in use.
pub record AreFresh (blocks rest : List Ptr) (s : Store) : Type 0 where
  pub supply : s.supply ≡ blocks ++ rest
  pub distinct : Distinct blocks
  pub not_null : null ∉ blocks
  pub unused : (a : Ptr) → has a blocks ≡ true → s.live a ≡ false

pub allocate_of_type-Owns :
    (t : ClassType) (w : World) (used : Ptr → Bool) (xs : List Ptr) (sz n : ℕ)
    (blocks rest : List Ptr)
    → IsClassPool w xs used
    → (xs ≡ [] → w.mc.class_buffer_counter < w.mc.gopts.class_buffer_size)
    → 0 < n
    → Needs t sz n blocks
    → AreFresh blocks rest w.store
    → Returns (Owns used w t sz n (IsMade t sz n blocks rest w.store)) (allocate_of_type t sz n w)
unfolding allocate_of_type
allocate_of_type-Owns list_type w used xs sz n [] rest pool room some_ (h, e) f =
    absurd (omega arith)
allocate_of_type-Owns list_type w used xs sz n (b ∷ bs) rest pool room some_ (h, e) f =
    subst
      (λ m.
        Returns (Owns used w list_type sz m (IsMade list_type sz m (b ∷ bs) rest w.store))
          (allocate_list sz m w))
      e (allocate_list-Owns w used xs sz b bs rest pool room h f.supply f.distinct f.not_null)
allocate_of_type-Owns btree_type w used xs sz n blocks rest pool room some_ (h, e) f =
    subst
      (λ m.
        Returns (Owns used w btree_type sz m (IsMade btree_type sz m blocks rest w.store))
          (allocate_btree sz m w))
      e (allocate_btree-Owns w used xs sz blocks rest pool room h f.supply f.distinct f.not_null)
allocate_of_type-Owns optimal_list w used xs sz n [] rest pool room some_ (h, e) f =
    absurd (omega arith)
allocate_of_type-Owns optimal_list w used xs sz n (b ∷ []) rest pool room some_ (h, e) f =
    allocate_optimal_list_unaligned-Owns w used xs sz n b rest pool room h some_ f.supply
      (ground (arith, f.not_null))
allocate_of_type-Owns optimal_list w used xs sz n (b ∷ c ∷ bs) rest pool room some_ (h, e) f =
    absurd (omega arith)
allocate_of_type-Owns optimal_btree w used xs sz n [] rest pool room some_ (h, e) f =
    absurd (omega arith)
allocate_of_type-Owns optimal_btree w used xs sz n (b ∷ []) rest pool room some_ (h, e) f =
    allocate_optimal_btree-Owns w used xs sz n b rest pool room h some_ f.supply
      (ground (arith, f.not_null))
allocate_of_type-Owns optimal_btree w used xs sz n (b ∷ c ∷ bs) rest pool room some_ (h, e) f =
    absurd (omega arith)
allocate_of_type-Owns false_sharing w used xs sz n blocks rest pool room some_ h f = absurd h
allocate_of_type-Owns optimal_false_sharing w used xs sz n blocks rest pool room some_ h f =
    absurd h

-- What is made is held, in the blocks that were taken.
pub IsMade-Holds :
    (t : ClassType) (sz n : ℕ) (blocks rest : List Ptr) (s₀ : Store) (p : Ptr) (s : Store)
    → Needs t sz n blocks
    → IsMade t sz n blocks rest s₀ p s
    → Holds t n blocks p s
IsMade-Holds list_type sz n blocks rest s₀ p s (h, e) m = (m.start, e, m.chained)
IsMade-Holds btree_type sz n blocks rest s₀ p s (h, e) m = (m.tree, m.start, m.order, e, m.linked)
IsMade-Holds optimal_list sz n [] rest s₀ p s (h, e) m = absurd m
IsMade-Holds optimal_list sz n (b ∷ []) rest s₀ p s (h, e) m = ap (λ q. q ∷ []) (sym m.taken.start)
IsMade-Holds optimal_list sz n (b ∷ c ∷ bs) rest s₀ p s (h, e) m = absurd (omega arith)
IsMade-Holds optimal_btree sz n [] rest s₀ p s (h, e) m = absurd m
IsMade-Holds optimal_btree sz n (b ∷ []) rest s₀ p s (h, e) m = ap (λ q. q ∷ []) (sym m.taken.start)
IsMade-Holds optimal_btree sz n (b ∷ c ∷ bs) rest s₀ p s (h, e) m = absurd (omega arith)
IsMade-Holds false_sharing sz n blocks rest s₀ p s h m = absurd m
IsMade-Holds optimal_false_sharing sz n blocks rest s₀ p s h m = absurd m

-- Exactly these blocks were taken.
pub IsMade-live :
    (t : ClassType) (sz n : ℕ) (blocks rest : List Ptr) (s₀ : Store) (p : Ptr) (s : Store)
    → Needs t sz n blocks
    → IsMade t sz n blocks rest s₀ p s
    → (a : Ptr) → s.live a ≡ (has a blocks || s₀.live a)
IsMade-live list_type sz n blocks rest s₀ p s (h, e) m a = m.live a
IsMade-live btree_type sz n blocks rest s₀ p s (h, e) m a = m.live a
IsMade-live optimal_list sz n [] rest s₀ p s (h, e) m a = absurd m
IsMade-live optimal_list sz n (b ∷ []) rest s₀ p s (h, e) m a = m.taken.live a ∙ ground arith
IsMade-live optimal_list sz n (b ∷ c ∷ bs) rest s₀ p s (h, e) m a = absurd (omega arith)
IsMade-live optimal_btree sz n [] rest s₀ p s (h, e) m a = absurd m
IsMade-live optimal_btree sz n (b ∷ []) rest s₀ p s (h, e) m a = m.taken.live a ∙ ground arith
IsMade-live optimal_btree sz n (b ∷ c ∷ bs) rest s₀ p s (h, e) m a = absurd (omega arith)
IsMade-live false_sharing sz n blocks rest s₀ p s h m a = absurd m
IsMade-live optimal_false_sharing sz n blocks rest s₀ p s h m a = absurd m
