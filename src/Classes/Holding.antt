-- ===== src/Classes/Holding.antt =====
-- What a class of any type holds, however it was made, and how its objects are freed: the loop of
-- `deallocate_list`, `deallocate_subtree_recursion` and `deallocate` of src/lifetime-size-classes.c.
use acdc.Base.{
  ℕ, ◌+◌, ◌^◌, ◌<◌, true, false, List, [], ◌∷◌, ◌==◌, ◌≡◌, refl, sym, ◌∙◌, ap, subst, arith, has,
  ◌∉◌, Distinct, length,
}
use acdc.Base.Run.{Returns, Returns-mono}
use acdc.Types.{
  btree_type, Ptr, null, ClassType, list_type, optimal_list, optimal_btree, false_sharing,
  optimal_false_sharing, object_size, Chunk, GOptions,
}
use acdc.Store.{Store, deallocate}
use acdc.LifetimeClass.Linked.{head_or}
use acdc.Objects.{free_list, deallocate_subtree_recursion}
use acdc.Objects.Lists.{Chained, free_list-Returns, deallocate-ok}
use acdc.Objects.Trees.{Tree, IsTree, preorder, root, length-preorder}
use acdc.Objects.FreeTrees.{Freed, deallocate_subtree_recursion-Freed}

-- The objects of a class of that type, `n` of them, are in the blocks, the first one at `p`.
abbrev pub Holds : ClassType → ℕ → List Ptr → Ptr → Store → Type 0
Holds list_type n blocks p s =
    (p ≡ head_or null blocks) × (length blocks ≡ n) × Chained s.word0 blocks
Holds btree_type n blocks p s =
    (t : Tree) × (p ≡ root t)
    × (preorder t ≡ blocks)
    × (length blocks ≡ n)
    × IsTree s.word0 s.word1 t
Holds optimal_list n blocks p s = blocks ≡ p ∷ []
Holds optimal_btree n blocks p s = blocks ≡ p ∷ []
Holds false_sharing n blocks p s = ⊥
Holds optimal_false_sharing n blocks p s = ⊥

-- Different blocks, all of them allocated.
pub record AreLive (blocks : List Ptr) (s : Store) : Type 0 where
  pub distinct : Distinct blocks
  pub not_null : null ∉ blocks
  pub live : (a : Ptr) → has a blocks ≡ true → s.live a ≡ true

-- What a class records is true of its objects, and what the assertions ask for.
pub record IsOwner (g : GOptions) (s : Store) (blocks : List Ptr) (k : Chunk) : Type 0 where
  pub some_size : 0 < object_size k
  pub size : object_size k < 2 ^ g.max_object_sc
  pub some_object : 0 < k.num_objects
  pub blocks_live : AreLive blocks s
  pub holds : Holds k.type k.num_objects blocks k.start s

pub free_one :
    (p sz : ℕ) (blocks : List Ptr) (s : Store)
    → AreLive blocks s
    → blocks ≡ p ∷ []
    → Returns (λ _ s'. Freed blocks s s') (deallocate p sz s)
free_one p sz blocks s l e =
    let inside : has p blocks ≡ true = ap (has p) e ∙ ground arith in
    let np : (p == null) ≡ false = ground (arith, l.not_null, ap (has null) e) in
    rw (deallocate-ok s p sz np (l.live p inside), e)
      (record { live = λ a. ground arith; word0 = refl; word1 = refl; bytes = refl; supply = refl })

pub free_chain :
    (n sz p : ℕ) (blocks : List Ptr) (s : Store)
    → AreLive blocks s
    → Holds list_type n blocks p s
    → Returns (λ _ s'. Freed blocks s s') (free_list (n + 1) sz p s)
free_chain n sz p blocks s l (start, count, chained) = rw start (
    Returns-mono (λ _ s'. Freed blocks s s') (free_list (n + 1) sz (head_or null blocks) s)
      (free_list-Returns (n + 1) sz blocks s chained l.distinct l.not_null l.live (omega arith))
      λ _ s' (live, word0, word1, bytes, supply). record {
        live = live;
        word0 = word0;
        word1 = word1;
        bytes = bytes;
        supply = supply;
      })

pub free_tree :
    (n sz p : ℕ) (blocks : List Ptr) (s : Store)
    → AreLive blocks s
    → Holds btree_type n blocks p s
    → Returns (λ _ s'. Freed blocks s s') (deallocate_subtree_recursion (n + 1) p sz s)
free_tree n sz p blocks s l (t, start, order, count, linked) =
    let inside : (a : Ptr) → has a (preorder t) ≡ has a blocks = λ a. ap (has a) order in
    rw start (
      subst
        (λ bs. Returns (λ _ s'. Freed bs s s') (deallocate_subtree_recursion (n + 1) (root t) sz s))
        order
        (deallocate_subtree_recursion-Freed (n + 1) sz t s linked
          (subst Distinct (sym order) l.distinct) (inside null ∙ l.not_null)
          (λ a i. l.live a (sym (inside a) ∙ i))
          (omega (arith, count, length-preorder t, ap length order))))
