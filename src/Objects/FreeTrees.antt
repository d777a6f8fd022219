-- ===== src/Objects/FreeTrees.antt =====
-- `deallocate_subtree_recursion` of src/lifetime-size-classes.c, and a tree built and freed.
use acdc.Base.{
  ℕ, zero, suc, ◌<◌, ◌≡◌, refl, true, false, Bool, List, ◌++◌, arith, has, ◌∉◌, Distinct, ap, ◌==◌,
  ◌∙◌, ◌||◌, has-append, if◌then◌else◌,
}
use acdc.Base.Run.{Returns, Returns-bind}
use acdc.Types.{Ptr, null}
use acdc.Store.{Store}
use acdc.Objects.{deallocate_subtree_recursion}
use acdc.Objects.Lists.{load0-ok, deallocate-ok}
use acdc.Objects.Trees.{
  Tree, leaf, node, root, preorder, size, IsTree, IsTree-frame, left_in, right_in, cross_back,
  separate, parts_out, load1-ok,
}

-- The objects `xs` are freed, and nothing else is changed.
pub record Freed (xs : List Ptr) (s s' : Store) : Type 0 where
  pub live : (a : Ptr) → s'.live a ≡ (if has a xs then false else s.live a)
  pub word0 : s'.word0 ≡ s.word0
  pub word1 : s'.word1 ≡ s.word1
  pub bytes : s'.bytes ≡ s.bytes
  pub supply : s'.supply ≡ s.supply

freed_live :
    (ix il ir l l₁ l₂ l₃ h : Bool)
    → l₁ ≡ (if il then false else l)
    → l₂ ≡ (if ir then false else l₁)
    → l₃ ≡ (if ix then false else l₂)
    → h ≡ (il || ir)
    → l₃ ≡ (if ix || h then false else l)
freed_live true true true l l₁ l₂ l₃ h p q r e = ground arith
freed_live ix il ir l l₁ l₂ l₃ h p q r e = ground arith

-- Every object of the tree is freed once, children before parents, and nothing else: no double free
-- and no leak. The fuel is one more than the number of objects.
pub deallocate_subtree_recursion-Freed :
    (f sz : ℕ) (t : Tree) (s : Store)
    → IsTree s.word0 s.word1 t
    → Distinct (preorder t)
    → null ∉ preorder t
    → ((a : Ptr) → has a (preorder t) ≡ true → s.live a ≡ true)
    → size t < f
    → Returns (λ _ s'. Freed (preorder t) s s') (deallocate_subtree_recursion f (root t) sz s)
unfolding deallocate_subtree_recursion
deallocate_subtree_recursion-Freed zero sz t s i d nn alive lt = absurd (omega arith)
deallocate_subtree_recursion-Freed (suc f) sz leaf s i d nn alive lt = record {
  live = λ a. refl;
  word0 = refl;
  word1 = refl;
  bytes = refl;
  supply = refl;
}
deallocate_subtree_recursion-Freed (suc f) sz (node x l r) s i d nn alive lt =
    let nx : (x == null) ≡ false = ground arith in
    let sep = separate x (preorder l) (preorder r) d in
    let (_, nl, nr) = parts_out null x (preorder l) (preorder r) nn in
    let alive_l : (a : Ptr) → has a (preorder l) ≡ true → s.live a ≡ true =
      λ a h. alive a (left_in a x (preorder l) (preorder r) h) in
    let alive_r : (a : Ptr) → has a (preorder r) ≡ true → s.live a ≡ true =
      λ a h. alive a (right_in a x (preorder l) (preorder r) h) in
    rw (nx, load0-ok s x nx, i.0)
      (Returns-bind _ (deallocate_subtree_recursion f (root l) sz s) _
        (deallocate_subtree_recursion-Freed f sz l s i.2 sep.left nl alive_l (omega arith))
        λ _ s₁ fl.
          rw (load1-ok s₁ x nx, ap (λ (w : Ptr → Ptr). w x) fl.word1 ∙ i.1)
            (Returns-bind _ (deallocate_subtree_recursion f (root r) sz s₁) _
              (deallocate_subtree_recursion-Freed f sz r s₁
                (IsTree-frame s.word0 s.word1 s₁.word0 s₁.word1 r i.3 (λ a _.
                  (ap (λ (w : Ptr → Ptr). w a) fl.word0, ap (λ (w : Ptr → Ptr). w a) fl.word1)))
                sep.right nr
                (λ a h.
                  fl.live a ∙ rw (cross_back x a (preorder l) (preorder r) sep h) (alive_r a h))
                (omega arith))
              λ _ s₂ fr.
                rw
                  (deallocate-ok s₂ x sz nx (
                    fr.live x
                    ∙ rw sep.x_right (fl.live x ∙ rw sep.x_left (alive x (ground arith)))))
                  (record {
                    live = λ a.
                        freed_live (a == x) (has a (preorder l)) (has a (preorder r)) (s.live a)
                          (s₁.live a) (s₂.live a) (if a == x then false else s₂.live a)
                          (has a (preorder l ++ preorder r)) (fl.live a) (fr.live a) refl
                          (has-append a (preorder l) (preorder r));
                    word0 = fr.word0 ∙ fl.word0;
                    word1 = fr.word1 ∙ fl.word1;
                    bytes = fr.bytes ∙ fl.bytes;
                    supply = fr.supply ∙ fl.supply;
                  })))
