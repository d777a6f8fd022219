-- ===== src/Objects/TreeTraversal.antt =====
-- Traversals of trees of objects (`btree_preorder_recursion` of src/lifetime-size-classes.c).
use acdc.Base.{
  ap, ℕ, zero, suc, ◌^◌, ◌≤◌, ◌<◌, Bool, true, false, List, [], ◌∷◌, ◌++◌, ◌==◌, if◌then◌else◌, ◌≡◌,
  refl, sym, ◌∙◌, arith, ◌∉◌, has-append, Bool-cases, inl, inr,
}
use mathlib.Core.Path.{ap₂}
use acdc.Base.Run.{ok}
use acdc.Types.{Ptr, null, GOptions, sizeof_bt_object}
use acdc.Store.{Store}
use acdc.Objects.{write_ith_element, btree_preorder_recursion}
use acdc.Objects.Lists.{load0-ok}
use acdc.Objects.Trees.{load1-ok, Tree, leaf, node, root, preorder, size, IsTree}
use acdc.Objects.Writes.{overwritten, overwritten-append, filled_times, write_if_lem}

-- The objects of a tree, each before its right subtree and that before its left one.
abbrev pub right_first : Tree → List Ptr
right_first leaf = []
right_first (node x l r) = x ∷ right_first r ++ right_first l

-- The objects that are written, when every test at the start of a call comes out as `b`.
abbrev pub written_if : Bool → Tree → List Ptr
written_if b leaf = []
written_if b (node x l r) =
    if b then x ∷ written_if b r ++ written_if b l else written_if b r ++ written_if b l

node_not_null :
    (x : Ptr) (ls rs : List Ptr)
    → null ∉ (x ∷ ls ++ rs)
    → ((x == null) ≡ false) × (null ∉ ls) × (null ∉ rs)
node_not_null x ls rs nn =
    let split = has-append null ls rs in
    (ground arith, ground (arith, split), ground (arith, split))

-- The bytes after the objects `xs` of a tree are written.
abbrev tree_bytes : GOptions → ℕ → List Ptr → (ℕ → ℕ) → ℕ → ℕ
tree_bytes g sz xs bytes = overwritten g.write_iterations sz sizeof_bt_object xs bytes

parts_written :
    (b : Bool) (g : GOptions) (sz : ℕ) (x : Ptr) (ls rs : List Ptr) (bytes : ℕ → ℕ)
    → tree_bytes g sz ls (tree_bytes g sz rs (tree_bytes g sz (if b then x ∷ [] else []) bytes))
      ≡ tree_bytes g sz (if b then x ∷ rs ++ ls else rs ++ ls) bytes
parts_written true g sz x ls rs bytes = sym (
    overwritten-append g.write_iterations sz sizeof_bt_object rs ls
      (filled_times g.write_iterations x sz sizeof_bt_object bytes))
parts_written false g sz x ls rs bytes =
    sym (overwritten-append g.write_iterations sz sizeof_bt_object rs ls bytes)

preorder-written :
    (g : GOptions) (f sz : ℕ) (t : Tree) (s : Store)
    → sizeof_bt_object ≤ sz
    → sz < 2 ^ 64
    → IsTree s.word0 s.word1 t
    → null ∉ preorder t
    → size t < f
    → btree_preorder_recursion g f (root t) sz s
      ≡ ok tt (record s {
        bytes = tree_bytes g sz (written_if (write_ith_element g.write_access_ratio 0) t) s.bytes;
      })
unfolding btree_preorder_recursion
preorder-written g zero sz t s large small i nn lt = absurd (omega arith)
preorder-written g (suc f) sz leaf s large small i nn lt = refl
preorder-written g (suc f) sz (node x l r) s large small i nn lt =
    let (nx, nl, nr) = node_not_null x (preorder l) (preorder r) nn in
    let b = write_ith_element g.write_access_ratio 0 in
    let s₁ : Store = record s { bytes = tree_bytes g sz (if b then x ∷ [] else []) s.bytes } in
    let s₂ : Store = record s₁ { bytes = tree_bytes g sz (written_if b r) s₁.bytes } in
    rw
      (
        nx,
        write_if_lem b g.write_iterations x sz sizeof_bt_object s large small,
        load1-ok s₁ x nx,
        i.1,
        preorder-written g f sz r s₁ large small i.3 nr (omega arith),
        load0-ok s₂ x nx,
        i.0,
        preorder-written g f sz l s₂ large small i.2 nl (omega arith),
      )
      (ap (λ (a : ℕ → ℕ). ok tt (record s { bytes = a }))
        (parts_written b g sz x (written_if b l) (written_if b r) s.bytes))

written_if-true : (t : Tree) → written_if true t ≡ right_first t
written_if-true leaf = refl
written_if-true (node x l r) =
    ap₂ (λ (rs ls : List Ptr). x ∷ rs ++ ls) (written_if-true r) (written_if-true l)

written_if-false : (t : Tree) → written_if false t ≡ []
written_if-false leaf = refl
written_if-false (node x l r) =
    ap₂ (λ (rs ls : List Ptr). rs ++ ls) (written_if-false r) (written_if-false l)

first_test : (ratio : ℕ) → write_ith_element ratio 0 ≡ (if ratio == 0 then false else true)
unfolding write_ith_element
first_test ratio = ground arith

-- A traversal of a tree ends, and writes either nothing, with a write access ratio of 0, or the payload of
-- every object of the tree, with any other ratio: each object before its right subtree, and that before
-- its left one. Each payload counts up from its first byte, if `write_iterations` is not 0. Nothing else
-- changes. The fuel is one more than the number of objects.
pub btree_preorder_recursion_lem :
    (g : GOptions) (f sz : ℕ) (t : Tree) (s : Store)
    → sizeof_bt_object ≤ sz
    → sz < 2 ^ 64
    → IsTree s.word0 s.word1 t
    → null ∉ preorder t
    → size t < f
    → btree_preorder_recursion g f (root t) sz s
      ≡ ok tt (record s {
        bytes =
            overwritten g.write_iterations sz sizeof_bt_object
              (if g.write_access_ratio == 0 then [] else right_first t)
              s.bytes;
      })
btree_preorder_recursion_lem g f sz t s large small i nn lt =
    preorder-written g f sz t s large small i nn lt
    ∙ ap
        (λ (xs : List Ptr).
          ok tt
            (record s { bytes = overwritten g.write_iterations sz sizeof_bt_object xs s.bytes }))
        (all_or_none g.write_access_ratio t)
  where
    all_or_none :
        (ratio : ℕ) (t : Tree)
        → written_if (write_ith_element ratio 0) t ≡ (if ratio == 0 then [] else right_first t)
    all_or_none ratio t = elim (Bool-cases (ratio == 0)) [
      | inl off ↦ rw (first_test ratio, off) (written_if-false t)
      | inr on ↦ rw (first_test ratio, on) (written_if-true t)
    ]
