-- ===== src/Objects/Trees.antt =====
-- Trees of objects of their own (`allocate_btree`, `deallocate_btree` of
-- src/lifetime-size-classes.c).
use acdc.Base.{
  ℕ, suc, ◌+◌, ◌≤◌, ◌≡◌, refl, true, false, List, [], ◌∷◌, ◌++◌, arith, has, ◌∉◌, Distinct,
  Bool-cases, inl, inr, ◌==◌, ◌∙◌, length, ◌||◌, if◌then◌else◌, has-append, length-append,
}
use acdc.Base.Run.{ok}
use acdc.Types.{Ptr, null}
use acdc.Store.{Store, load1, store1, update_ptr}

-- The tree that the objects stand for.
pub data Tree : Type 0 where
  leaf : Tree
  node : Ptr → Tree → Tree → Tree

abbrev pub root : Tree → Ptr
root leaf = null
root (node x l r) = x

abbrev pub preorder : Tree → List Ptr
preorder leaf = []
preorder (node x l r) = x ∷ preorder l ++ preorder r

abbrev pub size : Tree → ℕ
size leaf = 0
size (node x l r) = suc (size l + size r)

-- The right subtree of every node has as many nodes as the left one, or one more.
abbrev pub IsBalanced : Tree → Type 0
IsBalanced leaf = Unit
IsBalanced (node x l r) = (size l ≤ size r) × (size r ≤ size l + 1) × IsBalanced l × IsBalanced r

-- The words `v` and `w` lead from each object to its children.
abbrev pub IsTree : (Ptr → Ptr) → (Ptr → Ptr) → Tree → Type 0
IsTree v w leaf = Unit
IsTree v w (node x l r) = (v x ≡ root l) × (w x ≡ root r) × IsTree v w l × IsTree v w r

pub length-preorder : (t : Tree) → length (preorder t) ≡ size t
length-preorder leaf = refl
length-preorder (node x l r) =
    omega (arith, length-append (preorder l) (preorder r), length-preorder l, length-preorder r)

pub IsTree-frame :
    (v w v' w' : Ptr → Ptr) (t : Tree)
    → IsTree v w t
    → ((a : Ptr) → has a (preorder t) ≡ true → (v' a ≡ v a) × (w' a ≡ w a))
    → IsTree v' w' t
IsTree-frame v w v' w' leaf i same = tt
IsTree-frame v w v' w' (node x l r) i same =
    let here = same x (ground arith) in
    (
      here.0 ∙ i.0,
      here.1 ∙ i.1,
      IsTree-frame v w v' w' l i.2
          (λ a h. same a (ground (arith, has-append a (preorder l) (preorder r)))),
      IsTree-frame v w v' w' r i.3
          (λ a h. same a (ground (arith, has-append a (preorder l) (preorder r)))),
    )

module _ (s : Store) where
  pub store1-ok :
      (p v : Ptr)
      → (p == null) ≡ false
      → store1 p v s ≡ ok tt (record s { word1 = update_ptr s.word1 p v })
  unfolding store1
  store1-ok p v nn = rw nn

  pub load1-ok : (p : Ptr) → (p == null) ≡ false → load1 p s ≡ ok (s.word1 p) s
  unfolding load1
  load1-ok p nn = rw nn

-- A balanced tree of the addresses `xs`, blocks of `sz` bytes, in preorder.
pub record IsBuilt (sz : ℕ) (xs rest : List Ptr) (s : Store) (p : Ptr) (s' : Store) : Type 0 where
  pub tree : Tree
  pub start : p ≡ root tree
  pub linked : IsTree s'.word0 s'.word1 tree
  pub order : preorder tree ≡ xs
  pub balanced : IsBalanced tree
  pub supply : s'.supply ≡ rest
  pub live : (a : Ptr) → s'.live a ≡ (has a xs || s.live a)
  pub sizes : (a : Ptr) → s'.sizes a ≡ (if has a xs then sz else s.sizes a)
  pub outside0 : (a : Ptr) → a ∉ xs → s'.word0 a ≡ s.word0 a
  pub outside1 : (a : Ptr) → a ∉ xs → s'.word1 a ≡ s.word1 a

-- What the parts of `x ∷ ls ++ rs` without repetition are to each other.
pub record Separate (x : Ptr) (ls rs : List Ptr) : Type 0 where
  pub x_left : x ∉ ls
  pub x_right : x ∉ rs
  pub left : Distinct ls
  pub right : Distinct rs
  pub cross : (a : Ptr) → has a ls ≡ true → a ∉ rs

pub separate : (x : Ptr) (ls rs : List Ptr) → Distinct (x ∷ ls ++ rs) → Separate x ls rs
separate x [] rs d = record {
  x_left = refl;
  x_right = d.0;
  left = tt;
  right = d.1;
  cross = λ a i. cc;
}
separate x (l ∷ ls) rs d =
    let r = separate x ls rs (ground arith, d.1.1) in
    let out = d.1.0 in
    record {
      x_left = ground (arith, r.x_left);
      x_right = r.x_right;
      left = (ground (arith, has-append l ls rs), r.left);
      right = r.right;
      cross = λ a i. ground (arith, r.cross a, has-append l ls rs);
    }

pub parts_out :
    (a x : Ptr) (ls rs : List Ptr) → a ∉ (x ∷ ls ++ rs) → ((a == x) ≡ false) × (a ∉ ls) × (a ∉ rs)
parts_out a x ls rs o =
    (ground arith, ground (arith, has-append a ls rs), ground (arith, has-append a ls rs))

pub left_in : (a x : Ptr) (ls rs : List Ptr) → has a ls ≡ true → has a (x ∷ ls ++ rs) ≡ true
left_in a x ls rs i = ground (arith, has-append a ls rs)

pub right_in : (a x : Ptr) (ls rs : List Ptr) → has a rs ≡ true → has a (x ∷ ls ++ rs) ≡ true
right_in a x ls rs i = ground (arith, has-append a ls rs)

pub cross_back : (x a : Ptr) (ls rs : List Ptr) → Separate x ls rs → has a rs ≡ true → a ∉ ls
cross_back x a ls rs sep i = elim (Bool-cases (has a ls)) [
  | inl in_left ↦ absurd (ground (arith, sep.cross a in_left))
  | inr out ↦ out
]
