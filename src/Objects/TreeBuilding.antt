-- ===== src/Objects/TreeBuilding.antt =====
-- `build_tree_recursion` of src/lifetime-size-classes.c.
use mathlib.Core.Path.{ap₂}
use mathlib.Core.List.{append_assoc}
use acdc.Base.{
  ℕ, zero, suc, ◌+◌, ◌-◌, ◌/◌, ◌≤◌, ◌<◌, ◌≡◌, refl, true, false, Bool, List, [], ◌∷◌, ◌++◌, arith,
  has, ◌∉◌, Distinct, ap, ◌==◌, ◌∙◌, sym, length, ◌||◌, subst, has-append, length-append,
  if◌then◌else◌,
}
use acdc.Base.Run.{Returns, Returns-bind}
use acdc.Types.{Ptr, null}
use acdc.Store.{Store, update_ptr}
use acdc.Objects.{build_tree_recursion}
use acdc.Objects.Lists.{allocate-cons, store0-ok}
use acdc.Objects.Trees.{
  leaf, node, length-preorder, IsTree-frame, IsBuilt, Separate, separate, parts_out, store1-ok,
}

-- A list in two parts, of which the first has `n` elements.
record Parts (n : ℕ) (xs : List Ptr) : Type 0 where
  front : List Ptr
  back : List Ptr
  whole : xs ≡ front ++ back
  size : length front ≡ n

parts : (n : ℕ) (xs : List Ptr) → n ≤ length xs → Parts n xs
parts zero xs h = record { front = []; back = xs; whole = refl; size = refl }
parts (suc n) [] h = absurd (omega arith)
parts (suc n) (x ∷ xs) h =
    let r = parts n xs (omega arith) in
    record {
      front = x ∷ r.front;
      back = r.back;
      whole = ap (λ ys. x ∷ ys) r.whole;
      size = ap suc r.size;
    }

joined_live :
    (il ir ix b l h : Bool)
    → b ≡ (il || (if ix then true else l))
    → h ≡ (il || ir)
    → (ir || b) ≡ ((ix || h) || l)
joined_live true true true b l h e e' = ground arith
joined_live il ir ix b l h e e' = ground arith

joined_sizes :
    (il ir ix h : Bool) (sz b l : ℕ)
    → b ≡ (if il then sz else if ix then sz else l)
    → h ≡ (il || ir)
    → (if ir then sz else b) ≡ (if ix || h then sz else l)
joined_sizes true true ix h sz b l e e' = ground arith
joined_sizes true false ix h sz b l e e' = ground arith
joined_sizes false true ix h sz b l e e' = ground arith
joined_sizes false false ix h sz b l e e' = ground arith

-- Two built subtrees, linked to the object `x`, are a built tree.
joined :
    (sz : ℕ) (x : Ptr) (ls rs rest : List Ptr) (s s₁ sₗ sᵣ : Store) (p q : Ptr)
    → s₁.word0 ≡ s.word0
    → s₁.word1 ≡ s.word1
    → s₁.live ≡ update_ptr s.live x true
    → s₁.sizes ≡ update_ptr s.sizes x sz
    → IsBuilt sz ls (rs ++ rest) s₁ p sₗ
    → IsBuilt sz rs rest (record sₗ { word0 = update_ptr sₗ.word0 x p }) q sᵣ
    → Separate x ls rs
    → length ls ≤ length rs
    → length rs ≤ length ls + 1
    → IsBuilt sz (x ∷ ls ++ rs) rest s x (record sᵣ { word1 = update_ptr sᵣ.word1 x q })
joined sz x ls rs rest s s₁ sₗ sᵣ p q e0 e1 el es bl br sep le ge = record {
  tree = node x bl.tree br.tree;
  start = refl;
  linked = (
    br.outside0 x sep.x_right ∙ ground (arith, bl.start),
    ground (arith, br.start),
    IsTree-frame sₗ.word0 sₗ.word1 sᵣ.word0 (update_ptr sᵣ.word1 x q) bl.tree bl.linked (λ a i.
        let i' : has a ls ≡ true = subst (λ ys. has a ys ≡ true) bl.order i in
        let out = sep.cross a i' in
        let ne : (a == x) ≡ false = ground (arith, sep.x_left) in
        (br.outside0 a out ∙ rw ne, rw ne (br.outside1 a out))),
    IsTree-frame sᵣ.word0 sᵣ.word1 sᵣ.word0 (update_ptr sᵣ.word1 x q) br.tree br.linked (λ a i.
        let i' : has a rs ≡ true = subst (λ ys. has a ys ≡ true) br.order i in
        let ne : (a == x) ≡ false = ground (arith, sep.x_right) in (refl, rw ne)),
  );
  order = ap (λ ys. x ∷ ys) (ap₂ ◌++◌ bl.order br.order);
  balanced = (
    omega (
      arith,
      length-preorder bl.tree,
      length-preorder br.tree,
      ap length bl.order,
      ap length br.order,
    ),
    omega (
      arith,
      length-preorder bl.tree,
      length-preorder br.tree,
      ap length bl.order,
      ap length br.order,
    ),
    bl.balanced,
    br.balanced,
  );
  supply = br.supply;
  live = λ a.
      br.live a
      ∙ joined_live (has a ls) (has a rs) (a == x) (sₗ.live a) (s.live a) (has a (ls ++ rs))
          (bl.live a ∙ ap (λ (b : Bool). has a ls || b) (ap (λ (f : Ptr → Bool). f a) el))
          (has-append a ls rs);
  sizes = λ a.
      br.sizes a
      ∙ joined_sizes (has a ls) (has a rs) (a == x) (has a (ls ++ rs)) sz (sₗ.sizes a) (s.sizes a)
          (bl.sizes a ∙ ap (λ (m : ℕ). if has a ls then sz else m) (ap (λ (f : Ptr → ℕ). f a) es))
          (has-append a ls rs);
  outside0 = λ a o.
      let (ne, nl, nr) = parts_out a x ls rs o in
      br.outside0 a nr ∙ rw ne (bl.outside0 a nl ∙ ap (λ (f : Ptr → Ptr). f a) e0);
  outside1 = λ a o.
      let (ne, nl, nr) = parts_out a x ls rs o in
      rw ne (br.outside1 a nr ∙ bl.outside1 a nl ∙ ap (λ (f : Ptr → Ptr). f a) e1);
}

-- `build_tree_recursion` takes as many blocks of `sz` bytes from the allocator as it is asked for, and
-- links them to a balanced tree that holds them in preorder. The fuel is one more than the number of
-- objects.
pub build_tree_recursion-IsBuilt :
    (f sz n : ℕ) (xs rest : List Ptr) (s : Store)
    → 0 < sz
    → length xs ≡ n
    → s.supply ≡ xs ++ rest
    → Distinct xs
    → null ∉ xs
    → n < f
    → Returns (IsBuilt sz xs rest s) (build_tree_recursion f sz n s)
unfolding build_tree_recursion
build_tree_recursion-IsBuilt zero sz n xs rest s h len e d nn lt = absurd (omega arith)
build_tree_recursion-IsBuilt (suc f) sz n [] rest s h len e d nn lt =
    let none_left : (n == 0) ≡ true = ground arith in
    rw none_left (record {
      tree = leaf;
      start = refl;
      linked = tt;
      order = refl;
      balanced = tt;
      supply = e;
      live = λ a. refl;
      sizes = λ a. refl;
      outside0 = λ a o. refl;
      outside1 = λ a o. refl;
    })
build_tree_recursion-IsBuilt (suc f) sz n (x ∷ xs) rest s h len e d nn lt =
    let some_left : (n == 0) ≡ false = ground arith in
    let half = (n - 1) / 2 in
    let pt = parts half xs (omega arith) in
    let ls = pt.front in
    let rs = pt.back in
    let e' : s.supply ≡ x ∷ ls ++ (rs ++ rest) =
      e ∙ ap (λ ys. x ∷ ys ++ rest) pt.whole ∙ ap (λ ys. x ∷ ys) (append_assoc ls rs rest) in
    let sep = separate x ls rs (subst (λ ys. Distinct (x ∷ ys)) pt.whole d) in
    let whole_len : length xs ≡ length ls + length rs = ap length pt.whole ∙ length-append ls rs in
    let size_l = pt.size in
    let nx : (x == null) ≡ false = ground arith in
    let no_null : null ∉ (ls ++ rs) = subst (λ ys. null ∉ ys) pt.whole (ground arith) in
    let nl : null ∉ ls = ground (arith, has-append null ls rs) in
    let nr : null ∉ rs = ground (arith, has-append null ls rs) in
    let s₁ : Store = record s {
      live = update_ptr s.live x true;
      sizes = update_ptr s.sizes x sz;
      supply = ls ++ (rs ++ rest);
    } in
    rw (some_left, allocate-cons s sz x (ls ++ (rs ++ rest)) h e')
      (Returns-bind (IsBuilt sz (x ∷ xs) rest s) (build_tree_recursion f sz half s₁) _
        (build_tree_recursion-IsBuilt f sz half ls (rs ++ rest) s₁ h size_l refl sep.left nl
          (omega arith))
        λ p sₗ bl.
          let s₃ : Store = record sₗ { word0 = update_ptr sₗ.word0 x p } in
          rw (store0-ok sₗ x p nx) (
            Returns-bind (IsBuilt sz (x ∷ xs) rest s) (build_tree_recursion f sz (n - 1 - half) s₃)
              _
              (build_tree_recursion-IsBuilt f sz (n - 1 - half) rs rest s₃ h (omega arith) bl.supply
                sep.right nr (omega arith))
              λ q sᵣ br. rw (store1-ok sᵣ x q nx) (
                subst
                  (λ ys.
                    IsBuilt sz (x ∷ ys) rest s x (record sᵣ { word1 = update_ptr sᵣ.word1 x q }))
                  (sym pt.whole)
                  (joined sz x ls rs rest s s₁ sₗ sᵣ p q refl refl refl refl bl br sep (omega arith)
                    (omega arith)))))
