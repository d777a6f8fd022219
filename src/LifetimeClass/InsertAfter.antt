-- ===== src/LifetimeClass/InsertAfter.antt =====
-- `lclass_insert_after`: the new node follows the given one.
use acdc.Base.{
  Distinct-insert_after, has-append, ◌≡◌, refl, true, false, List, [], ◌∷◌, ◌++◌, arith, has, ◌∉◌,
  ap, ◌==◌, Apart, Distinct-split, ◌∙◌, sym,
}
use acdc.Base.Run.{Returns-mono, Returns}
use acdc.Types.{Ptr, null, Heap, LClass}
use acdc.LifetimeClass.{with_next, with_prev, lclass_insert_after}
use acdc.LifetimeClass.Stores.{load-ok, set_prev-ok, set_next-ok}
use acdc.LifetimeClass.Linked.{
  SameLinks-of_eq, OnlyLinks-mono, head_or-append, head_or, last_or, Linked, IsDll, OnlyLinks,
  Linked-frame, Linked-split, Linked-join, last_or-append,
}

-- What the stores leave behind when `c` is put behind `a`.
pub record Stored (h : Heap) (a c : Ptr) (g : Heap) : Type 0 where
  pub a_prev : (g a).prev ≡ (h a).prev
  pub a_next : (g a).next ≡ c
  pub c_prev : (g c).prev ≡ a
  pub c_next : (g c).next ≡ (h a).next

module _ (h : Heap) (l : LClass) (a c : Ptr) (na : (a == null) ≡ false) (nc : (c == null) ≡ false)
    (ac : (a == c) ≡ false) where
  -- The node `a` is the last one.
  pub at_end :
      (h a).next ≡ null
      → Returns
          (λ l' g. (l' ≡ record l { last = c }) × Stored h a c g × OnlyLinks (a ∷ c ∷ []) h g)
          (lclass_insert_after l a c h)
  unfolding lclass_insert_after
  at_end end =
      let h₁ = with_prev h c a in
      let h₂ = with_next h₁ c (h₁ a).next in
      let last : ((h₂ a).next == null) ≡ true = unfold with_prev with_next in ground arith in
      rw
        (
          set_prev-ok c h nc a,
          load-ok a h₁ na,
          set_next-ok c h₁ nc (h₁ a).next,
          load-ok a h₂ na,
          last,
          set_next-ok a h₂ na c,
        )
        (
          refl,
          unfold with_prev with_next in ground arith,
          unfold with_prev with_next in
              record {
                outside = λ b o. ground arith;
                ls_class = λ b. ground arith;
                num_objects = λ b. ground arith;
                type = λ b. ground arith;
                start = λ b. ground arith;
              },
        )

  -- The node `n` follows `a`.
  in_middle :
      (n : Ptr)
      → (h a).next ≡ n
      → (n == null) ≡ false
      → (n == c) ≡ false
      → (n == a) ≡ false
      → Returns
          (λ l' g.
            (l' ≡ l)
            × Stored h a c g
            × ((g n).prev ≡ c)
            × ((g n).next ≡ (h n).next)
            × OnlyLinks (a ∷ c ∷ n ∷ []) h g)
          (lclass_insert_after l a c h)
  unfolding lclass_insert_after
  in_middle n follows nn nec nea =
      let h₁ = with_prev h c a in
      let h₂ = with_next h₁ c (h₁ a).next in
      let h₃ = with_prev h₂ n c in
      let next : (h₂ a).next ≡ n = unfold with_prev with_next in ground arith in
      rw
        (
          set_prev-ok c h nc a,
          load-ok a h₁ na,
          set_next-ok c h₁ nc (h₁ a).next,
          load-ok a h₂ na,
          next,
          nn,
          set_prev-ok n h₂ nn c,
          set_next-ok a h₃ na c,
        )
        (
          refl,
          unfold with_prev with_next in ground arith,
          unfold with_prev with_next in ground arith,
          unfold with_prev with_next in ground arith,
          unfold with_prev with_next in
              record {
                outside = λ b o. ground arith;
                ls_class = λ b. ground arith;
                num_objects = λ b. ground arith;
                type = λ b. ground arith;
                start = λ b. ground arith;
              },
        )

module _ (h : Heap) (l : LClass) (xs : List Ptr) (a : Ptr) (ys : List Ptr) (c : Ptr)
    (dll : IsDll h l (xs ++ a ∷ ys)) (nc : (c == null) ≡ false) (new : c ∉ (xs ++ a ∷ ys)) where
  abbrev links : Linked h null xs a × Linked h (last_or null xs) (a ∷ ys) null
  links = Linked-split h null xs (a ∷ ys) null dll.linked

  apart : Apart xs a ys
  apart = Distinct-split xs a ys dll.distinct

  -- What was linked stays linked, and the new node takes its place behind `a`.
  linked_after :
      (g : Heap)
      → Stored h a c g
      → ((b : Ptr) → has b xs ≡ true → g b ≡ h b)
      → Linked g c ys null
      → Linked g null (xs ++ a ∷ c ∷ ys) null
  linked_after g s same rest =
      Linked-join g null xs (a ∷ c ∷ ys) null
        (Linked-frame h g null xs a links.0 (λ b i. SameLinks-of_eq h g b (same b i)))
        (s.a_prev ∙ links.1.0, s.a_next, (s.c_prev, s.c_next ∙ links.1.1, rest))

  outside_list : (b : Ptr) → has b xs ≡ true → ((b == a) ≡ false) × ((b == c) ≡ false) × (b ∉ ys)
  outside_list b i = (
    ground (arith, apart.not_left),
    ground (arith, new, has-append c xs (a ∷ ys)),
    apart.cross b i,
  )

  first_after : head_or null (xs ++ a ∷ c ∷ ys) ≡ l.first
  first_after =
      head_or-append null xs (a ∷ c ∷ ys) ∙ sym (head_or-append null xs (a ∷ ys)) ∙ sym dll.first

  no_null : null ∉ (xs ++ a ∷ c ∷ ys)
  no_null =
      ground (arith, dll.not_null, has-append null xs (a ∷ ys), has-append null xs (a ∷ c ∷ ys))

  a_not_null : (a == null) ≡ false
  a_not_null = ground (arith, dll.not_null, has-append null xs (a ∷ ys))

  a_ne_c : (a == c) ≡ false
  a_ne_c = ground (arith, new, has-append c xs (a ∷ ys))

-- What the stores at a place between two nodes need.
pub record Between (h : Heap) (a y c : Ptr) : Type 0 where
  pub na : (a == null) ≡ false
  pub nc : (c == null) ≡ false
  pub ac : (a == c) ≡ false
  pub ny : (y == null) ≡ false
  pub yc : (y == c) ≡ false
  pub ya : (y == a) ≡ false
  pub follows : (h a).next ≡ y
  pub precedes : (h y).prev ≡ a

module _ (h : Heap) (l : LClass) (xs : List Ptr) (a y : Ptr) (ys : List Ptr) (c : Ptr)
    (dll : IsDll h l (xs ++ a ∷ y ∷ ys)) (nc : (c == null) ≡ false)
    (new : c ∉ (xs ++ a ∷ y ∷ ys)) where
  pub between : Between h a y c
  between =
      let part = apart h l xs a (y ∷ ys) c dll nc new in
      let at = (links h l xs a (y ∷ ys) c dll nc new).1 in
      record {
        na = a_not_null h l xs a (y ∷ ys) c dll nc new;
        nc = nc;
        ac = a_ne_c h l xs a (y ∷ ys) c dll nc new;
        ny = ground (arith, dll.not_null, has-append null xs (a ∷ y ∷ ys));
        yc = ground (arith, new, has-append c xs (a ∷ y ∷ ys));
        ya = ground (arith, part.not_right);
        follows = at.1;
        precedes = at.2.0;
      }

  -- With the links of the new node and of its neighbours set, the new node stands between them.
  pub between-IsDll :
      (l' : LClass) (g : Heap)
      → l' ≡ l
      → Stored h a c g
      → (g y).prev ≡ c
      → (g y).next ≡ (h y).next
      → OnlyLinks (a ∷ c ∷ y ∷ []) h g
      → IsDll g l' (xs ++ a ∷ c ∷ y ∷ ys) × OnlyLinks (a ∷ c ∷ y ∷ ys) h g
  between-IsDll l' g e s back forth only =
      let (yb, yf, rest) = (links h l xs a (y ∷ ys) c dll nc new).1.2 in
      let part = apart h l xs a (y ∷ ys) c dll nc new in
      let c_out : c ∉ ys = ground (arith, new, has-append c xs (a ∷ y ∷ ys)) in
      (
        record {
          first = ap (λ (r : LClass). r.first) e ∙ sym (first_after h l xs a (y ∷ ys) c dll nc new);
          last =
              ap (λ (r : LClass). r.last) e
              ∙ dll.last
              ∙ last_or-append null xs (a ∷ y ∷ ys)
              ∙ sym (last_or-append null xs (a ∷ c ∷ y ∷ ys));
          linked =
              linked_after h l xs a (y ∷ ys) c dll nc new g s
                (λ b i.
                  only.outside b (ground (arith, outside_list h l xs a (y ∷ ys) c dll nc new b i)))
                (
                  back,
                  forth ∙ yf,
                  Linked-frame h g y ys null rest (λ b i.
                      SameLinks-of_eq h g b
                        (only.outside b (ground (arith, part.not_right, part.right)))),
                );
          distinct = Distinct-insert_after xs a (y ∷ ys) c dll.distinct new;
          not_null = no_null h l xs a (y ∷ ys) c dll nc new;
        },
        OnlyLinks-mono (a ∷ c ∷ y ∷ []) (a ∷ c ∷ y ∷ ys) h g (λ b o. ground arith) only,
      )

-- The new node `c` follows `a` in the list, and only the links of `a`, `c` and the nodes behind `a`
-- change.
pub lclass_insert_after-IsDll :
    (h : Heap) (l : LClass) (xs : List Ptr) (a : Ptr) (ys : List Ptr) (c : Ptr)
    → IsDll h l (xs ++ a ∷ ys)
    → (c == null) ≡ false
    → c ∉ (xs ++ a ∷ ys)
    → Returns
        (λ l' g. IsDll g l' (xs ++ a ∷ c ∷ ys) × OnlyLinks (a ∷ c ∷ ys) h g)
        (lclass_insert_after l a c h)
lclass_insert_after-IsDll h l xs a [] c dll nc new =
    let end = (links h l xs a [] c dll nc new).1.1 in
    let na = a_not_null h l xs a [] c dll nc new in
    let ac = a_ne_c h l xs a [] c dll nc new in
    Returns-mono _ (lclass_insert_after l a c h) (at_end h l a c na nc ac end) λ l' g (e, s, only).
      (
        record {
          first = ap (λ (r : LClass). r.first) e ∙ sym (first_after h l xs a [] c dll nc new);
          last = ap (λ (r : LClass). r.last) e ∙ sym (last_or-append null xs (a ∷ c ∷ []));
          linked =
              linked_after h l xs a [] c dll nc new g s
                (λ b i. only.outside b (ground (arith, outside_list h l xs a [] c dll nc new b i)))
                tt;
          distinct = Distinct-insert_after xs a [] c dll.distinct new;
          not_null = no_null h l xs a [] c dll nc new;
        },
        only,
      )
lclass_insert_after-IsDll h l xs a (y ∷ ys) c dll nc new =
    let b = between h l xs a y ys c dll nc new in
    Returns-mono _ (lclass_insert_after l a c h)
      (in_middle h l a c b.na b.nc b.ac y b.follows b.ny b.yc b.ya)
      λ l' g (e, s, back, forth, only).
        between-IsDll h l xs a y ys c dll nc new l' g e s back forth only
