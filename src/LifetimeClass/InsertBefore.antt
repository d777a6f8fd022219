-- ===== src/LifetimeClass/InsertBefore.antt =====
-- `lclass_insert_before`: the new node precedes the given one.
use acdc.Base.{◌≡◌, refl, true, false, List, [], ◌∷◌, ◌++◌, arith, ◌∉◌, ap, ◌==◌, ◌∙◌}
use acdc.Base.Run.{Returns, Returns-mono}
use acdc.Types.{Ptr, null, Heap, LClass}
use acdc.LifetimeClass.{lclass_insert_before, with_prev, with_next}
use acdc.LifetimeClass.Stores.{load-ok, set_prev-ok, set_next-ok}
use acdc.LifetimeClass.Linked.{IsDll, OnlyLinks, OnlyLinks-mono, SameLinks-of_eq, Linked-frame}
use acdc.LifetimeClass.InsertAfter.{Stored, Between, between, between-IsDll}

-- What the stores leave behind when `c` is put before the first node `b`.
record Pushed (h : Heap) (b c : Ptr) (g : Heap) : Type 0 where
  b_prev : (g b).prev ≡ c
  b_next : (g b).next ≡ (h b).next
  c_prev : (g c).prev ≡ null
  c_next : (g c).next ≡ b

at_start :
    (h : Heap) (l : LClass) (b c : Ptr)
    → (b == null) ≡ false
    → (c == null) ≡ false
    → (b == c) ≡ false
    → (h b).prev ≡ null
    → Returns
        (λ l' g. (l' ≡ record l { first = c }) × Pushed h b c g × OnlyLinks (c ∷ b ∷ []) h g)
        (lclass_insert_before l b c h)
unfolding lclass_insert_before
at_start h l b c nb nc bc start =
    let h₁ = with_prev h c (h b).prev in
    let h₂ = with_next h₁ c b in
    let first : ((h₂ b).prev == null) ≡ true = unfold with_prev with_next in ground arith in
    rw
      (
        load-ok b h nb,
        set_prev-ok c h nc (h b).prev,
        set_next-ok c h₁ nc b,
        load-ok b h₂ nb,
        first,
        set_prev-ok b h₂ nb c,
      )
      (
        refl,
        unfold with_prev with_next in ground arith,
        unfold with_prev with_next in
            record {
              outside = λ x o. ground arith;
              ls_class = λ x. ground arith;
              num_objects = λ x. ground arith;
              type = λ x. ground arith;
              start = λ x. ground arith;
            },
      )

in_middle :
    (h : Heap) (l : LClass) (a b c : Ptr)
    → Between h a b c
    → Returns
        (λ l' g.
          (l' ≡ l)
          × Stored h a c g
          × ((g b).prev ≡ c)
          × ((g b).next ≡ (h b).next)
          × OnlyLinks (a ∷ c ∷ b ∷ []) h g)
        (lclass_insert_before l b c h)
unfolding lclass_insert_before
in_middle h l a b c s =
    let h₁ = with_prev h c (h b).prev in
    let h₂ = with_next h₁ c b in
    let h₃ = with_next h₂ a c in
    let prev : (h₂ b).prev ≡ a =
      let e = s.precedes in let n = s.yc in unfold with_prev with_next in ground arith in
    rw
      (
        load-ok b h s.ny,
        set_prev-ok c h s.nc (h b).prev,
        set_next-ok c h₁ s.nc b,
        load-ok b h₂ s.ny,
        prev,
        s.na,
        set_next-ok a h₂ s.na c,
        set_prev-ok b h₃ s.ny c,
      )
      (
        refl,
        unfold with_prev with_next in ground arith,
        unfold with_prev with_next in ground arith,
        unfold with_prev with_next in ground arith,
        unfold with_prev with_next in
            record {
              outside = λ x o. ground arith;
              ls_class = λ x. ground arith;
              num_objects = λ x. ground arith;
              type = λ x. ground arith;
              start = λ x. ground arith;
            },
      )

-- Before the first node the new node becomes the first one.
pub lclass_insert_before-first :
    (h : Heap) (l : LClass) (b : Ptr) (ys : List Ptr) (c : Ptr)
    → IsDll h l (b ∷ ys)
    → (c == null) ≡ false
    → c ∉ (b ∷ ys)
    → Returns
        (λ l' g. IsDll g l' (c ∷ b ∷ ys) × OnlyLinks (c ∷ b ∷ ys) h g)
        (lclass_insert_before l b c h)
lclass_insert_before-first h l b ys c dll nc new =
    let (bp, bn, rest) = dll.linked in
    let nb : (b == null) ≡ false = ground (arith, dll.not_null) in
    let bc : (b == c) ≡ false = ground arith in
    Returns-mono _ (lclass_insert_before l b c h) (at_start h l b c nb nc bc bp)
      λ l' g (e, s, only). (
        record {
          first = ap (λ (r : LClass). r.first) e;
          last = ap (λ (r : LClass). r.last) e ∙ dll.last;
          linked = (
            s.c_prev,
            s.c_next,
            (
              s.b_prev,
              s.b_next ∙ bn,
              Linked-frame h g b ys null rest
                  (λ x i. SameLinks-of_eq h g x (only.outside x (ground (arith, dll.distinct)))),
            ),
          );
          distinct = (new, dll.distinct);
          not_null = ground (arith, dll.not_null);
        },
        OnlyLinks-mono (c ∷ b ∷ []) (c ∷ b ∷ ys) h g (λ x o. ground arith) only,
      )

-- Behind another node the new node stands between the two.
pub lclass_insert_before-middle :
    (h : Heap) (l : LClass) (xs : List Ptr) (a b : Ptr) (ys : List Ptr) (c : Ptr)
    → IsDll h l (xs ++ a ∷ b ∷ ys)
    → (c == null) ≡ false
    → c ∉ (xs ++ a ∷ b ∷ ys)
    → Returns
        (λ l' g. IsDll g l' (xs ++ a ∷ c ∷ b ∷ ys) × OnlyLinks (a ∷ c ∷ b ∷ ys) h g)
        (lclass_insert_before l b c h)
lclass_insert_before-middle h l xs a b ys c dll nc new =
    Returns-mono _ (lclass_insert_before l b c h)
      (in_middle h l a b c (between h l xs a b ys c dll nc new))
      λ l' g (e, s, back, forth, only).
        between-IsDll h l xs a b ys c dll nc new l' g e s back forth only
