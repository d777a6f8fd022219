-- ===== src/LifetimeClass/Remove.antt =====
-- `lclass_remove`: the list without the node, at each of its places.
use mathlib.Core.List.{append_assoc}
use acdc.Base.{
  ◌≡◌, refl, false, List, [], ◌∷◌, ◌++◌, arith, ◌∉◌, Distinct, ap, ◌==◌, ◌∙◌, sym, has-append,
  Apart, Distinct-split, Distinct-remove, subst,
}
use acdc.Base.Run.{Returns, Returns-mono}
use acdc.Types.{Ptr, null, Heap, LClass}
use acdc.LifetimeClass.{lclass_remove, with_prev, with_next}
use acdc.LifetimeClass.Linked.{
  head_or, last_or, Linked, IsDll, OnlyLinks, OnlyLinks-mono, Linked-frame, Linked-split,
  Linked-join, head_or-append, last_or-append, init, init-last,
}
use acdc.LifetimeClass.Taking.{take_only, take_first, take_last, take_middle}

OnlyLinks-refl : (xs : List Ptr) (h : Heap) → OnlyLinks xs h h
OnlyLinks-refl xs h = record {
  outside = λ a o. refl;
  ls_class = λ a. refl;
  num_objects = λ a. refl;
  type = λ a. refl;
  start = λ a. refl;
}

-- The first node is taken out.
pub lclass_remove-first :
    (h : Heap) (l : LClass) (c : Ptr) (ys : List Ptr)
    → IsDll h l (c ∷ ys)
    → Returns (λ l' g. IsDll g l' ys × OnlyLinks ys h g) (lclass_remove l c h)
lclass_remove-first h l c [] dll =
    let (p, n, _) = dll.linked in
    rw (take_only h l c (ground (arith, dll.not_null)) p n) (
      record { first = refl; last = refl; linked = tt; distinct = tt; not_null = refl },
      OnlyLinks-refl [] h,
    )
lclass_remove-first h l c (y ∷ ys) dll =
    let (p, n, (yp, yn, rest)) = dll.linked in
    let nc : (c == null) ≡ false = ground (arith, dll.not_null) in
    let ny : (y == null) ≡ false = ground (arith, dll.not_null) in
    let out = dll.distinct.1.0 in
    rw (take_first h l c y nc ny p n) (
      record {
        first = refl;
        last = dll.last;
        linked = (
          unfold with_prev in ground arith,
          unfold with_prev in ground arith,
          Linked-frame h (with_prev h y null) y ys null rest
              (λ b i. unfold with_prev in ground arith),
        );
        distinct = dll.distinct.1;
        not_null = ground (arith, dll.not_null);
      },
      unfold with_prev in
          record {
            outside = λ b o. ground arith;
            ls_class = λ b. ground arith;
            num_objects = λ b. ground arith;
            type = λ b. ground arith;
            start = λ b. ground arith;
          },
    )

module _ (h : Heap) (l : LClass) (xs : List Ptr) (a c : Ptr) (ys : List Ptr)
    (dll : IsDll h l (xs ++ a ∷ c ∷ ys)) where
  abbrev links : Linked h null xs a × Linked h (last_or null xs) (a ∷ c ∷ ys) null
  links = Linked-split h null xs (a ∷ c ∷ ys) null dll.linked

  apart : Apart xs a (c ∷ ys)
  apart = Distinct-split xs a (c ∷ ys) dll.distinct

  first_kept : l.first ≡ head_or null (xs ++ a ∷ ys)
  first_kept =
      dll.first ∙ head_or-append null xs (a ∷ c ∷ ys) ∙ sym (head_or-append null xs (a ∷ ys))

  na : (a == null) ≡ false
  na = ground (arith, dll.not_null, has-append null xs (a ∷ c ∷ ys))

  nc : (c == null) ≡ false
  nc = ground (arith, dll.not_null, has-append null xs (a ∷ c ∷ ys))

  no_null : null ∉ (xs ++ a ∷ ys)
  no_null =
      ground (arith, dll.not_null, has-append null xs (a ∷ c ∷ ys), has-append null xs (a ∷ ys))

  Distinct-kept : Distinct (xs ++ a ∷ ys)
  Distinct-kept = subst Distinct (append_assoc xs (a ∷ []) ys) (
      Distinct-remove (xs ++ a ∷ []) ys c
        (subst Distinct (sym (append_assoc xs (a ∷ []) (c ∷ ys))) dll.distinct))

-- A node behind `a` is taken out.
pub lclass_remove-after :
    (h : Heap) (l : LClass) (xs : List Ptr) (a c : Ptr) (ys : List Ptr)
    → IsDll h l (xs ++ a ∷ c ∷ ys)
    → Returns (λ l' g. IsDll g l' (xs ++ a ∷ ys) × OnlyLinks (a ∷ ys) h g) (lclass_remove l c h)
lclass_remove-after h l xs a c [] dll =
    let (before, (ap', an, (cp, cn, _))) = links h l xs a c [] dll in
    let part = apart h l xs a c [] dll in
    let ca : (c == a) ≡ false = ground (arith, part.not_right) in
    let g = with_next h a null in
    rw (take_last h l a c (na h l xs a c [] dll) (nc h l xs a c [] dll) ca cp cn) (
      record {
        first = first_kept h l xs a c [] dll;
        last = sym (last_or-append null xs (a ∷ []));
        linked =
            Linked-join g null xs (a ∷ []) null
              (Linked-frame h g null xs a before
                (λ b i. let out = part.not_left in unfold with_next in ground arith))
              (unfold with_next in (ground arith, ground arith, tt));
        distinct = Distinct-kept h l xs a c [] dll;
        not_null = no_null h l xs a c [] dll;
      },
      unfold with_next in
          record {
            outside = λ b o. ground arith;
            ls_class = λ b. ground arith;
            num_objects = λ b. ground arith;
            type = λ b. ground arith;
            start = λ b. ground arith;
          },
    )
lclass_remove-after h l xs a c (y ∷ ys) dll =
    let (before, (ap', an, (cp, cn, (yp, yn, rest)))) = links h l xs a c (y ∷ ys) dll in
    let part = apart h l xs a c (y ∷ ys) dll in
    let ca : (c == a) ≡ false = ground (arith, part.not_right) in
    let ya : (y == a) ≡ false = ground (arith, part.not_right) in
    let ny : (y == null) ≡ false =
      ground (arith, dll.not_null, has-append null xs (a ∷ c ∷ y ∷ ys)) in
    let g = with_prev (with_next h a y) y a in
    rw (take_middle h l a c y (na h l xs a c (y ∷ ys) dll) (nc h l xs a c (y ∷ ys) dll) ny ca cp cn)
      (
        record {
          first = first_kept h l xs a c (y ∷ ys) dll;
          last =
              dll.last
              ∙ last_or-append null xs (a ∷ c ∷ y ∷ ys)
              ∙ sym (last_or-append null xs (a ∷ y ∷ ys));
          linked =
              Linked-join g null xs (a ∷ y ∷ ys) null
                (Linked-frame h g null xs a before (λ b i.
                  let out = part.not_left in
                  let apart_b = part.cross b i in unfold with_prev with_next in ground arith))
                (unfold with_prev with_next in
                  (
                    ground arith,
                    ground arith,
                    (
                      ground arith,
                      ground arith,
                      Linked-frame h g y ys null rest (λ b i.
                          let out = part.not_right in
                          let diff = part.right in unfold with_prev with_next in ground arith),
                    ),
                  ));
          distinct = Distinct-kept h l xs a c (y ∷ ys) dll;
          not_null = no_null h l xs a c (y ∷ ys) dll;
        },
        unfold with_prev with_next in
            record {
              outside = λ b o. ground arith;
              ls_class = λ b. ground arith;
              num_objects = λ b. ground arith;
              type = λ b. ground arith;
              start = λ b. ground arith;
            },
      )

-- A node is taken out wherever it stands, and only the links of the other nodes change.
pub lclass_remove-IsDll :
    (h : Heap) (l : LClass) (xs : List Ptr) (c : Ptr) (ys : List Ptr)
    → IsDll h l (xs ++ c ∷ ys)
    → Returns (λ l' g. IsDll g l' (xs ++ ys) × OnlyLinks (xs ++ ys) h g) (lclass_remove l c h)
lclass_remove-IsDll h l [] c ys dll = lclass_remove-first h l c ys dll
lclass_remove-IsDll h l (x ∷ xs) c ys dll =
    let zs = init x xs in
    let a = last_or x xs in
    let split = init-last x xs in
    let dll' : IsDll h l (zs ++ a ∷ c ∷ ys) =
      subst (IsDll h l) (ap (λ ws. ws ++ c ∷ ys) split ∙ append_assoc zs (a ∷ []) (c ∷ ys)) dll in
    let back : zs ++ a ∷ ys ≡ (x ∷ xs) ++ ys =
      sym (append_assoc zs (a ∷ []) ys) ∙ ap (λ ws. ws ++ ys) (sym split) in
    Returns-mono _ (lclass_remove l c h) (lclass_remove-after h l zs a c ys dll') λ l' g (d, only).
      (
        subst (IsDll g l') back d,
        OnlyLinks-mono (a ∷ ys) ((x ∷ xs) ++ ys) h g
            (λ b o.
              let o' : b ∉ (zs ++ a ∷ ys) = subst (λ ws. b ∉ ws) (sym back) o in
              ground (arith, o', has-append b zs (a ∷ ys)))
            only,
      )
