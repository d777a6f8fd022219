-- ===== src/LifetimeClass/Ends.antt =====
-- `lclass_insert_beginning` and `lclass_insert_end`: the new node in front of the list and behind it.
use mathlib.Core.List.{append_assoc}
use acdc.Base.{◌≡◌, refl, true, false, List, [], ◌∷◌, ◌++◌, arith, ◌∉◌, ap, ◌==◌, ◌∙◌, sym, subst}
use acdc.Base.Run.{Returns, Returns-mono}
use acdc.Types.{Ptr, null, Heap, LClass}
use acdc.LifetimeClass.{
  lclass_insert_beginning, lclass_insert_end, lclass_insert_before, lclass_insert_after, with_prev,
  with_next,
}
use acdc.LifetimeClass.Stores.{set_prev-ok, set_next-ok}
use acdc.LifetimeClass.Linked.{last_or, IsDll, OnlyLinks, OnlyLinks-mono, init, init-last}
use acdc.LifetimeClass.InsertAfter.{lclass_insert_after-IsDll}
use acdc.LifetimeClass.InsertBefore.{lclass_insert_before-first}

-- The new node becomes the first one, also of an empty list; only the links of the list's nodes and
-- of the new one change.
pub lclass_insert_beginning-cons :
    (h : Heap) (l : LClass) (xs : List Ptr) (c : Ptr)
    → IsDll h l xs
    → (c == null) ≡ false
    → c ∉ xs
    → Returns (λ l' g. IsDll g l' (c ∷ xs) × OnlyLinks (c ∷ xs) h g) (lclass_insert_beginning l c h)
unfolding lclass_insert_beginning
lclass_insert_beginning-cons h l [] c dll nc new =
    let start : (l.first == null) ≡ true = ground (arith, dll.first) in
    rw (start, set_prev-ok c h nc null, set_next-ok c (with_prev h c null) nc null)
      (
        record {
          first = refl;
          last = refl;
          linked = unfold with_prev with_next in (ground arith, ground arith, tt);
          distinct = (refl, tt);
          not_null = ground arith;
        },
        unfold with_prev with_next in
            record {
              outside = λ b o. ground arith;
              ls_class = λ b. ground arith;
              num_objects = λ b. ground arith;
              type = λ b. ground arith;
              start = λ b. ground arith;
            },
      )
lclass_insert_beginning-cons h l (b ∷ xs) c dll nc new =
    let some_first : (l.first == null) ≡ false = ground (arith, dll.first, dll.not_null) in
    let done = lclass_insert_before-first h l b xs c dll nc new in
    rw some_first (
      subst
        (λ p.
          Returns (λ l' g. IsDll g l' (c ∷ b ∷ xs) × OnlyLinks (c ∷ b ∷ xs) h g)
            (lclass_insert_before l p c h))
        (sym dll.first) done)

pub ne_last : (b x : Ptr) (xs : List Ptr) → b ∉ (x ∷ xs) → (b == last_or x xs) ≡ false
ne_last b x [] out = ground arith
ne_last b x (y ∷ ys) out = ne_last b y ys (ground arith)

pub last_ne_null : (x : Ptr) (xs : List Ptr) → null ∉ (x ∷ xs) → (last_or x xs == null) ≡ false
last_ne_null x [] out = ground arith
last_ne_null x (y ∷ ys) out = last_ne_null y ys (ground arith)

pub ends_out : (b c x : Ptr) (xs : List Ptr) → b ∉ (c ∷ x ∷ xs) → b ∉ (last_or x xs ∷ c ∷ [])
ends_out b c x xs o =
    let rest : b ∉ (x ∷ xs) = ground arith in
    let bc : (b == c) ≡ false = ground arith in rw (ne_last b x xs rest, bc)

-- The new node becomes the last one, also of an empty list; only the links of the list's nodes and
-- of the new one change.
pub lclass_insert_end-append :
    (h : Heap) (l : LClass) (xs : List Ptr) (c : Ptr)
    → IsDll h l xs
    → (c == null) ≡ false
    → c ∉ xs
    → Returns (λ l' g. IsDll g l' (xs ++ c ∷ []) × OnlyLinks (c ∷ xs) h g) (lclass_insert_end l c h)
unfolding lclass_insert_end
lclass_insert_end-append h l [] c dll nc new =
    let empty : (l.last == null) ≡ true = ground (arith, dll.last) in
    rw empty (lclass_insert_beginning-cons h l [] c dll nc new)
lclass_insert_end-append h l (x ∷ xs) c dll nc new =
    let zs = init x xs in
    let a = last_or x xs in
    let split = init-last x xs in
    let dll' = subst (IsDll h l) split dll in
    let new' : c ∉ (zs ++ a ∷ []) = subst (λ ys. c ∉ ys) split new in
    let some_last : (l.last == null) ≡ false =
      subst (λ p. (p == null) ≡ false) (sym dll.last) (last_ne_null x xs dll.not_null) in
    let back : zs ++ a ∷ c ∷ [] ≡ (x ∷ xs) ++ c ∷ [] =
      sym (append_assoc zs (a ∷ []) (c ∷ [])) ∙ ap (λ ys. ys ++ c ∷ []) (sym split) in
    let done =
      Returns-mono (λ l' g. IsDll g l' ((x ∷ xs) ++ c ∷ []) × OnlyLinks (c ∷ x ∷ xs) h g)
        (lclass_insert_after l a c h) (lclass_insert_after-IsDll h l zs a [] c dll' nc new')
        (λ l' g (d, only). (
          subst (IsDll g l') back d,
          OnlyLinks-mono (a ∷ c ∷ []) (c ∷ x ∷ xs) h g (λ b o. ends_out b c x xs o) only,
        )) in
    rw some_last (
      subst
        (λ p.
          Returns (λ l' g. IsDll g l' ((x ∷ xs) ++ c ∷ []) × OnlyLinks (c ∷ x ∷ xs) h g)
            (lclass_insert_after l p c h))
        (sym dll.last) done)
