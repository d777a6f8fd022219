-- ===== src/LifetimeClass/Queue.antt =====
-- Lists of nodes that are only linked forwards. The local heap classes of src/acdc.c hold such lists:
-- `get_shared_LClasses` appends whole lists, and does not set the `prev` of their first nodes.
use acdc.Base.{
  ◌≡◌, refl, true, false, List, [], ◌∷◌, ◌++◌, arith, has, ◌∉◌, Distinct, Distinct-join, ap, ◌==◌,
  ◌∙◌, sym, subst, has-append,
}
use acdc.Base.Run.{Returns, Returns-mono}
use acdc.Types.{Ptr, null, Chunk, Heap, LClass}
use acdc.LifetimeClass.{lclass_insert_beginning, lclass_insert_end, lclass_insert_after}
use acdc.LifetimeClass.Linked.{
  head_or, last_or, head_or-append, last_or-append, Linked, IsDll, OnlyLinks, OnlyLinks-mono,
}
use acdc.LifetimeClass.InsertAfter.{at_end}
use acdc.LifetimeClass.Ends.{lclass_insert_beginning-cons, last_ne_null, ne_last, ends_out}

-- The nodes `xs` are linked forwards, and `n` follows them.
abbrev pub Chain : Heap → List Ptr → Ptr → Type 0
Chain h [] n = Unit
Chain h (x ∷ xs) n = ((h x).next ≡ head_or n xs) × Chain h xs n

-- `l` is the list of the different nodes `xs`, to be read from its first one on.
pub record IsQueue (h : Heap) (l : LClass) (xs : List Ptr) : Type 0 where
  pub first : l.first ≡ head_or null xs
  pub last : l.last ≡ last_or null xs
  pub chain : Chain h xs null
  pub distinct : Distinct xs
  pub not_null : null ∉ xs

Chain-of_linked : (h : Heap) (p : Ptr) (xs : List Ptr) (n : Ptr) → Linked h p xs n → Chain h xs n
Chain-of_linked h p [] n l = tt
Chain-of_linked h p (x ∷ xs) n (b, f, l) = (f, Chain-of_linked h x xs n l)

pub IsDll-IsQueue : (h : Heap) (l : LClass) (xs : List Ptr) → IsDll h l xs → IsQueue h l xs
IsDll-IsQueue h l xs dll = record {
  first = dll.first;
  last = dll.last;
  chain = Chain-of_linked h null xs null dll.linked;
  distinct = dll.distinct;
  not_null = dll.not_null;
}

module _ (h g : Heap) where
  pub Chain-frame :
      (xs : List Ptr) (n : Ptr)
      → Chain h xs n
      → ((a : Ptr) → has a xs ≡ true → (g a).next ≡ (h a).next)
      → Chain g xs n
  Chain-frame [] n c same = tt
  Chain-frame (x ∷ xs) n (f, c) same =
      (same x (ground arith) ∙ f, Chain-frame xs n c (λ a i. same a (ground arith)))

  pub IsQueue-frame :
      (l : LClass) (xs : List Ptr)
      → IsQueue h l xs
      → ((a : Ptr) → has a xs ≡ true → g a ≡ h a)
      → IsQueue g l xs
  IsQueue-frame l xs q same = record {
    first = q.first;
    last = q.last;
    chain = Chain-frame xs null q.chain λ a i. ap (λ (k : Chunk). k.next) (same a i);
    distinct = q.distinct;
    not_null = q.not_null;
  }

  -- The chain is the same but for its last node, which now leads to `m`.
  pub Chain-relink :
      (x : Ptr) (xs : List Ptr) (n m : Ptr)
      → Chain h (x ∷ xs) n
      → Distinct (x ∷ xs)
      → (g (last_or x xs)).next ≡ m
      → ((a : Ptr) → has a (x ∷ xs) ≡ true → (a == last_or x xs) ≡ false → (g a).next ≡ (h a).next)
      → Chain g (x ∷ xs) m
  Chain-relink x [] n m c d e same = (e, tt)
  Chain-relink x (y ∷ ys) n m (f, c) d e same = (
    same x (ground arith) (ne_last x y ys d.0) ∙ f,
    Chain-relink y ys n m c d.1 e (λ a i ne. same a (ground arith) ne),
  )

module _ (h : Heap) where
  pub Chain-join :
      (xs ys : List Ptr) (n : Ptr) → Chain h xs (head_or n ys) → Chain h ys n → Chain h (xs ++ ys) n
  Chain-join [] ys n c d = d
  Chain-join (x ∷ xs) ys n (f, c) d = (f ∙ sym (head_or-append n xs ys), Chain-join xs ys n c d)

  pub Chain-last :
      (x : Ptr) (xs : List Ptr) (n : Ptr) → Chain h (x ∷ xs) n → (h (last_or x xs)).next ≡ n
  Chain-last x [] n c = c.0
  Chain-last x (y ∷ ys) n c = Chain-last y ys n c.1

pub last_in : (x : Ptr) (xs : List Ptr) → has (last_or x xs) (x ∷ xs) ≡ true
last_in x [] = ground arith
last_in x (y ∷ ys) = ground (arith, last_in y ys)

apart_from : (a b : Ptr) (xs : List Ptr) → has a xs ≡ true → b ∉ xs → (a == b) ≡ false
apart_from a b xs i o = ground arith

-- Two queues are one, when the last node of the first leads to the second and no other link has changed.
pub IsQueue-append :
    (h g : Heap) (l r : LClass) (x : Ptr) (xs : List Ptr) (y : Ptr) (ys : List Ptr)
    → IsQueue h l (x ∷ xs)
    → IsQueue g r (y ∷ ys)
    → ((a : Ptr) → has a (x ∷ xs) ≡ true → a ∉ (y ∷ ys))
    → (g (last_or x xs)).next ≡ r.first
    → ((a : Ptr) → has a (x ∷ xs) ≡ true → (a == last_or x xs) ≡ false → (g a).next ≡ (h a).next)
    → IsQueue g (record { first = l.first; last = r.last }) ((x ∷ xs) ++ y ∷ ys)
IsQueue-append h g l r x xs y ys q p apart joint same = record {
  first = q.first;
  last = p.last ∙ sym (last_or-append x xs (y ∷ ys));
  chain =
      Chain-join g (x ∷ xs) (y ∷ ys) null
        (Chain-relink h g x xs null y q.chain q.distinct (joint ∙ p.first) same) p.chain;
  distinct = Distinct-join (x ∷ xs) (y ∷ ys) q.distinct p.distinct apart;
  not_null = ground (arith, has-append null (x ∷ xs) (y ∷ ys), q.not_null, p.not_null);
}

-- The new node becomes the last one, also of an empty list; only the links of the last node and
-- of the new one change.
pub lclass_insert_end-IsQueue :
    (h : Heap) (l : LClass) (xs : List Ptr) (c : Ptr)
    → IsQueue h l xs
    → (c == null) ≡ false
    → c ∉ xs
    → Returns
        (λ l' g. IsQueue g l' (xs ++ c ∷ []) × OnlyLinks (c ∷ xs) h g)
        (lclass_insert_end l c h)
unfolding lclass_insert_end
lclass_insert_end-IsQueue h l [] c q nc new =
    let empty : (l.last == null) ≡ true = ground (arith, q.last) in
    rw empty (
      Returns-mono _ (lclass_insert_beginning l c h)
        (lclass_insert_beginning-cons h l [] c
          (record { first = q.first; last = q.last; linked = tt; distinct = tt; not_null = refl })
          nc new)
        λ l' g (d, only). (IsDll-IsQueue g l' (c ∷ []) d, only))
lclass_insert_end-IsQueue h l (x ∷ xs) c q nc new =
    let a = last_or x xs in
    let na : (a == null) ≡ false = last_ne_null x xs q.not_null in
    let ac : (a == c) ≡ false = apart_from a c (x ∷ xs) (last_in x xs) new in
    let some_last : (l.last == null) ≡ false = subst (λ p. (p == null) ≡ false) (sym q.last) na in
    let done =
      Returns-mono (λ l' g. IsQueue g l' ((x ∷ xs) ++ c ∷ []) × OnlyLinks (c ∷ x ∷ xs) h g)
        (lclass_insert_after l a c h) (at_end h l a c na nc ac (Chain-last h x xs null q.chain))
        (λ l' g (e, stored, only). (
          subst (λ r. IsQueue g r ((x ∷ xs) ++ c ∷ [])) (sym e)
              (IsQueue-append h g l (record { first = c; last = c }) x xs c [] q
                (record {
                  first = refl;
                  last = refl;
                  chain = (stored.c_next ∙ Chain-last h x xs null q.chain, tt);
                  distinct = (refl, tt);
                  not_null = ground arith;
                })
                (λ b i. ground arith) stored.a_next
                λ b i ne. ap (λ (k : Chunk). k.next) (only.outside b (ground arith))),
          OnlyLinks-mono (a ∷ c ∷ []) (c ∷ x ∷ xs) h g (λ b o. ends_out b c x xs o) only,
        )) in
    rw some_last (
      subst
        (λ p.
          Returns (λ l' g. IsQueue g l' ((x ∷ xs) ++ c ∷ []) × OnlyLinks (c ∷ x ∷ xs) h g)
            (lclass_insert_after l p c h))
        (sym q.last) done)
