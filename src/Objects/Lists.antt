-- ===== src/Objects/Lists.antt =====
-- Lists of objects of their own (`allocate_list`, `deallocate_list` of src/lifetime-size-classes.c).
use acdc.Base.{
  ℕ, zero, suc, ◌+◌, ◌-◌, ◌<◌, ◌≡◌, refl, true, false, Bool, List, [], ◌∷◌, ◌++◌, arith, has, ◌∉◌,
  Distinct, ◌==◌, ◌∙◌, sym, length, ltb, ◌||◌, if◌then◌else◌,
}
use acdc.Base.Run.{and_then, Returns, Returns-mono, Returns-bind, ok}
use acdc.Types.{Ptr, null, sizeof_object}
use acdc.LifetimeClass.Linked.{head_or}
use acdc.Store.{Store, allocate, malloc, deallocate, free, load0, store0, update_ptr}
use acdc.Objects.{extend_list, build_list, free_list}

-- The first words lead from each object of the list to the next one.
abbrev pub Chained : (Ptr → Ptr) → List Ptr → Type 0
Chained w [] = Unit
Chained w (x ∷ xs) = (w x ≡ head_or null xs) × Chained w xs

pub Chained-frame :
    (v w : Ptr → Ptr) (xs : List Ptr)
    → Chained w xs
    → ((a : Ptr) → has a xs ≡ true → v a ≡ w a)
    → Chained v xs
Chained-frame v w [] c same = tt
Chained-frame v w (x ∷ xs) c same =
    (same x (ground arith) ∙ c.0, Chained-frame v w xs c.1 (λ a i. same a (ground arith)))

module _ (s : Store) where
  pub allocate-cons :
      (sz x : ℕ) (rest : List Ptr)
      → 0 < sz
      → s.supply ≡ x ∷ rest
      → allocate sz s
        ≡ ok x (record s {
          live = update_ptr s.live x true;
          sizes = update_ptr s.sizes x sz;
          supply = rest;
        })
  unfolding allocate malloc
  allocate-cons sz x rest h e =
      let large : ltb sz sizeof_object ≡ false = ground arith in simp (large, e)

  pub store0-ok :
      (p v : Ptr)
      → (p == null) ≡ false
      → store0 p v s ≡ ok tt (record s { word0 = update_ptr s.word0 p v })
  unfolding store0
  store0-ok p v nn = rw nn

  pub load0-ok : (p : Ptr) → (p == null) ≡ false → load0 p s ≡ ok (s.word0 p) s
  unfolding load0
  load0-ok p nn = rw nn

  pub deallocate-ok :
      (p sz : ℕ)
      → (p == null) ≡ false
      → s.live p ≡ true
      → deallocate p sz s ≡ ok tt (record s { live = update_ptr s.live p false })
  unfolding deallocate free
  deallocate-ok p sz nn alive = rw nn (simp alive)

pub asked :
    (a x : Ptr) (xs : List Ptr) (sz : ℕ) (sizes : Ptr → ℕ)
    → (if has a xs then sz else update_ptr sizes x sz a) ≡ (if has a (x ∷ xs) then sz else sizes a)
asked a x xs sz sizes = ground arith

-- After the loop the objects from `t` on are chained, the objects `xs` are allocated, and nothing else
-- has changed.
pub record Extended (sz : ℕ) (t : Ptr) (xs rest : List Ptr) (s s' : Store) : Type 0 where
  pub chained : Chained s'.word0 (t ∷ xs)
  pub supply : s'.supply ≡ rest
  pub live : (a : Ptr) → s'.live a ≡ (has a xs || s.live a)
  pub sizes : (a : Ptr) → s'.sizes a ≡ (if has a xs then sz else s.sizes a)
  pub outside : (a : Ptr) → a ∉ (t ∷ xs) → s'.word0 a ≡ s.word0 a
  pub word1 : s'.word1 ≡ s.word1
  pub bytes : s'.bytes ≡ s.bytes

extend_list-Extended :
    (sz n : ℕ) (t : Ptr) (xs rest : List Ptr) (s : Store)
    → 0 < sz
    → s.supply ≡ xs ++ rest
    → length xs ≡ n
    → Distinct (t ∷ xs)
    → null ∉ (t ∷ xs)
    → Returns (λ _ s'. Extended sz t xs rest s s') (extend_list sz n t s)
unfolding extend_list
extend_list-Extended sz zero t [] rest s h e len d nn =
    rw (store0-ok s t null (ground arith)) (record {
      chained = (ground arith, tt);
      supply = e;
      live = λ a. refl;
      sizes = λ a. refl;
      outside = λ a o. ground arith;
      word1 = refl;
      bytes = refl;
    })
extend_list-Extended sz (suc n) t [] rest s h e len d nn = absurd (omega arith)
extend_list-Extended sz zero t (x ∷ xs) rest s h e len d nn = absurd (omega arith)
extend_list-Extended sz (suc n) t (x ∷ xs) rest s h e len d nn =
    let s₁ : Store = record s {
      live = update_ptr s.live x true;
      sizes = update_ptr s.sizes x sz;
      supply = xs ++ rest;
    } in
    let s₂ : Store = record s₁ { word0 = update_ptr s₁.word0 t x } in
    let ih = extend_list-Extended sz n x xs rest s₂ h refl (omega arith) d.1 (ground arith) in
    rw (allocate-cons s sz x (xs ++ rest) h e, store0-ok s₁ t x (ground arith))
      (Returns-mono _ (extend_list sz n x s₂) ih λ _ s' r. record {
        chained = (r.outside t d.0 ∙ ground arith, r.chained);
        supply = r.supply;
        live = λ a. r.live a ∙ ground arith;
        sizes = λ a. r.sizes a ∙ asked a x xs sz s.sizes;
        outside = λ a o. r.outside a (ground arith) ∙ ground arith;
        word1 = r.word1;
        bytes = r.bytes;
      })

-- What `build_list` gives: the chain of the blocks of `sz` bytes that were allocated for it.
pub record IsBuilt (sz : ℕ) (xs rest : List Ptr) (s : Store) (p : Ptr) (s' : Store) : Type 0 where
  pub start : p ≡ head_or null xs
  pub chained : Chained s'.word0 xs
  pub supply : s'.supply ≡ rest
  pub live : (a : Ptr) → s'.live a ≡ (has a xs || s.live a)
  pub sizes : (a : Ptr) → s'.sizes a ≡ (if has a xs then sz else s.sizes a)
  pub outside : (a : Ptr) → a ∉ xs → s'.word0 a ≡ s.word0 a

-- A list of `length xs` objects takes as many addresses from the allocator and chains them in the
-- order in which they were allocated.
pub build_list-IsBuilt :
    (sz : ℕ) (x : Ptr) (xs rest : List Ptr) (s : Store)
    → 0 < sz
    → s.supply ≡ x ∷ xs ++ rest
    → Distinct (x ∷ xs)
    → null ∉ (x ∷ xs)
    → Returns (IsBuilt sz (x ∷ xs) rest s) (build_list sz (length (x ∷ xs)) s)
unfolding build_list
build_list-IsBuilt sz x xs rest s h e d nn =
    let s₁ : Store = record s {
      live = update_ptr s.live x true;
      sizes = update_ptr s.sizes x sz;
      supply = xs ++ rest;
    } in
    let rounds : length (x ∷ xs) - 1 ≡ length xs = omega arith in
    rw (allocate-cons s sz x (xs ++ rest) h e, rounds)
      (Returns-bind _ (extend_list sz (length xs) x s₁) _
        (extend_list-Extended sz (length xs) x xs rest s₁ h refl refl d nn)
        λ _ s' r. record {
          start = refl;
          chained = r.chained;
          supply = r.supply;
          live = λ a. r.live a ∙ ground arith;
          sizes = λ a. r.sizes a ∙ asked a x xs sz s.sizes;
          outside = r.outside;
        })

-- Freeing a chain of allocated objects frees each of them once and nothing else: there is no double
-- free and no leak. The fuel is one more than the number of objects.
pub free_list-Returns :
    (f sz : ℕ) (xs : List Ptr) (s : Store)
    → Chained s.word0 xs
    → Distinct xs
    → null ∉ xs
    → ((a : Ptr) → has a xs ≡ true → s.live a ≡ true)
    → length xs < f
    → Returns
        (λ _ s'.
          ((a : Ptr) → s'.live a ≡ (if has a xs then false else s.live a))
          × (s'.word0 ≡ s.word0)
          × (s'.word1 ≡ s.word1)
          × (s'.bytes ≡ s.bytes)
          × (s'.supply ≡ s.supply))
        (free_list f sz (head_or null xs) s)
unfolding free_list
free_list-Returns zero sz xs s c d nn alive h = absurd (omega arith)
free_list-Returns (suc f) sz [] s c d nn alive h = (λ a. refl, refl, refl, refl, refl)
free_list-Returns (suc f) sz (x ∷ xs) s c d nn alive h =
    let nx : (x == null) ≡ false = ground arith in
    let s₁ : Store = record s { live = update_ptr s.live x false } in
    let ih =
      free_list-Returns f sz xs s₁ c.1 d.1 (ground arith)
        (λ a i. let out = d.0 in ground (arith, alive a)) (omega arith) in
    rw (nx, load0-ok s x nx, deallocate-ok s x sz nx (alive x (ground arith)), c.0)
      (Returns-mono _ (free_list f sz (head_or null xs) s₁) ih
        λ _ s' (live, w0, w1, b, sup). (λ a. live a ∙ ground arith, w0, w1, b, sup))

-- Allocating a list and freeing it again leaves the allocated blocks as they were.
pub build_list-free_list :
    (sz : ℕ) (x : Ptr) (xs rest : List Ptr) (s : Store)
    → 0 < sz
    → s.supply ≡ x ∷ xs ++ rest
    → Distinct (x ∷ xs)
    → null ∉ (x ∷ xs)
    → ((a : Ptr) → has a (x ∷ xs) ≡ true → s.live a ≡ false)
    → Returns
        (λ _ s'. (a : Ptr) → s'.live a ≡ s.live a)
        (and_then
          (build_list sz (length (x ∷ xs)) s)
          (λ start. free_list (length (x ∷ xs) + 1) sz start))
build_list-free_list sz x xs rest s h e d nn fresh =
    Returns-bind _ (build_list sz (length (x ∷ xs)) s) _
      (build_list-IsBuilt sz x xs rest s h e d nn)
      λ p s' b.
        let freed =
          free_list-Returns (length (x ∷ xs) + 1) sz (x ∷ xs) s' b.chained d nn
            (λ a i. b.live a ∙ rw i) (omega arith) in
        rw (b.start) (
          Returns-mono _ (free_list (length (x ∷ xs) + 1) sz x s') freed
            λ _ s'' after a. after.0 a ∙ restored a (has a (x ∷ xs)) (b.live a) (fresh a))
  where
    restored :
        (a : Ptr) (i : Bool) {l l' : Bool}
        → l' ≡ (i || l)
        → (i ≡ true → l ≡ false)
        → (if i then false else l') ≡ l
    restored a true e f = sym (f refl)
    restored a false e f = e
