-- ===== src/Classes/Contiguous.antt =====
-- Objects in one block (`allocate_optimal_list_unaligned` and `allocate_optimal_btree` of
-- src/lifetime-size-classes.c): the links that the loops store.
use native.Mathlib.Nat.{mul-lt-mul_of_pos_right}
use acdc.Base.{
  ℕ, zero, suc, ◌+◌, ◌*◌, ◌≤◌, ◌<◌, false, List, [], ◌∷◌, ◌==◌, ◌≡◌, refl, sym, ◌∙◌, arith, ap,
  subst, length, ◌∉◌, dec_lt,
}
use acdc.Base.Run.{Returns, Returns-mono}
use acdc.Types.{Ptr, null}
use acdc.Store.{Store, update_ptr}
use acdc.Objects.Lists.{Chained, store0-ok}
use acdc.Objects.Trees.{store1-ok}
use acdc.Classes.{link_contiguous, link_heap, child_at}

-- The addresses of `n` objects of `sz` bytes, from `p` on.
abbrev pub contiguous : ℕ → ℕ → Ptr → List Ptr
contiguous sz zero p = []
contiguous sz (suc n) p = p ∷ contiguous sz n (p + sz)

pub length-contiguous : (sz n p : ℕ) → length (contiguous sz n p) ≡ n
length-contiguous sz zero p = refl
length-contiguous sz (suc n) p = ap suc (length-contiguous sz n (p + sz))

pub contiguous-above : (sz n p a : ℕ) → a < p → a ∉ contiguous sz n p
contiguous-above sz zero p a h = refl
contiguous-above sz (suc n) p a h =
    let ih = contiguous-above sz n (p + sz) a (omega arith) in ground arith

-- The loop of the compact list.
pub link_contiguous-Chained :
    (sz n : ℕ) (p : Ptr) (s : Store)
    → 0 < sz
    → 0 < p
    → Returns
        (λ _ s'.
          Chained s'.word0 (contiguous sz (suc n) p)
          × ((a : Ptr) → a < p → s'.word0 a ≡ s.word0 a)
          × (s'.word1 ≡ s.word1)
          × (s'.live ≡ s.live)
          × (s'.sizes ≡ s.sizes)
          × (s'.bytes ≡ s.bytes)
          × (s'.supply ≡ s.supply))
        (link_contiguous sz n p s)
unfolding link_contiguous
link_contiguous-Chained sz zero p s h₁ h₂ =
    let np : (p == null) ≡ false = ground arith in
    rw (store0-ok s p null np)
      ((ground arith, tt), (λ a b. ground arith), refl, refl, refl, refl, refl)
link_contiguous-Chained sz (suc n) p s h₁ h₂ =
    let np : (p == null) ≡ false = ground arith in
    let s₁ : Store = record s { word0 = update_ptr s.word0 p (p + sz) } in
    rw (store0-ok s p (p + sz) np) (
      Returns-mono _ (link_contiguous sz n (p + sz) s₁)
        (link_contiguous-Chained sz n (p + sz) s₁ h₁ (omega arith))
        λ _ s' (chained, below, w1, l, sz', b, sup). (
          (below p (omega arith) ∙ ground arith, chained),
          (λ a h. below a (omega arith) ∙ ground arith),
          w1,
          l,
          sz',
          b,
          sup,
        ))

-- The children of the objects of a compact tree of `nelem` objects: those of number `k` are the
-- objects `2 * k + 1` and `2 * k + 2`, as far as there are such.
abbrev pub Child : (sz nelem : ℕ) (arr child p : ℕ) → Type 0
Child sz nelem arr child p = (child < nelem → p ≡ arr + child * sz) × (nelem ≤ child → p ≡ null)

abbrev pub HasChildren : (sz nelem : ℕ) (arr k : ℕ) (s : Store) → Type 0
HasChildren sz nelem arr k s =
    Child sz nelem arr (2 * k + 1) (s.word0 (arr + k * sz))
    × Child sz nelem arr (2 * k + 2) (s.word1 (arr + k * sz))

child_at-Child :
    (sz nelem arr child : ℕ) → 0 < nelem → Child sz nelem arr child (child_at sz nelem arr child)
child_at-Child sz nelem arr child h = ((λ i. ground arith), λ o. ground arith)

-- The objects stand apart.
apart : (sz arr j k : ℕ) → 0 < sz → j < k → arr + j * sz < arr + k * sz
apart sz arr j k h lt = let m : j * sz < k * sz = mul-lt-mul_of_pos_right lt h in omega (arith, m)

pub link_heap-HasChildren :
    (sz nelem : ℕ) (arr : Ptr) (n i : ℕ) (s : Store)
    → 0 < sz
    → 0 < arr
    → 0 < nelem
    → Returns
        (λ _ s'.
          ((k : ℕ) → i ≤ k → k < i + n → HasChildren sz nelem arr k s')
          × ((a : Ptr) → a < arr + i * sz → (s'.word0 a ≡ s.word0 a) × (s'.word1 a ≡ s.word1 a))
          × (s'.live ≡ s.live)
          × (s'.sizes ≡ s.sizes)
          × (s'.bytes ≡ s.bytes)
          × (s'.supply ≡ s.supply))
        (link_heap sz nelem arr n i s)
unfolding link_heap
link_heap-HasChildren sz nelem arr zero i s h₁ h₂ h₃ =
    ((λ k a b. absurd (omega arith)), (λ a b. (refl, refl)), refl, refl, refl, refl)
link_heap-HasChildren sz nelem arr (suc n) i s h₁ h₂ h₃ =
    let o = arr + i * sz in
    let non : (o == null) ≡ false = ground arith in
    let l = child_at sz nelem arr (2 * i + 1) in
    let r = child_at sz nelem arr (2 * i + 2) in
    let s₁ : Store = record s { word0 = update_ptr s.word0 o l } in
    let s₂ : Store = record s₁ { word1 = update_ptr s.word1 o r } in
    let ahead : o < arr + (i + 1) * sz = apart sz arr i (i + 1) h₁ (omega arith) in
    rw (store0-ok s o l non, store1-ok s₁ o r non)
      (Returns-mono _ (link_heap sz nelem arr n (i + 1) s₂)
        (link_heap-HasChildren sz nelem arr n (i + 1) s₂ h₁ h₂ h₃)
        λ _ s' (children, below, lv, sizes, b, sup). (
          (λ k low high. elim (dec_lt i k) [
            | yes later ↦ children k (omega arith) (omega arith)
            | no now ↦
                let here : i ≡ k = omega arith in
                let (b0, b1) = below o ahead in
                subst (λ j. HasChildren sz nelem arr j s') here
                  (
                    subst (Child sz nelem arr (2 * i + 1)) (sym (b0 ∙ ground arith))
                        (child_at-Child sz nelem arr (2 * i + 1) h₃),
                    subst (Child sz nelem arr (2 * i + 2)) (sym (b1 ∙ ground arith))
                        (child_at-Child sz nelem arr (2 * i + 2) h₃),
                  )
          ]),
          (λ a h.
              let (b0, b1) = below a (omega (arith, ahead)) in
              (b0 ∙ ground arith, b1 ∙ ground arith)),
          lv,
          sizes,
          b,
          sup,
        ))
