-- ===== src/HeapClass/FetchLists.antt =====
-- What `get_shared_LClasses` of src/acdc.c makes of the lists of two heap classes.
use acdc.Base.{
  ℕ, zero, suc, ◌+◌, ◌≤◌, ◌<◌, true, false, List, [], ◌++◌, ◌==◌, ◌≡◌, refl, sym, ◌∙◌, ap, subst,
  arith, if◌then◌else◌, Bool-cases, inl, inr,
}
use acdc.Types.{Ptr}

-- A function with another value at `i`.
abbrev pub put : {A : Type 0} → (ℕ → A) → ℕ → A → ℕ → A
put f i v j = if j == i then v else f j

-- The lists of the shared and of the local heap class after `n` rounds from `i` on, where `slot` is the
-- local slot of each round.
abbrev pub left_remote : ℕ → ℕ → (ℕ → List Ptr) → ℕ → List Ptr
left_remote zero i remote = remote
left_remote (suc n) i remote = left_remote n (i + 1) (put remote i [])

abbrev pub fetched : (ℕ → ℕ) → ℕ → ℕ → (ℕ → List Ptr) → (ℕ → List Ptr) → ℕ → List Ptr
fetched slot zero i remote local = local
fetched slot (suc n) i remote local =
    fetched slot n (i + 1) (put remote i []) (put local (slot i) (local (slot i) ++ remote i))

put-hit : {A : Type 0} (f : ℕ → A) (i k : ℕ) (v : A) → (k == i) ≡ true → put f i v k ≡ v
put-hit f i k v same = rw same refl

put-other : {A : Type 0} (f : ℕ → A) (i k : ℕ) (v : A) → (k == i) ≡ false → put f i v k ≡ f k
put-other f i k v apart = rw apart refl

pub put-same : {A : Type 0} (f : ℕ → A) (i k : ℕ) (v : A) → f i ≡ v → put f i v k ≡ f k
put-same f i k v e = elim (Bool-cases (k == i)) [
  | inl same ↦ let k_i : i ≡ k = ground arith in put-hit f i k v same ∙ (sym e ∙ ap f k_i)
  | inr apart ↦ put-other f i k v apart
]

left_remote-kept :
    (n i : ℕ) (remote : ℕ → List Ptr) (k : ℕ) → remote k ≡ [] → left_remote n i remote k ≡ []
left_remote-kept zero i remote k e = e
left_remote-kept (suc n) i remote k e =
    left_remote-kept n (i + 1) (put remote i []) k (elim (Bool-cases (k == i)) [
      | inl same ↦ put-hit remote i k [] same
      | inr apart ↦ put-other remote i k [] apart ∙ e
    ])

pub left_remote-empty :
    (n i : ℕ) (remote : ℕ → List Ptr) (k : ℕ) → i ≤ k → k < i + n → left_remote n i remote k ≡ []
left_remote-empty zero i remote k low high = absurd (omega arith)
left_remote-empty (suc n) i remote k low high = elim (Bool-cases (k == i)) [
  | inl same ↦ left_remote-kept n (i + 1) (put remote i []) k (put-hit remote i k [] same)
  | inr apart ↦ left_remote-empty n (i + 1) (put remote i []) k (ground arith) (omega arith)
]

module _ (slot : ℕ → ℕ) where
  pub fetched-kept :
      (n i : ℕ) (remote local : ℕ → List Ptr) (j : ℕ)
      → ((k : ℕ) → i ≤ k → k < i + n → (j == slot k) ≡ false)
      → fetched slot n i remote local j ≡ local j
  fetched-kept zero i remote local j apart = refl
  fetched-kept (suc n) i remote local j apart =
      fetched-kept n (i + 1) (put remote i []) (put local (slot i) (local (slot i) ++ remote i)) j
        (λ k low high. apart k (omega arith) (omega arith))
      ∙ put-other local (slot i) j (local (slot i) ++ remote i)
          (apart i (omega arith) (omega arith))

  pub fetched-appended :
      (n i : ℕ) (remote local : ℕ → List Ptr) (k : ℕ)
      → i ≤ k
      → k < i + n
      → ((m : ℕ) → i ≤ m → m < i + n → (k == m) ≡ false → (slot k == slot m) ≡ false)
      → fetched slot n i remote local (slot k) ≡ local (slot k) ++ remote k
  fetched-appended zero i remote local k low high apart = absurd (omega arith)
  fetched-appended (suc n) i remote local k low high apart =
      let joined = local (slot i) ++ remote i in
      elim (Bool-cases (k == i)) [
        | inl same ↦
            let e : i ≡ k = ground arith in
            subst
              (λ m.
                fetched slot n (i + 1) (put remote i []) (put local (slot i) joined) (slot m)
                ≡ local (slot m) ++ remote m)
              e
              (fetched-kept n (i + 1) (put remote i []) (put local (slot i) joined) (slot i)
                  (λ m l h.
                    subst (λ b. (slot b == slot m) ≡ false) (sym e)
                      (apart m (omega arith) (omega arith) (ground arith)))
                ∙ put-hit local (slot i) (slot i) joined (ground arith))
        | inr other ↦
            fetched-appended n (i + 1) (put remote i []) (put local (slot i) joined) k
              (ground arith) (omega arith) (λ m l h ne. apart m (omega arith) (omega arith) ne)
            ∙ ap (λ xs. xs ++ put remote i [] k)
                (put-other local (slot i) (slot k) joined
                  (apart i (omega arith) (omega arith) other))
            ∙ ap (λ ys. local (slot k) ++ ys) (put-other remote i k [] other)
      ]
