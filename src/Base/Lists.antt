-- ===== src/Base/Lists.antt =====
-- Lists measured and indexed by native numbers, and lists of addresses or thread identifiers.
use Prim.Native.Nat.{ℕ, zero, suc, ◌+◌, ◌≤◌, ◌<◌}
use mathlib.Core.Path.{◌≡◌, refl, ap, sym}
use mathlib.Core.Logic.{inr, inl, ◌≢◌}
use mathlib.Core.Bool.{Bool, true, false, ◌||◌}
use mathlib.Core.List.{List, [], ◌∷◌, ◌++◌}
use mathlib.Core.Option.{Option, none, some}
use native.Mathlib.Omega.{arith}
use acdc.Base.Tests.{Bool-cases, ◌==◌, if◌then◌else◌}

module _ {ℓ} {A : Type ℓ} where
  abbrev pub length : List A → ℕ
  length [] = 0
  length (x ∷ xs) = suc (length xs)

  abbrev pub get_elem? : List A → ℕ → Option A
  get_elem? [] i = none
  get_elem? (x ∷ xs) zero = some x
  get_elem? (x ∷ xs) (suc i) = get_elem? xs i

  -- A write out of bounds changes nothing.
  abbrev pub set : List A → ℕ → A → List A
  set [] i v = []
  set (x ∷ xs) zero v = v ∷ xs
  set (x ∷ xs) (suc i) v = x ∷ set xs i v

  abbrev pub get_or : List A → ℕ → A → A
  get_or [] i d = d
  get_or (x ∷ xs) zero d = x
  get_or (x ∷ xs) (suc i) d = get_or xs i d

  abbrev pub take : ℕ → List A → List A
  take zero xs = []
  take (suc n) [] = []
  take (suc n) (x ∷ xs) = x ∷ take n xs

  abbrev pub replicate : ℕ → A → List A
  replicate zero a = []
  replicate (suc n) a = a ∷ replicate n a

  pub length-append : (xs ys : List A) → length (xs ++ ys) ≡ length xs + length ys
  length-append [] ys = omega arith
  length-append (x ∷ xs) ys = omega (arith, length-append xs ys)

  pub length-take : (k : ℕ) (xs : List A) → k ≤ length xs → length (take k xs) ≡ k
  length-take zero xs h = refl
  length-take (suc k) [] h = absurd (omega arith)
  length-take (suc k) (x ∷ xs) h = ap suc (length-take k xs (omega arith))

  pub length-replicate : (n : ℕ) (a : A) → length (replicate n a) ≡ n
  length-replicate zero a = refl
  length-replicate (suc n) a = ap suc (length-replicate n a)

module _ {ℓ} {A : Type ℓ} where
  pub length-set : (xs : List A) (i : ℕ) (v : A) → length (set xs i v) ≡ length xs
  length-set [] i v = refl
  length-set (x ∷ xs) zero v = refl
  length-set (x ∷ xs) (suc i) v = ap suc (length-set xs i v)

  pub get_elem?-set :
      (xs : List A) (i : ℕ) (v u : A) → get_elem? xs i ≡ some u → get_elem? (set xs i v) i ≡ some v
  get_elem?-set [] i v u e = absurd (ground (arith, e))
  get_elem?-set (x ∷ xs) zero v u e = refl
  get_elem?-set (x ∷ xs) (suc i) v u e = get_elem?-set xs i v u e

  pub get_elem?-set_other :
      (xs : List A) (i j : ℕ) (v : A) → (j == i) ≡ false → get_elem? (set xs i v) j ≡ get_elem? xs j
  get_elem?-set_other [] i j v ne = refl
  get_elem?-set_other (x ∷ xs) zero zero v ne = absurd (ground (arith, ne))
  get_elem?-set_other (x ∷ xs) zero (suc j) v ne = refl
  get_elem?-set_other (x ∷ xs) (suc i) zero v ne = refl
  get_elem?-set_other (x ∷ xs) (suc i) (suc j) v ne = get_elem?-set_other xs i j v (ground arith)

  pub get_or-set_self :
      (xs : List A) (i : ℕ) (v d : A) → i < length xs → get_or (set xs i v) i d ≡ v
  get_or-set_self [] i v d h = elim h [ ]
  get_or-set_self (x ∷ xs) zero v d h = refl
  get_or-set_self (x ∷ xs) (suc i) v d h = get_or-set_self xs i v d (omega arith)

  pub get_or-set_ne :
      (xs : List A) (i j : ℕ) (v d : A) → i ≢ j → get_or (set xs i v) j d ≡ get_or xs j d
  get_or-set_ne [] i j v d h = refl
  get_or-set_ne (x ∷ xs) zero zero v d h = absurd (h refl)
  get_or-set_ne (x ∷ xs) zero (suc j) v d h = refl
  get_or-set_ne (x ∷ xs) (suc i) zero v d h = refl
  get_or-set_ne (x ∷ xs) (suc i) (suc j) v d h = get_or-set_ne xs i j v d (λ e. h (ap suc e))

module _ {ℓ} {A : Type ℓ} where
  pub get_or-set :
      (xs : List A) (i j : ℕ) (v d : A)
      → i < length xs
      → get_or (set xs i v) j d ≡ (if j == i then v else get_or xs j d)
  get_or-set [] i j v d h = elim h [ ]
  get_or-set (x ∷ xs) zero zero v d h = ground arith
  get_or-set (x ∷ xs) zero (suc j) v d h = ground arith
  get_or-set (x ∷ xs) (suc i) zero v d h = ground arith
  get_or-set (x ∷ xs) (suc i) (suc j) v d h = ground (arith, get_or-set xs i j v d (omega arith))

-- Membership as a test, so that `ground` decides it.
abbrev pub has : ℕ → List ℕ → Bool
has a [] = false
has a (x ∷ xs) = (a == x) || has a xs

infix 40 ◌∉◌
abbrev pub ◌∉◌ : ℕ → List ℕ → Type 0
a ∉ xs = has a xs ≡ false

abbrev pub Distinct : List ℕ → Type 0
Distinct [] = Unit
Distinct (x ∷ xs) = (x ∉ xs) × Distinct xs

abbrev pub All {ℓ κ} : {A : Type ℓ} → (A → Type κ) → List A → Type κ
All P [] = Unit
All P (x ∷ xs) = P x × All P xs

pub has-append : (a : ℕ) (xs ys : List ℕ) → has a (xs ++ ys) ≡ (has a xs || has a ys)
has-append a [] ys = refl
has-append a (x ∷ xs) ys = ground (arith, has-append a xs ys)

-- The parts of a list without repetition.
pub record Apart (xs : List ℕ) (a : ℕ) (ys : List ℕ) : Type 0 where
  pub left : Distinct xs
  pub right : Distinct ys
  pub not_left : a ∉ xs
  pub not_right : a ∉ ys
  pub cross : (b : ℕ) → has b xs ≡ true → b ∉ ys

pub Distinct-split : (xs : List ℕ) (a : ℕ) (ys : List ℕ) → Distinct (xs ++ a ∷ ys) → Apart xs a ys
Distinct-split [] a ys d = record {
  left = tt;
  right = d.1;
  not_left = refl;
  not_right = d.0;
  cross = λ b e. ground arith;
}
Distinct-split (x ∷ xs) a ys d =
    let r = Distinct-split xs a ys d.1 in
    let out : (has x xs || has x (a ∷ ys)) ≡ false = ground (arith, has-append x xs (a ∷ ys)) in
    record {
      left = (ground arith, r.left);
      right = r.right;
      not_left = ground (arith, r.not_left);
      not_right = r.not_right;
      cross = λ b e. ground (arith, r.cross b);
    }

pub Distinct-join :
    (xs ys : List ℕ)
    → Distinct xs
    → Distinct ys
    → ((b : ℕ) → has b xs ≡ true → b ∉ ys)
    → Distinct (xs ++ ys)
Distinct-join [] ys d e c = e
Distinct-join (x ∷ xs) ys d e c = (
  ground (arith, has-append x xs ys, c x),
  Distinct-join xs ys d.1 e (λ b h. ground (arith, c b)),
)

-- A new element, put somewhere in the list, leaves the elements different.
pub Distinct-insert :
    (xs ys : List ℕ) (c : ℕ) → Distinct (xs ++ ys) → c ∉ (xs ++ ys) → Distinct (xs ++ c ∷ ys)
Distinct-insert [] ys c d o = (o, d)
Distinct-insert (x ∷ xs) ys c (o', d) o = (
  ground (arith, has-append x xs ys, has-append x xs (c ∷ ys)),
  Distinct-insert xs ys c d (ground arith),
)

pub Distinct-remove : (xs ys : List ℕ) (c : ℕ) → Distinct (xs ++ c ∷ ys) → Distinct (xs ++ ys)
Distinct-remove [] ys c d = d.1
Distinct-remove (x ∷ xs) ys c (o, d) =
    (ground (arith, has-append x xs ys, has-append x xs (c ∷ ys)), Distinct-remove xs ys c d)

pub Distinct-insert_after :
    (xs : List ℕ) (a : ℕ) (ys : List ℕ) (c : ℕ)
    → Distinct (xs ++ a ∷ ys)
    → c ∉ (xs ++ a ∷ ys)
    → Distinct (xs ++ a ∷ c ∷ ys)
Distinct-insert_after [] a ys c d o = (ground arith, (ground arith, d.1))
Distinct-insert_after (x ∷ xs) a ys c d o = (
  ground (arith, has-append x xs (a ∷ ys), has-append x xs (a ∷ c ∷ ys)),
  Distinct-insert_after xs a ys c d.1 (ground arith),
)

-- What `take` takes is in the list, and still different.
pub has-take : (a k : ℕ) (xs : List ℕ) → has a (take k xs) ≡ true → has a xs ≡ true
has-take a zero xs h = absurd (ground arith)
has-take a (suc k) [] h = h
has-take a (suc k) (x ∷ xs) h = ground (arith, has-take a k xs)

pub Distinct-take : (k : ℕ) (xs : List ℕ) → Distinct xs → Distinct (take k xs)
Distinct-take zero xs d = tt
Distinct-take (suc k) [] d = tt
Distinct-take (suc k) (x ∷ xs) (o, d) = (ground (arith, has-take x k xs), Distinct-take k xs d)

-- The index at which a list has an element.
pub index_of :
    (a : ℕ) (xs : List ℕ) → has a xs ≡ true → (i : ℕ) × (i < length xs) × (get_or xs i 0 ≡ a)
index_of a [] h = absurd (ground arith)
index_of a (x ∷ xs) h = elim (Bool-cases (a == x)) [
  | inl same ↦ (0, omega arith, ground arith)
  | inr apart ↦ let (i, lt, e) = index_of a xs (ground arith) in (suc i, omega arith, e)
]

pub Distinct-indices :
    (xs : List ℕ)
    → ((i j : ℕ) → i < length xs → j < length xs → get_or xs i 0 ≡ get_or xs j 0 → i ≡ j)
    → Distinct xs
Distinct-indices [] d = tt
Distinct-indices (x ∷ xs) d = (
  elim (Bool-cases (has x xs)) [
    | inr outside ↦ outside
    | inl inside ↦
        let (i, lt, e) = index_of x xs inside in
        let clash : 0 ≡ suc i = d 0 (suc i) (omega arith) (omega arith) (sym e) in
        absurd (omega (arith, clash))
  ],
  Distinct-indices xs λ i j p q e. omega (arith, d (suc i) (suc j) (omega arith) (omega arith) e),
)
