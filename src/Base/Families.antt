-- ===== src/Base/Families.antt =====
-- Families of values indexed by thread: a new value for one thread, and sums over the first threads.
use Prim.Native.Nat.{ℕ, zero, suc, ◌+◌, ◌*◌, ◌≤◌, ◌<◌}
use mathlib.Core.Path.{◌≡◌, refl}
use native.Mathlib.Decide.{dec_lt}
use native.Mathlib.Omega.{arith}
use acdc.Base.Tests.{ltb, ◌==◌, if◌then◌else◌}

abbrev pub update {ℓ} : {A : Type ℓ} → (ℕ → A) → ℕ → A → ℕ → A
update f i a j = if j == i then a else f j

unfoldable pub total : ℕ → (ℕ → ℕ) → ℕ
total zero f = 0
total (suc n) f = total n f + f n

-- The sum moves by the difference at the index, when it is one of the summed ones.
total-update_either :
    (n : ℕ) (f : ℕ → ℕ) (i a : ℕ)
    → total n (update f i a) + (if ltb i n then f i else 0) ≡ total n f + (if ltb i n then a else 0)
unfolding total
total-update_either zero f i a = ground arith
total-update_either (suc n) f i a = let before = total-update_either n f i a in ground arith

pub total-update :
    (n : ℕ) (f : ℕ → ℕ) (i a : ℕ) → i < n → total n (update f i a) + f i ≡ total n f + a
total-update n f i a h = ground (arith, total-update_either n f i a)

pub total-le : (n m : ℕ) (f : ℕ → ℕ) → ((i : ℕ) → i < n → f i ≤ m) → total n f ≤ n * m
unfolding total
total-le zero m f h = omega arith
total-le (suc n) m f h = omega (arith, total-le n m f (λ i p. h i (omega arith)), h n (omega arith))

pub total-eq_zero : (n : ℕ) (f : ℕ → ℕ) → ((i : ℕ) → f i ≡ 0) → total n f ≡ 0
unfolding total
total-eq_zero zero f h = refl
total-eq_zero (suc n) f h = omega (arith, total-eq_zero n f h, h n)

-- A sum that reaches the most that it can be is made of the largest values.
pub total_max :
    (n m : ℕ) (f : ℕ → ℕ)
    → ((i : ℕ) → i < n → f i ≤ m)
    → n * m ≤ total n f
    → (i : ℕ) → i < n
    → f i ≡ m
unfolding total
total_max zero m f h full i p = absurd (omega arith)
total_max (suc n) m f h full i p =
    let rest = total-le n m f (λ j q. h j (omega arith)) in
    let top = h n (omega arith) in
    elim (dec_lt i n) [
      | yes below ↦ total_max n m f (λ j q. h j (omega arith)) (omega arith) i below
      | no last ↦ let here : i ≡ n = omega arith in rw here (omega arith)
    ]

-- A sum below `n * m` has a value below `m`.
pub total_find : (n m : ℕ) (f : ℕ → ℕ) → total n f < n * m → (i : ℕ) × (i < n) × (f i < m)
unfolding total
total_find zero m f h = absurd (omega arith)
total_find (suc n) m f h = elim (dec_lt (f n) m) [
  | yes small ↦ (n, omega arith, small)
  | no large ↦ let (i, below, small) = total_find n m f (omega arith) in (i, omega arith, small)
]
