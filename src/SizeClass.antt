-- ===== src/SizeClass.antt =====
-- `get_sizeclass` of src/memory.c. The logarithm of the C library is taken exactly: a `double`
-- represents every size below 2 ^ 53, and for sizes below 2 ^ 45 the logarithm does not round up.
use native.Mathlib.Nat.{pow-suc}
use acdc.Base.{ℕ, zero, suc, ◌/◌, ◌^◌, ◌≤◌, ◌<◌, inl, inr, arith, leb, if◌then◌else◌, Bool-cases}

-- The whole part of the binary logarithm, by halving; the fuel bounds the result.
unfoldable pub log2 : ℕ → ℕ → ℕ
log2 zero n = 0
log2 (suc f) n = let rest = suc (log2 f (n / 2)) in if leb n 1 then 0 else rest

unfoldable pub get_sizeclass : ℕ → ℕ
unfolding log2
get_sizeclass size = log2 64 size

log2_bounds : (f n : ℕ) → 0 < n → n < 2 ^ suc f → (2 ^ log2 f n ≤ n) × (n < 2 ^ suc (log2 f n))
unfolding log2
log2_bounds zero n p q = (omega (arith, pow-suc 2 0), q)
log2_bounds (suc f) n p q = elim (Bool-cases (leb n 1)) [
  | inl small ↦ rw small (ground (arith, pow-suc 2 0))
  | inr large ↦
      let ih = log2_bounds f (n / 2) (ground arith) (omega (arith, pow-suc 2 (suc f))) in
      rw large (
        omega (arith, ih.0, pow-suc 2 (log2 f (n / 2))),
        omega (arith, ih.1, pow-suc 2 (suc (log2 f (n / 2)))),
      )
]

-- The size class of a size is the exponent of the largest power of two that is not above it.
pub get_sizeclass_bounds :
    (size : ℕ)
    → 0 < size
    → size < 2 ^ 64
    → (2 ^ get_sizeclass size ≤ size) × (size < 2 ^ suc (get_sizeclass size))
unfolding get_sizeclass
get_sizeclass_bounds size p q = log2_bounds 64 size p (omega arith)
