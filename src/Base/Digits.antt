-- ===== src/Base/Digits.antt =====
-- The recursion on binary digits behind the bitwise operations, at any fuel that is enough.
use Prim.Native.Nat.{ℕ, zero, suc, ◌/◌, ◌≤◌, digits}
use mathlib.Core.Path.{◌≡◌, refl}
use native.Mathlib.Omega.{arith}

-- Every fuel that is at least the first number gives the same digits.
pub digits_enough :
    (z : ℕ → ℕ) (f : ℕ → ℕ → ℕ) (x y k l : ℕ) → x ≤ k → x ≤ l → digits z f k x y ≡ digits z f l x y
digits_enough z f zero y zero zero low high = refl
digits_enough z f zero y zero (suc l) low high = refl
digits_enough z f zero y (suc k) zero low high = refl
digits_enough z f zero y (suc k) (suc l) low high = refl
digits_enough z f (suc x) y zero l low high = absurd (omega arith)
digits_enough z f (suc x) y (suc k) zero low high = absurd (omega arith)
digits_enough z f (suc x) y (suc k) (suc l) low high =
    let halves = digits_enough z f (suc x / 2) (y / 2) k l (omega arith) (omega arith) in
    rw halves refl
