-- ===== src/Base/Double.antt =====
-- What src/main.c and src/acdc.c do with a `double`: the conversions from and to integers, and the
-- arithmetic. Exact fractions are one instance of it.
use Prim.Native.Nat.{ℕ, zero, suc, ◌+◌, ◌*◌}
use mathlib.Core.Bool.{Bool}
use acdc.Base.Int.{ℤ, pos, negsuc, ◌+ℤ◌, ◌-ℤ◌, ◌*ℤ◌, quot, ltb_ℤ}

pub record Arithmetic : Type 1 where
  pub Double : Type 0
  pub of_int : ℤ → Double
  -- `(int)`, which rounds towards zero.
  pub to_int : Double → ℤ
  pub add : Double → Double → Double
  pub sub : Double → Double → Double
  pub mul : Double → Double → Double
  pub div : Double → Double → Double
  -- `a > b`
  pub gt : Double → Double → Bool

abbrev pub of_nat : (d : Arithmetic) → ℕ → d.Double
of_nat d n = d.of_int (pos n)

-- A fraction `num / (below + 1)`.
pub record Fraction : Type 0 where
  pub num : ℤ
  pub below : ℕ

abbrev denominator : Fraction → ℕ
denominator x = suc x.below

-- A fraction with a product of two positive numbers below.
abbrev over : ℤ → ℕ → ℕ → Fraction
over n b c = record { num = n; below = b * c + b + c }

-- The quotient of `x` and `num / (below + 1)`; by 0 it is 0.
unfoldable pub divided : Fraction → ℤ → ℕ → Fraction
unfolding ◌*ℤ◌
divided x (pos zero) b = record { num = pos 0; below = 0 }
divided x (pos (suc n)) b = over (x.num *ℤ pos (suc b)) x.below n
divided x (negsuc n) b = over (x.num *ℤ negsuc b) x.below n

unfoldable pub fractions : Arithmetic
unfolding divided ◌*ℤ◌ ◌+ℤ◌ ◌-ℤ◌ quot
fractions = record {
  Double = Fraction;
  of_int = λ n. record { num = n; below = 0 };
  to_int = λ x. quot x.num (denominator x);
  add = λ x y. over (x.num *ℤ pos (denominator y) +ℤ y.num *ℤ pos (denominator x)) x.below y.below;
  sub = λ x y. over (x.num *ℤ pos (denominator y) -ℤ y.num *ℤ pos (denominator x)) x.below y.below;
  mul = λ x y. over (x.num *ℤ y.num) x.below y.below;
  div = λ x y. divided x y.num y.below;
  gt = λ x y. ltb_ℤ (y.num *ℤ pos (denominator x)) (x.num *ℤ pos (denominator y));
}
