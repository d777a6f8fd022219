-- ===== src/Distribution/Range.antt =====
-- `next_rand` and `get_rand_int_range` of src/distribution.c: bounds, and what a draw changes.
use mathlib.Core.Bool.{not, true}
use acdc.Base.{refl, ℕ, ◌+◌, ◌-◌, ◌%◌, ◌≤◌, ◌<◌, ◌≡◌, arith}
use acdc.Base.Int.{
  ltb_ℤ, ◌+ℤ◌, neg_part, ℤ, pos, negsuc, pos_part, IsInt32, quot, rem, ◌*ℤ◌, ◌-ℤ◌, ◌≤ℤ◌,
}
use acdc.Base.Run.{ok}
use acdc.Types.{MContext}
use acdc.Distribution.{make_nonneg, next_rand_value, get_rand_int_range}

-- The parts of a number are small enough for the products.
lo-IsInt32 : (x : ℤ) → IsInt32 (pos 16807 *ℤ rem x 127773)
unfolding next_rand_value
lo-IsInt32 (pos n) = ground arith
lo-IsInt32 (negsuc n) = ground arith

hi-IsInt32 : (x : ℤ) → IsInt32 x → IsInt32 (pos 2836 *ℤ quot x 127773)
unfolding next_rand_value
hi-IsInt32 (pos n) h = ground arith
hi-IsInt32 (negsuc n) h = ground arith

difference : ℤ → ℤ
unfolding ◌-ℤ◌ ◌*ℤ◌ quot rem
difference x = pos 16807 *ℤ rem x 127773 -ℤ pos 2836 *ℤ quot x 127773

difference_small :
    (x : ℤ)
    → IsInt32 x
    → (pos_part (difference x) < 2147483647) × (neg_part (difference x) < 2147483647)
unfolding difference
difference_small (pos n) h = ground arith
difference_small (negsuc n) h = ground arith

make_nonneg_bounds :
    (r : ℤ)
    → pos_part r < 2147483647
    → neg_part r < 2147483647
    → (pos 0 ≤ℤ make_nonneg r) × (make_nonneg r ≤ℤ pos 2147483646)
unfolding make_nonneg
make_nonneg_bounds (pos n) p q = ground arith
make_nonneg_bounds (negsuc n) p q = ground arith

next_rand-difference : (x : ℤ) → next_rand_value x ≡ make_nonneg (difference x)
unfolding next_rand_value difference
next_rand-difference x = refl

difference-IsInt32 :
    (x : ℤ) → IsInt32 x → IsInt32 (pos 16807 *ℤ rem x 127773 -ℤ pos 2836 *ℤ quot x 127773)
unfolding difference
difference-IsInt32 x h = omega (arith, difference_small x h)

next_rand_range :
    (x : ℤ) → IsInt32 x → (pos 0 ≤ℤ next_rand_value x) × (next_rand_value x ≤ℤ pos 2147483646)
next_rand_range x h =
    let small = difference_small x h in
    rw next_rand-difference (make_nonneg_bounds (difference x) small.0 small.1)

-- From every `int` the products and the difference of `next_rand` are `int`s, so nothing overflows,
-- and the new number lies in [0, 2147483647).
pub next_rand_bounds :
    (x : ℤ)
    → IsInt32 x
    → IsInt32 (pos 16807 *ℤ rem x 127773)
      × IsInt32 (pos 2836 *ℤ quot x 127773)
      × IsInt32 (pos 16807 *ℤ rem x 127773 -ℤ pos 2836 *ℤ quot x 127773)
      × (pos 0 ≤ℤ next_rand_value x)
      × (next_rand_value x ≤ℤ pos 2147483646)
next_rand_bounds x h = (
  lo-IsInt32 x,
  hi-IsInt32 x h,
  difference-IsInt32 x h,
  (next_rand_range x h).0,
  (next_rand_range x h).1,
)

-- The generator never gets stuck: a number between 0 and the modulus has a successor that is not 0.
pub next_rand_positive : (n : ℕ) → 0 < n → n < 2147483647 → (0 < pos_part (next_rand_value (pos n)))
unfolding next_rand_value
next_rand_positive n p q = ground arith

-- The state after a draw, and the number drawn from [a, b].
abbrev pub advance : MContext → MContext
advance mc = record mc { rand = next_rand_value mc.rand }

abbrev pub drawn : MContext → ℕ → ℕ → ℕ
drawn mc a b = a + pos_part (next_rand_value mc.rand) % (b - a + 1)

pub next_rand_value-IsInt32 : (x : ℤ) → IsInt32 x → IsInt32 (next_rand_value x)
next_rand_value-IsInt32 x h = ground (arith, next_rand_range x h)

next_rand_value-pos : (x : ℤ) → IsInt32 x → next_rand_value x ≡ pos (pos_part (next_rand_value x))
next_rand_value-pos x h = ground (arith, next_rand_range x h)

pub drawn_bounds : (mc : MContext) (a b : ℕ) → a ≤ b → (a ≤ drawn mc a b) × (drawn mc a b ≤ b)
drawn_bounds mc a b h = omega arith

range-pos : (a b : ℕ) → a ≤ b → pos b -ℤ pos a +ℤ pos 1 ≡ pos (b - a + 1)
unfolding ◌-ℤ◌ ◌+ℤ◌
range-pos a b h = ground arith

add-pos : (a b : ℕ) → pos a +ℤ pos b ≡ pos (a + b)
unfolding ◌+ℤ◌
add-pos a b = ground arith

pub get_rand_int_range_lem :
    (a b : ℕ) (mc : MContext)
    → IsInt32 mc.rand
    → a ≤ b
    → get_rand_int_range (pos a) (pos b) mc ≡ ok (pos (drawn mc a b)) (advance mc)
unfolding get_rand_int_range
get_rand_int_range_lem a b mc h le =
    let test : not (ltb_ℤ (pos b) (pos a)) ≡ true = ground arith in
    rw (test, range-pos a b le, next_rand_value-pos mc.rand h, add-pos)
