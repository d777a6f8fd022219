-- ===== src/Distribution/Props.antt =====
-- What src/distribution.c draws for a lifetime-size-class: sharing, liveness, size and type.
use mathlib.Core.Bool.{not}
use native.Mathlib.Numerals.{add-one}
use native.Mathlib.Nat.{pow-suc, pow-le-pow_right, one-le-pow}
use acdc.Base.{
  ℕ, suc, ◌+◌, ◌-◌, ◌%◌, ◌^◌, ◌≤◌, ◌<◌, ◌≡◌, ◌↔◌, refl, arith, true, false, ltb, leb, ap,
  if◌then◌else◌,
}
use acdc.Base.Int.{pos, IsInt32, ltb_ℤ, ◌-ℤ◌}
use acdc.Base.Run.{ok, Returns}
use acdc.Types.{MContext, list_type, btree_type}
use acdc.Distribution.{
  get_sharing_dist, get_random_liveness, get_random_size, to_int,
  get_random_lifetime_size_class_type,
}
use acdc.Distribution.Range.{
  advance, drawn, drawn_bounds, get_rand_int_range_lem, next_rand_value-IsInt32,
}

-- A class is shared when the number drawn from [0, 100] is below the ratio.
pub get_sharing_dist_lem :
    (mc : MContext)
    → IsInt32 mc.rand
    → mc.gopts.shared_objects ≡ true
    → get_sharing_dist mc ≡ ok (ltb (drawn mc 0 100) mc.gopts.shared_objects_ratio) (advance mc)
unfolding get_sharing_dist
get_sharing_dist_lem mc h on = simp on (
    rw (get_rand_int_range_lem 0 100 mc h (omega arith))
      (ap (λ b. ok b (advance mc)) (ground arith)))

-- The draw is from 101 numbers, so with a sharing ratio of 100 percent a class is still not shared
-- exactly when 100 is drawn.
pub get_sharing_dist-hundred :
    (mc : MContext)
    → IsInt32 mc.rand
    → mc.gopts.shared_objects ≡ true
    → mc.gopts.shared_objects_ratio ≡ 100
    → Returns (λ shared mc'. (shared ≡ false) ↔ (drawn mc 0 100 ≡ 100)) (get_sharing_dist mc)
get_sharing_dist-hundred mc h on ratio =
    rw (get_sharing_dist_lem mc h on)
      (let bound = drawn_bounds mc 0 100 (omega arith) in rw ratio (ground arith))

pub get_random_liveness_lem :
    (mc : MContext)
    → IsInt32 mc.rand
    → mc.gopts.min_liveness ≤ mc.gopts.max_liveness
    → mc.gopts.max_liveness < 2 ^ 31
    → get_random_liveness mc
      ≡ ok (drawn mc mc.gopts.min_liveness mc.gopts.max_liveness) (advance mc)
unfolding get_random_liveness
get_random_liveness_lem mc h le small =
    rw (get_rand_int_range_lem mc.gopts.min_liveness mc.gopts.max_liveness mc h le)
      (ap (λ n. ok n (advance mc)) (omega (arith, drawn_bounds mc _ _ le)))

pow-lt :
    (k : ℕ) → k < 31 → (2 ^ k < 2 ^ 31) × (2 ^ (k + 1) - 1 < 2 ^ 31) × (2 ^ k ≤ 2 ^ (k + 1) - 1)
pow-lt k h = rw add-one (
    omega (
      arith,
      pow-le-pow_right {n = 2} (omega arith) {i = suc k} {j = 31} h,
      pow-suc 2 k,
      one-le-pow k 2 (omega arith),
    ))

to_int-pos : (n : ℕ) → n < 2 ^ 31 → to_int n ≡ pos n
to_int-pos n h = ground arith

pub sub-pos : (a : ℕ) → 0 < a → pos a -ℤ pos 1 ≡ pos (a - 1)
unfolding ◌-ℤ◌
sub-pos a h = ground arith

-- A size comes from the drawn size class: first the class, then a number of its range.
pub get_random_size_lem :
    (mc : MContext)
    → IsInt32 mc.rand
    → mc.gopts.min_object_sc < mc.gopts.max_object_sc
    → mc.gopts.max_object_sc ≤ 31
    → let sc = drawn mc mc.gopts.min_object_sc (mc.gopts.max_object_sc - 1) in
      get_random_size mc
      ≡ ok (drawn (advance mc) (2 ^ sc) (2 ^ (sc + 1) - 1)) (advance (advance mc))
unfolding get_random_size
get_random_size_lem mc h lt small =
    let lo = mc.gopts.min_object_sc in
    let hi = mc.gopts.max_object_sc in
    let le : lo ≤ hi - 1 = omega arith in
    let sc = drawn mc lo (hi - 1) in
    let in_sc = drawn_bounds mc lo (hi - 1) le in
    let small_sc : sc < 31 = omega arith in
    let pows = pow-lt sc small_sc in
    let fits = drawn_bounds (advance mc) (2 ^ sc) (2 ^ (sc + 1) - 1) pows.2 in
    let not_small : not (ltb_ℤ (pos sc) (pos lo)) ≡ true = ground arith in
    let not_large : not (ltb_ℤ (pos (hi - 1)) (pos sc)) ≡ true = ground arith in
    let size = drawn (advance mc) (2 ^ sc) (2 ^ (sc + 1) - 1) in
    let same : size % 2 ^ 32 ≡ size = omega arith in
    let pow_lo = pow-le-pow_right {n = 2} (omega arith) {i = lo} {j = sc} in_sc.0 in
    let pow_hi = pow-le-pow_right {n = 2} (omega arith) {i = sc + 1} {j = hi} (omega arith) in
    let at_least : leb (2 ^ lo) size ≡ true = ground arith in
    let at_most : leb size (2 ^ hi) ≡ true = ground arith in
    rw (
      sub-pos hi (omega arith),
      get_rand_int_range_lem lo (hi - 1) mc h le,
      not_small,
      not_large,
      to_int-pos (2 ^ sc) pows.0,
      to_int-pos (2 ^ (sc + 1) - 1) pows.1,
      get_rand_int_range_lem (2 ^ sc) (2 ^ (sc + 1) - 1) (advance mc)
          (next_rand_value-IsInt32 mc.rand h) pows.2,
      same,
      at_least,
      at_most,
    )

-- Every size lies in the range of the configured size classes, from the smallest size of the
-- smallest class up to the largest of the largest; none of the assertions fails.
pub get_random_size_range :
    (mc : MContext)
    → IsInt32 mc.rand
    → mc.gopts.min_object_sc < mc.gopts.max_object_sc
    → mc.gopts.max_object_sc ≤ 31
    → Returns
        (λ sz mc'.
          (2 ^ mc.gopts.min_object_sc ≤ sz)
          × (sz < 2 ^ mc.gopts.max_object_sc)
          × (mc' ≡ advance (advance mc)))
        (get_random_size mc)
get_random_size_range mc h lt small =
    let lo = mc.gopts.min_object_sc in
    let hi = mc.gopts.max_object_sc in
    let sc = drawn mc lo (hi - 1) in
    let in_sc = drawn_bounds mc lo (hi - 1) (omega arith) in
    let pows = pow-lt sc (omega arith) in
    let fits = drawn_bounds (advance mc) (2 ^ sc) (2 ^ (sc + 1) - 1) pows.2 in
    let pow_lo = pow-le-pow_right {n = 2} (omega arith) {i = lo} {j = sc} in_sc.0 in
    let pow_hi = pow-le-pow_right {n = 2} (omega arith) {i = sc + 1} {j = hi} (omega arith) in
    let pos_sc = one-le-pow sc 2 (omega arith) in
    rw (get_random_size_lem mc h lt small) (omega arith, omega arith, refl)

-- With ratios that add up to 100 the type is a tree when the number drawn from [0, 100] lies
-- between the list ratio and 100, and a list otherwise: also when it is 100, so that a list ratio
-- of 0 still gives lists.
pub get_random_type_lem :
    (mc : MContext) (ratio : ℕ)
    → IsInt32 mc.rand
    → ratio ≤ 100
    → mc.gopts.list_based_ratio ≡ pos ratio
    → mc.gopts.btree_based_ratio ≡ pos (100 - ratio)
    → let r = drawn mc 0 100 in
      get_random_lifetime_size_class_type mc
      ≡ ok
          (if ltb r ratio then list_type else if ltb r 100 then btree_type else list_type)
          (advance mc)
unfolding get_random_lifetime_size_class_type
get_random_type_lem mc ratio h le list btree =
    let bound = drawn_bounds mc 0 100 (omega arith) in
    simp (get_rand_int_range_lem 0 100 mc h (omega arith), list, btree)
      (ap (λ t. ok t (advance mc)) (ground arith))
