-- ===== src/Distribution/Objects.antt =====
-- `get_random_object_props` of src/distribution.c: how many objects a lifetime-size-class gets.
use native.Mathlib.Nat.{pow-le-pow_right, mod-eq_of_lt, one-le-pow}
use acdc.Base.{
  dec_lt, ℕ, ◌+◌, ◌-◌, ◌*◌, ◌%◌, ◌^◌, ◌≤◌, ◌<◌, ◌≡◌, refl, arith, true, ltb, lt→ltb, leb,
}
use acdc.Base.Int.{pos, IsInt32}
use acdc.Base.Run.{Returns}
use acdc.Types.{GOptions, MContext}
use acdc.SizeClass.{get_sizeclass, get_sizeclass_bounds}
use acdc.Distribution.{effect_of, get_random_object_props}
use acdc.Distribution.Range.{advance, drawn, drawn_bounds, next_rand_value-IsInt32}
use acdc.Distribution.Props.{
  get_random_liveness_lem, get_random_size_range, get_random_size_lem, get_random_type_lem,
}

-- The configurations for which no product of `get_random_object_props` wraps.
pub record IsConfigured (g : GOptions) : Type 0 where
  pub some_liveness : 1 ≤ g.min_liveness
  pub liveness : g.min_liveness ≤ g.max_liveness
  pub short : g.max_liveness < 2048
  pub sizes : g.min_object_sc < g.max_object_sc
  pub small : g.max_object_sc ≤ 31

square-le : (e b : ℕ) → e ≤ b → e * e ≤ b * b
square-le e b h = grind arith

-- Without a wrap the effect is the square of the distance to the maximum, plus one.
pub effect_of_lem :
    (max x : ℕ)
    → x ≤ max
    → max - x < 2048
    → (effect_of max x ≡ (max - x + 1) * (max - x + 1)) × (0 < (max - x + 1) * (max - x + 1))
effect_of_lem max x le small =
    let e = max - x + 1 in
    let bound = square-le e 2048 (omega arith) in
    let base : (max + 2 ^ 32 - x + 1) % 2 ^ 32 ≡ e = omega arith in
    let low = square-le 1 e (omega arith) in (rw base (omega arith), omega arith)

product-le : (a b c d : ℕ) → a ≤ b → c ≤ d → a * c ≤ b * d
product-le a b c d p q = grind arith

-- The size class of a size that lies between two powers of two.
get_sizeclass-lt : (size k : ℕ) → 0 < size → size < 2 ^ k → k ≤ 31 → get_sizeclass size < k
get_sizeclass-lt size k p q small = elim (dec_lt (get_sizeclass size) k) [
  | yes h ↦ h
  | no h ↦
      let pow =
        pow-le-pow_right {n = 2} (omega arith) {i = k} {j = get_sizeclass size} (omega arith) in
      let top = pow-le-pow_right {n = 2} (omega arith) {i = k} {j = 31} small in
      absurd (omega (arith, get_sizeclass_bounds size p (omega arith)))
]

abbrev pub square : ℕ → ℕ
square n = n * n

count_lem :
    (max_sc sc max_l lt : ℕ)
    → sc < max_sc
    → max_sc ≤ 31
    → 1 ≤ lt
    → lt ≤ max_l
    → max_l < 2048
    → let n = square (max_sc - sc + 1) * square (max_l - lt + 1) in
      (effect_of max_sc sc * effect_of max_l lt % 2 ^ 32 ≡ n) × (0 < n)
count_lem max_sc sc max_l lt p q r s t =
    let by_size = effect_of_lem max_sc sc (omega arith) (omega arith) in
    let by_life = effect_of_lem max_l lt s (omega arith) in
    let a = square (max_sc - sc + 1) in
    let b = square (max_l - lt + 1) in
    let a_le = square-le (max_sc - sc + 1) 32 (omega arith) in
    let b_le = square-le (max_l - lt + 1) 2047 (omega arith) in
    let ab = product-le a 1024 b 4190209 (omega arith) (omega arith) in
    let one = product-le 1 a 1 b (omega arith) (omega arith) in
    (rw (by_size.0, by_life.0) (mod-eq_of_lt (omega arith)), omega arith)

-- For a configuration whose products do not wrap, the drawn liveness and size are in their ranges,
-- and the number of objects is the product of the squared distances of the size class and of the
-- liveness to their maxima, plus one each; it is positive, so no assertion fails.
pub get_random_object_props_lem :
    (mc : MContext) (ratio : ℕ)
    → IsInt32 mc.rand
    → IsConfigured mc.gopts
    → ratio ≤ 100
    → mc.gopts.list_based_ratio ≡ pos ratio
    → mc.gopts.btree_based_ratio ≡ pos (100 - ratio)
    → Returns
        (λ p mc'.
          (mc.gopts.min_liveness ≤ p.liveness)
          × (p.liveness ≤ mc.gopts.max_liveness)
          × (2 ^ mc.gopts.min_object_sc ≤ p.size)
          × (p.size < 2 ^ mc.gopts.max_object_sc)
          × (p.num_objects
              ≡ square (mc.gopts.max_object_sc - get_sizeclass p.size + 1)
                * square (mc.gopts.max_liveness - p.liveness + 1))
          × (0 < p.num_objects)
          × (mc' ≡ advance (advance (advance (advance mc)))))
        (get_random_object_props mc)
unfolding get_random_object_props
get_random_object_props_lem mc ratio h conf le list btree =
    let g = mc.gopts in
    let lt = drawn mc g.min_liveness g.max_liveness in
    let in_lt = drawn_bounds mc g.min_liveness g.max_liveness conf.liveness in
    let mc₁ = advance mc in
    let h₁ = next_rand_value-IsInt32 mc.rand h in
    let h₂ = next_rand_value-IsInt32 mc₁.rand h₁ in
    let h₃ = next_rand_value-IsInt32 (advance mc₁).rand h₂ in
    let mc₃ = advance (advance mc₁) in
    let sc = drawn mc₁ g.min_object_sc (g.max_object_sc - 1) in
    let sz = drawn (advance mc₁) (2 ^ sc) (2 ^ (sc + 1) - 1) in
    let size_eq = get_random_size_lem mc₁ h₁ conf.sizes conf.small in
    let in_size = rw size_eq at (get_random_size_range mc₁ h₁ conf.sizes conf.small) in
    let lowest = one-le-pow g.min_object_sc 2 (omega arith) in
    let sz_pos : 0 < sz = omega (arith, in_size.0) in
    let class = get_sizeclass-lt sz g.max_object_sc sz_pos in_size.1 conf.small in
    let count =
      count_lem g.max_object_sc (get_sizeclass sz) g.max_liveness lt class conf.small (omega arith)
        in_lt.1 conf.short in
    let positive : ltb 0
          (effect_of g.max_object_sc (get_sizeclass sz) * effect_of g.max_liveness lt % 2 ^ 32)
        ≡ true =
      lt→ltb _ _ (rw count.0 count.1) in
    let below : leb sz (2 ^ g.max_object_sc) ≡ true = ground (arith, in_size.1) in
    rw
      (
        get_random_liveness_lem mc h conf.liveness (omega arith),
        size_eq,
        positive,
        below,
        get_random_type_lem mc₃ ratio h₃ le list btree,
      )
      (in_lt.0, in_lt.1, in_size.0, in_size.1, count.0, rw count.0 count.1, refl)
