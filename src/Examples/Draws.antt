-- ===== src/Examples/Draws.antt =====
-- The random numbers.
use acdc.Base.{◌+◌, ◌-◌, ◌*◌, ◌^◌, ◌≤◌, ◌<◌, ◌≡◌, ◌↔◌, refl, arith, false}
use acdc.Base.Int.{pos, negsuc, IsInt32, ◌≤ℤ◌, ◌*ℤ◌, ◌-ℤ◌, quot, rem}
use acdc.Base.Run.{Returns}
use acdc.SizeClass.{get_sizeclass}
use acdc.Distribution.{
  next_rand_value, get_sharing_dist, get_random_thread_selection, get_random_object_props,
}
use acdc.Distribution.Schrage.{next_rand-lehmer}
use acdc.Distribution.Range.{next_rand_bounds, advance, drawn}
use acdc.Distribution.Props.{get_sharing_dist-hundred}
use acdc.Distribution.Objects.{IsConfigured, square, get_random_object_props_lem}
use acdc.Distribution.Selection.{IsArrangement, get_random_thread_selection-IsArrangement}
use acdc.Examples.{sample_context, sample_options}

next_rand-lehmer_example : next_rand_value (pos 16807) ≡ pos 282475249
next_rand-lehmer_example = next_rand-lehmer 16807 (omega arith)

next_rand_bounds_example :
    IsInt32 (pos 16807 *ℤ rem (negsuc 4) 127773)
    × IsInt32 (pos 2836 *ℤ quot (negsuc 4) 127773)
    × IsInt32 (pos 16807 *ℤ rem (negsuc 4) 127773 -ℤ pos 2836 *ℤ quot (negsuc 4) 127773)
    × (pos 0 ≤ℤ next_rand_value (negsuc 4))
    × (next_rand_value (negsuc 4) ≤ℤ pos 2147483646)
next_rand_bounds_example = next_rand_bounds (negsuc 4) (omega arith)

get_sharing_dist-hundred_example :
    Returns
      (λ shared mc. (shared ≡ false) ↔ (drawn sample_context 0 100 ≡ 100))
      (get_sharing_dist sample_context)
get_sharing_dist-hundred_example = get_sharing_dist-hundred sample_context (omega arith) refl refl

get_random_thread_selection-IsArrangement_example :
    Returns
      (λ (ids, k) mc.
        IsArrangement 4 ids × (k ≡ 4) × (k ≤ 4) × (mc ≡ record sample_context { rand = mc.rand }))
      (get_random_thread_selection sample_context)
get_random_thread_selection-IsArrangement_example =
    get_random_thread_selection-IsArrangement sample_context (omega arith) (omega arith)
      (omega arith)

sample_options-IsConfigured : IsConfigured sample_options
sample_options-IsConfigured = record {
  some_liveness = omega arith;
  liveness = omega arith;
  short = omega arith;
  sizes = omega arith;
  small = omega arith;
}

get_random_object_props_lem_example :
    Returns
      (λ p mc.
        (1 ≤ p.liveness)
        × (p.liveness ≤ 10)
        × (2 ^ 4 ≤ p.size)
        × (p.size < 2 ^ 8)
        × (p.num_objects ≡ square (8 - get_sizeclass p.size + 1) * square (10 - p.liveness + 1))
        × (0 < p.num_objects)
        × (mc ≡ advance (advance (advance (advance sample_context)))))
      (get_random_object_props sample_context)
get_random_object_props_lem_example =
    get_random_object_props_lem sample_context 70 (omega arith) sample_options-IsConfigured
      (omega arith) refl refl
