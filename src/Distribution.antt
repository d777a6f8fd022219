-- ===== src/Distribution.antt =====
-- src/distribution.c: the random numbers of a thread, and what is drawn from them.
pub mod Objects
pub mod Props
pub mod Range
pub mod Selection
pub mod Schrage
use acdc.Base.{
  ℕ, zero, suc, ◌+◌, ◌-◌, ◌*◌, ◌/◌, ◌%◌, ◌^◌, Bool, false, ◌||◌, List, [], ◌∷◌, leb, ltb, ◌==◌,
  if◌then◌else◌, get_or, set,
}
use acdc.Base.Int.{ℤ, pos, negsuc, pos_part, ◌+ℤ◌, ◌-ℤ◌, ◌*ℤ◌, ltb_ℤ, quot, rem, to_unsigned}
use acdc.Base.Run.{Cmd, pure, stop, get_state, put_state, assert, ◌>>=◌, ◌>>◌, division_by_zero}
use Prim.Native.Nat.{bit_xor}
use mathlib.Core.Bool.{not}
use acdc.Types.{MContext, ClassType, list_type, btree_type}
use acdc.SizeClass.{get_sizeclass}

-- `if (mc->rand < 0) mc->rand += 2147483647`.
unfoldable pub make_nonneg : ℤ → ℤ
unfolding ◌+ℤ◌
make_nonneg new = if ltb_ℤ new (pos 0) then new +ℤ pos 2147483647 else new

-- `next_rand`, on the number that it keeps in `mc->rand`.
unfoldable pub next_rand_value : ℤ → ℤ
unfolding ◌-ℤ◌ ◌*ℤ◌ quot rem make_nonneg
next_rand_value rand =
    let hi = quot rand 127773 in
    let lo = rem rand 127773 in make_nonneg (pos 16807 *ℤ lo -ℤ pos 2836 *ℤ hi)

unfoldable pub next_rand : Cmd MContext (Unit {0})
unfolding next_rand_value
next_rand = do mc ← get_state; put_state (record mc { rand = next_rand_value mc.rand })

-- A random integer in [from, to].
unfoldable pub get_rand_int_range : ℤ → ℤ → Cmd MContext ℤ
unfolding next_rand ◌+ℤ◌ ◌-ℤ◌ rem
get_rand_int_range from to = do
  assert (not (ltb_ℤ to from))
  next_rand
  mc ← get_state
  let range = to -ℤ from +ℤ pos 1
  let small_rand = rem mc.rand (pos_part range)
  pure (from +ℤ small_rand)

unfoldable pub get_sharing_dist : Cmd MContext Bool
get_sharing_dist = do
  mc ← get_state
  if not mc.gopts.shared_objects then pure false else do
    r ← get_rand_int_range (pos 0) (pos 100)
    pure (ltb_ℤ r (pos mc.gopts.shared_objects_ratio))

unfoldable pub get_random_liveness : Cmd MContext ℕ
get_random_liveness = do
  mc ← get_state
  r ← get_rand_int_range (pos mc.gopts.min_liveness) (pos mc.gopts.max_liveness)
  pure (to_unsigned r)

-- The conversion of an `unsigned long` to `int`.
abbrev pub to_int : ℕ → ℤ
to_int n = let w = n % 2 ^ 32 in if ltb w (2 ^ 31) then pos w else negsuc (2 ^ 32 - w - 1)

unfoldable pub get_random_size : Cmd MContext ℕ
unfolding ◌-ℤ◌
get_random_size = do
  mc ← get_state
  sc ← get_rand_int_range (pos mc.gopts.min_object_sc) (pos mc.gopts.max_object_sc -ℤ pos 1)
  assert (not (ltb_ℤ sc (pos mc.gopts.min_object_sc)))
  assert (not (ltb_ℤ (pos mc.gopts.max_object_sc -ℤ pos 1) sc))
  r ← get_rand_int_range (to_int (2 ^ pos_part sc)) (to_int (2 ^ (pos_part sc + 1) - 1))
  let sz = to_unsigned r
  assert (leb (2 ^ mc.gopts.min_object_sc) sz)
  assert (leb sz (2 ^ mc.gopts.max_object_sc))
  pure sz

unfoldable pub get_random_lifetime_size_class_type : Cmd MContext ClassType
unfolding ◌+ℤ◌
get_random_lifetime_size_class_type = do
  mc ← get_state
  drawn ← get_rand_int_range (pos 0) (pos 100)
  let r = to_unsigned drawn
  pure (
      if ltb r (to_unsigned mc.gopts.list_based_ratio)
      then list_type
      else if ltb r (to_unsigned (mc.gopts.list_based_ratio +ℤ mc.gopts.btree_based_ratio))
      then btree_type
      else list_type)

-- `swap_int` on two elements of an array, by exclusive or; at one address it does nothing.
unfoldable pub swap_int : List ℕ → ℕ → ℕ → List ℕ
swap_int array a b =
    if a == b
    then array
    else let x = bit_xor (get_or array a 0) (get_or array b 0) in
      let y = bit_xor (get_or array b 0) x in set (set array b y) a (bit_xor x y)

-- `thread_id_array[i] = i` for each `i` from `from` to `from + n - 1`.
unfoldable pub thread_ids : ℕ → ℕ → List ℕ
thread_ids zero from = []
thread_ids (suc n) from = from ∷ thread_ids n (from + 1)

-- The rounds of the loop that removes identifiers: the array and the number of those that are left.
unfoldable pub remove_thread_ids : ℕ → List ℕ → ℕ → Cmd MContext (List ℕ × ℕ)
unfolding ◌-ℤ◌
remove_thread_ids zero array size = pure (array, size)
remove_thread_ids (suc n) array size = do
  id ← get_rand_int_range (pos 0) (pos size -ℤ pos 1)
  remove_thread_ids n (swap_int array (pos_part id) (size - 1)) (size - 1)

unfoldable pub get_random_thread_selection : Cmd MContext (List ℕ × ℕ)
get_random_thread_selection = do
  mc ← get_state
  let ratio = mc.gopts.receiving_threads_ratio
  if ratio == 0 || 100 / ratio == 0 then stop division_by_zero else do
    let sharing = mc.gopts.num_threads / (100 / ratio)
    remove_thread_ids (mc.gopts.num_threads - sharing) (thread_ids mc.gopts.num_threads 0)
        mc.gopts.num_threads

-- The results of `get_random_object_props`.
pub record ObjectProps : Type 0 where
  pub size : ℕ
  pub liveness : ℕ
  pub num_objects : ℕ
  pub type : ClassType

-- `(max - x) + 1`, squared, in `unsigned int`.
abbrev pub effect_of : ℕ → ℕ → ℕ
effect_of max x = let e = (max + 2 ^ 32 - x + 1) % 2 ^ 32 in e * e % 2 ^ 32

unfoldable pub get_random_object_props : Cmd MContext ObjectProps
get_random_object_props = do
  mc ← get_state
  lt ← get_random_liveness
  sz ← get_random_size
  let sc = get_sizeclass sz
  let num_objects =
      effect_of mc.gopts.max_object_sc sc * effect_of mc.gopts.max_liveness lt % 2 ^ 32
  assert (ltb 0 num_objects)
  assert (leb sz (2 ^ mc.gopts.max_object_sc))
  type ← get_random_lifetime_size_class_type
  pure (record { size = sz; liveness = lt; num_objects = num_objects; type = type })
