-- ===== src/Thread/ClassSize.antt =====
-- The size of the class that `create_class` of src/acdc.c allocates.
use native.Mathlib.Nat.{mul-le-mul, pow-le-pow_right}
use acdc.Base.{ℕ, ◌-◌, ◌*◌, ◌%◌, ◌^◌, ◌≤◌, ◌<◌, ◌≡◌, ap, arith, true, ltb, ltb→lt}
use acdc.Base.Run.{Cmd, ◌>>=◌, ◌>>◌}
use acdc.Types.{GOptions, ClassType, Ptr}
use acdc.Distribution.{ObjectProps, get_random_object_props}
use acdc.Mutator.{World, in_context, set_context}
use acdc.Classes.{allocate_ls_class, allocate_of_type, count_allocated}
use acdc.Thread.{create_class, least_size, fixed_props}
use acdc.Thread.Frame.{Keeps, world_options, context_options, keeping}
use acdc.Thread.Draws.{
  get_random_liveness-Keeps, get_random_size-Keeps, get_random_lifetime_size_class_type-Keeps,
  get_sharing_dist-Keeps,
}
use acdc.Thread.RoundFrame.{
  count_objects-Keeps, share_ls_class-Keeps, get_shared_LClasses-Keeps, heap_class_insert-Keeps,
}
use acdc.Thread.ClassFrame.{allocate_of_type-Keeps}
use acdc.Thread.Under.{
  Under, Under-bind, Under-Keeps, Under-pure, Under-in_context, bind_keeping, bind_get, bind_assert,
}

-- Options for which the number of bytes of a class fits a word: those of the program are 32 bits wide.
pub record IsNarrow (o : GOptions) : Type 0 where
  pub size_class : o.max_object_sc ≤ 32
  pub fixed : o.fixed_number_of_objects < 2 ^ 32
  pub quantum : o.time_quantum < 2 ^ 32

-- What the assertions of `allocate_ls_class` say of its arguments.
pub record Allowed (o : GOptions) (sz n : ℕ) : Type 0 where
  pub some_size : 0 < sz
  pub size : sz < 2 ^ o.max_object_sc
  pub some_object : 0 < n

-- The number of bytes of a class.
pub record IsRoundSize (bytes : ℕ) : Type 0 where
  pub some_byte : 0 < bytes
  pub bounded : bytes ≤ (2 ^ 32 - 1) * (2 ^ 32 - 1)

module _ (o : GOptions) where
  narrow : (n : ℕ) → n % 2 ^ 32 < 2 ^ 32
  narrow n = omega arith

  drawn-Under : Under context_options o (λ p. p.num_objects < 2 ^ 32) get_random_object_props
  unfolding get_random_object_props
  drawn-Under =
      search
        (
          keeping, bind_get, bind_assert, bind_keeping, Under-pure, narrow,
          get_random_liveness-Keeps, get_random_size-Keeps,
          get_random_lifetime_size_class_type-Keeps,
        )
        depth 24

  allowed :
      (w : World) (sz n : ℕ)
      → w.mc.gopts ≡ o
      → ltb 0 sz ≡ true
      → ltb sz (2 ^ w.mc.gopts.max_object_sc) ≡ true
      → ltb 0 n ≡ true
      → Allowed o sz n
  allowed w sz n e b₁ b₂ b₃ =
      let same = ap (λ (g : GOptions). 2 ^ g.max_object_sc) e in
      record {
        some_size = ltb→lt 0 sz b₁;
        size = omega (arith, ltb→lt sz (2 ^ w.mc.gopts.max_object_sc) b₂, same);
        some_object = ltb→lt 0 n b₃;
      }

  counted-Keeps :
      (t : ClassType) (sz n : ℕ)
      → Keeps world_options (
          set_context (λ mc. record mc { stat = count_allocated sz n mc.stat })
          >> allocate_of_type t sz n)
  counted-Keeps t sz n = search (keeping, allocate_of_type-Keeps) depth 24

  allocate_ls_class-Under :
      (t : ClassType) (sz n : ℕ)
      → Under world_options o (λ _. Allowed o sz n) (allocate_ls_class t sz n)
  unfolding allocate_ls_class
  allocate_ls_class-Under t sz n = bind_get o world_options _ _ λ w e.
      bind_assert o world_options _ _ _ λ _ b₁. bind_assert o world_options _ _ _ λ _ b₂.
        bind_assert o world_options _ _ _ λ _ b₃.
          Under-Keeps world_options o (Allowed o sz n) _ (allowed w sz n e b₁ b₂ b₃)
            (counted-Keeps t sz n)

  bind_drawn :
      {B : Type 0} (Q : B → Type 0) (k : ObjectProps → Cmd World B)
      → ((p : ObjectProps) → p.num_objects < 2 ^ 32 → Under world_options o Q (k p))
      → Under world_options o Q (in_context get_random_object_props >>= k)
  bind_drawn Q k q =
      Under-bind world_options o (λ p. p.num_objects < 2 ^ 32) Q
        (in_context get_random_object_props) k
        (Under-in_context o _ get_random_object_props drawn-Under) q

  bind_allocate :
      {B : Type 0} (Q : B → Type 0) (t : ClassType) (sz n : ℕ) (k : Ptr → Cmd World B)
      → ((c : Ptr) → Allowed o sz n → Under world_options o Q (k c))
      → Under world_options o Q (allocate_ls_class t sz n >>= k)
  bind_allocate Q t sz n k q =
      Under-bind world_options o (λ _. Allowed o sz n) Q (allocate_ls_class t sz n) k
        (allocate_ls_class-Under t sz n) q

  count_narrow :
      (w : World) (p : ObjectProps)
      → IsNarrow o
      → w.mc.gopts ≡ o
      → p.num_objects < 2 ^ 32
      → (least_size (fixed_props w.mc.gopts p)).num_objects < 2 ^ 32
  unfolding least_size fixed_props
  count_narrow w p h e small =
      let fixed = ap (λ (g : GOptions). g.fixed_number_of_objects) e in
      ground (arith, h.fixed, fixed, small)

  round_size :
      (w : World) (p : ObjectProps)
      → IsNarrow o
      → w.mc.gopts ≡ o
      → p.num_objects < 2 ^ 32
      → (let q = least_size (fixed_props w.mc.gopts p) in
          Allowed o q.size q.num_objects → IsRoundSize (q.size * q.num_objects % 2 ^ 64))
  round_size w p h e small a =
      let q = least_size (fixed_props w.mc.gopts p) in
      let n = count_narrow w p h e small in
      let wide : 2 ^ o.max_object_sc ≤ 2 ^ 32 = pow-le-pow_right (omega arith) h.size_class in
      let most : q.size * q.num_objects ≤ (2 ^ 32 - 1) * (2 ^ 32 - 1) =
        mul-le-mul {n₂ = 2 ^ 32 - 1} {m₂ = 2 ^ 32 - 1} (omega (arith, a.size, wide))
          (omega (arith, n)) in
      let least : 1 * 1 ≤ q.size * q.num_objects = mul-le-mul a.some_size a.some_object in
      record { some_byte = omega (arith, most, least); bounded = omega (arith, most) }

  pub create_class-Under : IsNarrow o → Under world_options o IsRoundSize create_class
  unfolding create_class
  create_class-Under h =
      search
        (
          keeping, bind_get, bind_drawn, bind_allocate, bind_keeping, Under-pure, round_size,
          count_objects-Keeps, get_sharing_dist-Keeps, share_ls_class-Keeps,
          get_shared_LClasses-Keeps, heap_class_insert-Keeps,
        )
        depth 40
