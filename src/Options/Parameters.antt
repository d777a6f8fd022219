-- ===== src/Options/Parameters.antt =====
-- What the checks of the options accept (`check_params` of src/main.c), and which allocator is chosen.
use mathlib.Core.Option.{some-injective, none-ne-some}
use acdc.Base.{
  inr, inl, dec_lt, ◌≢◌, ◌⊎◌, ℕ, ◌+◌, ◌%◌, ◌^◌, ◌≤◌, ◌<◌, Bool, true, false, ◌==◌, ◌||◌,
  if◌then◌else◌, Option, none, some, ◌≡◌, refl, sym, ◌∙◌, ap, arith,
}
use acdc.Base.Int.{ℤ, pos, negsuc, ltb_ℤ, ◌-ℤ◌, ◌+ℤ◌}
use acdc.Types.{GOptions, Mode, acdc_mode, fs_mode}
use acdc.Options.{check_params, check_sizes, time_gap, params_for, complete_params}

-- All three sizes of the metadata are given, or none is.
abbrev pub SizesGiven : GOptions → Type 0
SizesGiven g = (0 < g.metadata_heap_sz) × (0 < g.node_buffer_size) × (0 < g.class_buffer_size)

abbrev pub NoSizeGiven : GOptions → Type 0
NoSizeGiven g = (g.metadata_heap_sz ≡ 0) × (g.node_buffer_size ≡ 0) × (g.class_buffer_size ≡ 0)

-- What the completed options satisfy: the ratios of lists and trees add up to 100, the time gap is the
-- given one or the largest liveness, and false sharing mode shares everything among all threads.
pub record IsCompleted (g c : GOptions) : Type 0 where
  pub ratios : c.list_based_ratio +ℤ c.btree_based_ratio ≡ pos 100
  pub mode : c.mode ≡ g.mode
  pub list_ratio : c.list_based_ratio ≡ g.list_based_ratio
  pub gap :
      ((n : ℕ) × (g.max_time_gap ≡ pos n) × (c.max_time_gap ≡ pos n))
      ⊎ ((n : ℕ) × (g.max_time_gap ≡ negsuc n) × (c.max_time_gap ≡ pos g.max_liveness))
  pub sharing :
      (g.mode ≡ acdc_mode)
      ⊎ ((c.shared_objects ≡ true)
          × (c.shared_objects_ratio ≡ 100)
          × (c.receiving_threads_ratio ≡ 100)
          × (c.access_live_objects ≡ false))
  pub sizes :
      (c.metadata_heap_sz ≡ g.metadata_heap_sz)
      × (c.node_buffer_size ≡ g.node_buffer_size)
      × (c.class_buffer_size ≡ g.class_buffer_size)

params_for-mode : (m : Mode) (r : GOptions) → (params_for m r).mode ≡ r.mode
unfolding params_for
params_for-mode acdc_mode r = refl
params_for-mode fs_mode r = refl

-- What the mode does not change.
params_for-same :
    (m : Mode) (g : GOptions)
    → let c = params_for m g in
      (c.list_based_ratio ≡ g.list_based_ratio)
      × (c.btree_based_ratio ≡ g.btree_based_ratio)
      × (c.max_time_gap ≡ g.max_time_gap)
      × (c.max_liveness ≡ g.max_liveness)
      × (c.metadata_heap_sz ≡ g.metadata_heap_sz)
      × (c.node_buffer_size ≡ g.node_buffer_size)
      × (c.class_buffer_size ≡ g.class_buffer_size)
unfolding params_for
params_for-same acdc_mode g = (refl, refl, refl, refl, refl, refl, refl)
params_for-same fs_mode g = (refl, refl, refl, refl, refl, refl, refl)

params_for-sharing :
    (m : Mode) (g : GOptions)
    → let c = params_for m g in
      (m ≡ acdc_mode)
      ⊎ ((c.shared_objects ≡ true)
          × (c.shared_objects_ratio ≡ 100)
          × (c.receiving_threads_ratio ≡ 100)
          × (c.access_live_objects ≡ false))
unfolding params_for
params_for-sharing acdc_mode g = inl refl
params_for-sharing fs_mode g = inr (refl, refl, refl, refl)

time_gap_cases :
    (a b : ℤ) (m n : ℕ)
    → b ≡ a
    → m ≡ n
    → ((k : ℕ) × (a ≡ pos k) × (time_gap b m ≡ pos k))
      ⊎ ((k : ℕ) × (a ≡ negsuc k) × (time_gap b m ≡ pos n))
unfolding time_gap
time_gap_cases (pos k) b m n e e' = inl (k, refl, ap (λ x. time_gap x m) e)
time_gap_cases (negsuc k) b m n e e' = inr (k, refl, ap (λ x. time_gap x m) e ∙ ap pos e')

ratios_add : (q : ℕ) → q ≤ 100 → pos q +ℤ (pos 100 -ℤ pos q) ≡ pos 100
unfolding ◌+ℤ◌ ◌-ℤ◌
ratios_add q h = ground arith

completed :
    (g : GOptions) (q : ℕ)
    → g.list_based_ratio ≡ pos q
    → q ≤ 100
    → IsCompleted g (complete_params g)
unfolding complete_params time_gap
completed g q e h =
    let r : GOptions = record g { btree_based_ratio = pos 100 -ℤ g.list_based_ratio } in
    let (l, b, t, m, s₁, s₂, s₃) = params_for-same g.mode r in
    record {
      ratios =
          ap (λ a. a +ℤ (params_for g.mode r).btree_based_ratio) l
          ∙ (ap (λ a. g.list_based_ratio +ℤ a) b
              ∙ (ap (λ a. a +ℤ (pos 100 -ℤ a)) e ∙ ratios_add q h));
      mode = params_for-mode g.mode r;
      list_ratio = l;
      gap =
          time_gap_cases g.max_time_gap (params_for g.mode r).max_time_gap
            (params_for g.mode r).max_liveness g.max_liveness t m;
      sharing = params_for-sharing g.mode r;
      sizes = (s₁, s₂, s₃);
    }

checked_ratio :
    (a : ℤ) → (ltb_ℤ a (pos 0) || ltb_ℤ (pos 100) a) ≡ false → (q : ℕ) × (a ≡ pos q) × (q ≤ 100)
checked_ratio (pos q) h = (q, refl, ground arith)
checked_ratio (negsuc n) h = absurd (ground arith)

-- The test of the sizes, by the sizes alone.
module _ (x : Option GOptions) (h : GOptions) (a b c : ℕ) (small : a + b + c < 2 ^ 64) where
  abbrev pub sizes_test : Option GOptions
  sizes_test =
      if a == 0 || b == 0 || c == 0 then (if (a + b + c) % 2 ^ 64 == 0 then x else none) else some h

  pub sizes_test-given : 0 < a → 0 < b → 0 < c → sizes_test ≡ some h
  sizes_test-given p q r = ground arith

  pub sizes_test-absent : a ≡ 0 → b ≡ 0 → c ≡ 0 → sizes_test ≡ x
  sizes_test-absent p q r = ground arith

  partial_sizes : (g : GOptions) → 0 < a + b + c → (a ≡ 0) ⊎ (b ≡ 0) ⊎ (c ≡ 0) → sizes_test ≢ some g
  partial_sizes g more zeros e =
      let refused : sizes_test ≡ none = ground arith in none-ne-some g (sym refused ∙ e)

  pub sizes_test_lem :
      (g : GOptions)
      → sizes_test ≡ some g
      → ((0 < a) × (0 < b) × (0 < c) × (h ≡ g)) ⊎ ((a ≡ 0) × (b ≡ 0) × (c ≡ 0) × (x ≡ some g))
  sizes_test_lem g e = elim (dec_lt 0 a) [
    | yes p ↦ elim (dec_lt 0 b) [
      | yes q ↦ elim (dec_lt 0 c) [
        | yes r ↦ inl (p, q, r, some-injective h g (sym (sizes_test-given p q r) ∙ e))
        | no r ↦ absurd (partial_sizes g (omega arith) (inr (inr (omega arith))) e)
      ]
      | no q ↦ absurd (partial_sizes g (omega arith) (inr (inl (omega arith))) e)
    ]
    | no p ↦ elim (dec_lt 0 (b + c)) [
      | yes q ↦ absurd (partial_sizes g (omega arith) (inl (omega arith)) e)
      | no q ↦ inr (
        omega arith,
        omega arith,
        omega arith,
        sym (sizes_test-absent (omega arith) (omega arith) (omega arith)) ∙ e,
      )
    ]
  ]

-- When the sum of the given sizes fits in a `size_t`, `check_params` accepts options only if the ratio of
-- lists is between 0 and 100, and the sizes of the metadata are all given, or none is given and their
-- detection succeeds. What it accepts are completed options.
pub check_params_lem :
    (autodetect : GOptions → Option GOptions) (g accepted : GOptions)
    → g.metadata_heap_sz + g.node_buffer_size + g.class_buffer_size < 2 ^ 64
    → check_params autodetect g ≡ some accepted
    → ((q : ℕ) × (g.list_based_ratio ≡ pos q) × (q ≤ 100))
      × ((c : GOptions) × IsCompleted g c
          × ((SizesGiven g × (c ≡ accepted)) ⊎ (NoSizeGiven g × (autodetect c ≡ some accepted))))
unfolding check_params check_sizes
check_params_lem autodetect g accepted small e =
    go (ltb_ℤ g.list_based_ratio (pos 0) || ltb_ℤ (pos 100) g.list_based_ratio) refl e
  where
    c : GOptions
    c = complete_params g

    go :
        (b : Bool)
        → (ltb_ℤ g.list_based_ratio (pos 0) || ltb_ℤ (pos 100) g.list_based_ratio) ≡ b
        → (if b then none else check_sizes autodetect c) ≡ some accepted
        → ((q : ℕ) × (g.list_based_ratio ≡ pos q) × (q ≤ 100))
          × ((c : GOptions) × IsCompleted g c
              × ((SizesGiven g × (c ≡ accepted))
                  ⊎ (NoSizeGiven g × (autodetect c ≡ some accepted))))
    go true bad e = absurd (none-ne-some accepted e)
    go false good e =
        let (q, ratio, bound) = checked_ratio g.list_based_ratio good in
        let done = completed g q ratio bound in
        let (s₁, s₂, s₃) = done.sizes in
        (
          (q, ratio, bound),
          (
            c,
            done,
            elim (sizes_test_lem (autodetect c) c c.metadata_heap_sz c.node_buffer_size
                c.class_buffer_size (omega (arith, s₁, s₂, s₃)) accepted e) [
                  | inl (p₁, p₂, p₃, same) ↦
                      inl ((omega (arith, s₁), omega (arith, s₂), omega (arith, s₃)), same)
                  | inr (p₁, p₂, p₃, detected) ↦
                      inr ((omega (arith, s₁), omega (arith, s₂), omega (arith, s₃)), detected)
                ],
          ),
        )
