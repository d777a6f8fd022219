-- ===== src/Options.antt =====
-- The options of the program, src/main.c: their defaults, the command line, the checks, and the choice
-- of the allocator. `getopt` yields a list of letters and arguments, which are lists of bytes.
pub mod Parameters
pub mod Detection
pub mod Detected
use acdc.Base.{
  ℕ, ◌+◌, ◌-◌, ◌*◌, ◌%◌, ◌^◌, true, false, List, [], ◌∷◌, leb, ◌==◌, ◌&&◌, ◌||◌, if◌then◌else◌,
  Option, none, some,
}
use acdc.Base.Int.{ℤ, pos, negsuc, pos_part, ltb_ℤ, ◌-ℤ◌, sub_ℕ}
use acdc.Base.Text.{codes, starts_with}
use acdc.Types.{GOptions, Mode, acdc_mode, fs_mode}

-- `set_default_params`.
unfoldable pub default_params : GOptions
default_params = record {
  mode = acdc_mode;
  num_threads = 1;
  time_quantum = 2 ^ 18;
  benchmark_duration = 100;
  seed = pos 1;
  metadata_heap_sz = 0;
  min_liveness = 1;
  max_liveness = 10;
  fixed_number_of_objects = 0;
  deallocation_delay = 0;
  max_time_gap = negsuc 0;
  min_object_sc = 4;
  max_object_sc = 8;
  list_based_ratio = pos 100;
  btree_based_ratio = pos 0;
  node_buffer_size = 0;
  class_buffer_size = 0;
  write_iterations = 1;
  access_live_objects = false;
  write_access_ratio = 10;
  shared_objects = false;
  shared_objects_ratio = 0;
  receiving_threads_ratio = 100;
  verbosity = 0;
  allocator_name = codes "UNDEFINED";
  do_baseline_rss = false;
  use_hugepages = false;
  use_compact_allocation = false;
}

-- The digits of a decimal number, up to the first other byte.
unfoldable pub digits : ℕ → List ℕ → ℕ
digits n [] = n
digits n (c ∷ cs) =
    let rest = digits (10 * n + (c - 48)) cs in if leb 48 c && leb c 57 then rest else n

-- `atoi`, on an argument without leading blanks, of a number in the range of `int`.
unfoldable pub atoi : List ℕ → ℤ
unfolding digits
atoi [] = pos 0
atoi (c ∷ cs) =
    if c == 45
    then sub_ℕ 0 (digits 0 cs)
    else if c == 43
    then pos (digits 0 cs)
    else pos (digits 0 (c ∷ cs))

-- The conversion of an `int` to `size_t`.
abbrev pub to_size : ℤ → ℕ
to_size (pos n) = n
to_size (negsuc n) = 2 ^ 64 - 1 - n

-- The letters that `getopt` yields; `other` is every letter without a case.
pub data Letter : Type 0 where
  lower_a lower_f lower_n lower_t lower_d lower_r lower_l lower_g lower_s lower_q : Letter
  lower_i lower_w lower_v lower_h : Letter
  upper_h upper_l upper_d upper_s upper_f upper_n upper_c upper_o upper_r upper_t : Letter
  upper_a upper_p other : Letter

-- The `switch` of `main`, where `optarg` is the argument of the option. `none` is a call of `exit`.
-- Negative numbers of `int` options that the model holds as natural numbers are not modelled: they
-- count as 0.
unfoldable pub apply_option : Letter → List ℕ → GOptions → Option GOptions
apply_option lower_a optarg g = some (record g { mode = acdc_mode })
apply_option lower_f optarg g = some (record g { mode = fs_mode })
apply_option lower_n optarg g = some (record g { num_threads = pos_part (atoi optarg) })
apply_option lower_t optarg g = some (record g { time_quantum = to_size (atoi optarg) })
apply_option lower_d optarg g = some (record g { benchmark_duration = pos_part (atoi optarg) })
apply_option lower_r optarg g = some (record g { seed = atoi optarg })
apply_option upper_h optarg g = some (record g { metadata_heap_sz = to_size (atoi optarg) })
apply_option lower_l optarg g = some (record g { min_liveness = pos_part (atoi optarg) })
apply_option upper_l optarg g = some (record g { max_liveness = pos_part (atoi optarg) })
apply_option upper_d optarg g = some (record g { deallocation_delay = pos_part (atoi optarg) })
apply_option lower_g optarg g = some (record g { max_time_gap = atoi optarg })
apply_option lower_s optarg g = some (record g { min_object_sc = pos_part (atoi optarg) })
apply_option upper_s optarg g = some (record g { max_object_sc = pos_part (atoi optarg) })
apply_option upper_f optarg g = some (record g { fixed_number_of_objects = pos_part (atoi optarg) })
apply_option upper_n optarg g = some (record g { node_buffer_size = to_size (atoi optarg) })
apply_option upper_c optarg g = some (record g { class_buffer_size = to_size (atoi optarg) })
apply_option upper_r optarg g = some (record g { shared_objects_ratio = pos_part (atoi optarg) })
apply_option upper_t optarg g = some (record g { receiving_threads_ratio = pos_part (atoi optarg) })
apply_option lower_q optarg g = some (record g { list_based_ratio = atoi optarg })
apply_option lower_i optarg g = some (record g { write_iterations = pos_part (atoi optarg) })
apply_option lower_w optarg g = some (record g { write_access_ratio = pos_part (atoi optarg) })
apply_option upper_o optarg g = some (record g { shared_objects = true })
apply_option upper_a optarg g = some (record g { access_live_objects = true })
apply_option upper_p optarg g = some (record g { allocator_name = optarg })
apply_option lower_v optarg g = some (record g { verbosity = g.verbosity + 1 })
apply_option lower_h optarg g = none
apply_option other optarg g = some g

-- The next round of the loop, unless `exit` was called.
abbrev pub next_option : Option GOptions → (GOptions → Option GOptions) → Option GOptions
next_option none k = none
next_option (some g) k = k g

-- The loop over the options.
unfoldable pub apply_options : List (Letter × List ℕ) → GOptions → Option GOptions
apply_options [] g = some g
apply_options ((letter, optarg) ∷ rest) g =
    next_option (apply_option letter optarg g) (apply_options rest)

-- The assignments for false sharing mode.
unfoldable pub params_for : Mode → GOptions → GOptions
params_for acdc_mode g = g
params_for fs_mode g = record g {
  receiving_threads_ratio = 100;
  shared_objects = true;
  shared_objects_ratio = 100;
  access_live_objects = false;
  write_access_ratio = 100;
}

-- A negative time gap stands for the largest liveness.
unfoldable pub time_gap : ℤ → ℕ → ℤ
time_gap (pos n) max_liveness = pos n
time_gap (negsuc n) max_liveness = pos max_liveness

-- The assignments between the tests.
unfoldable pub complete_params : GOptions → GOptions
unfolding ◌-ℤ◌
complete_params g =
    let ratios = record g { btree_based_ratio = pos 100 -ℤ g.list_based_ratio } in
    let sharing = params_for ratios.mode ratios in
    record sharing { max_time_gap = time_gap sharing.max_time_gap sharing.max_liveness }

-- The last test: all three sizes are given, or none, and then they are detected. The sum is a `size_t`.
unfoldable pub check_sizes : (GOptions → Option GOptions) → GOptions → Option GOptions
check_sizes autodetect g =
    if g.metadata_heap_sz == 0 || g.node_buffer_size == 0 || g.class_buffer_size == 0
    then (if (g.metadata_heap_sz + g.node_buffer_size + g.class_buffer_size) % 2 ^ 64 == 0
        then autodetect g
        else none)
    else some g

-- `check_params`, given `autodetect_metadata_parameters`, which computes with floating point numbers.
unfoldable pub check_params : (GOptions → Option GOptions) → GOptions → Option GOptions
check_params autodetect g =
    if ltb_ℤ g.list_based_ratio (pos 0) || ltb_ℤ (pos 100) g.list_based_ratio
    then none
    else check_sizes autodetect (complete_params g)

-- The allocator that `acdc_alloc` and `acdc_free` point to.
pub data Allocator : Type 0 where
  system_allocator nulloc_allocator : Allocator

unfoldable pub set_allocation_pointers : GOptions → Allocator × GOptions
set_allocation_pointers g =
    let nulloc = starts_with (codes "nulloc") g.allocator_name in
    let compact = starts_with (codes "compact") g.allocator_name in
    (
      if nulloc then nulloc_allocator else system_allocator,
      record g {
        do_baseline_rss = nulloc || g.do_baseline_rss;
        use_compact_allocation = compact || g.use_compact_allocation;
      },
    )
