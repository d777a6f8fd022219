-- ===== src/Options/Detection.antt =====
-- `autodetect_metadata_parameters` of src/main.c, for any arithmetic of `double`s.
use acdc.Base.{ℕ, ◌+◌, ◌*◌, ◌/◌, ◌%◌, ◌^◌, Option, none, some, if◌then◌else◌}
use acdc.Base.Int.{pos, pos_part, ◌*ℤ◌}
use acdc.Base.Double.{Arithmetic, of_nat}
use acdc.Types.{GOptions, l1_line_sz}
use acdc.Options.{to_size}

-- The size of the metadata heap in MB: one for each thread, and the buffers.
unfoldable pub heap_for : GOptions → ℕ → ℕ → ℕ
heap_for g classes nodes =
    (g.num_threads
      + (classes * l1_line_sz + nodes * l1_line_sz) * g.num_threads % 2 ^ 64 / (1024 * 1024))
    % 2 ^ 64

module _ (d : Arithmetic) where
  open d use {Double, of_int, to_int, add, sub, mul, div, gt}

  -- The mean of two numbers.
  unfoldable pub expected : ℕ → ℕ → Double
  expected largest least = div (of_nat d (largest + least)) (of_nat d 2)

  -- `expected_sz`
  unfoldable pub expected_size : Double → Double
  expected_size sc =
      div (of_nat d (2 ^ pos_part (to_int sc) + 2 ^ pos_part (to_int (add sc (of_nat d 1)))))
        (of_nat d 2)

  -- `expected_lifetime_size_class_size`
  unfoldable pub expected_class_size : GOptions → Double → Double → Double
  unfolding expected_size
  expected_class_size g lt sc =
      let lives = add (sub (of_nat d g.max_liveness) lt) (of_nat d 1) in
      let sizes = add (sub (of_nat d g.max_object_sc) sc) (of_nat d 1) in
      mul (expected_size sc) (mul (mul (mul lives lives) sizes) sizes)

  -- `expected_lifetime_size_classes`, given the expected size of a class.
  unfoldable pub expected_classes : GOptions → Double → Double → Double
  expected_classes g lt class_size =
      let multiplier =
        add (of_nat d 1) (div (of_nat d (g.num_threads * g.shared_objects_ratio)) (of_nat d 100)) in
      let alone = div (mul (of_nat d 2) (mul lt (of_nat d g.time_quantum))) class_size in
      if g.shared_objects
      then mul alone (mul (add (of_int g.max_time_gap) lt) multiplier)
      else mul alone lt

  -- The number of nodes for a number of classes.
  unfoldable pub nodes_for : GOptions → ℕ → ℕ
  nodes_for g classes =
      if g.shared_objects
      then (classes
          + to_size (
              to_int (
                mul (of_nat d classes)
                  (div (of_nat d (g.num_threads * g.receiving_threads_ratio)) (of_nat d 100)))))
        % 2 ^ 64
      else classes

  -- `none` is a call of `exit`. The `int` arithmetic is taken not to overflow.
  unfoldable pub autodetect_metadata_parameters : GOptions → Option GOptions
  unfolding expected expected_class_size expected_classes nodes_for heap_for ◌*ℤ◌
  autodetect_metadata_parameters g =
      let lt = expected g.max_liveness g.min_liveness in
      let class_size = expected_class_size g lt (expected g.max_object_sc g.min_object_sc) in
      if gt class_size (of_nat d g.time_quantum)
      then none
      else (let classes = to_size (to_int (expected_classes g lt class_size) *ℤ pos 2) in
          let nodes = nodes_for g classes in
          some (record g {
            class_buffer_size = classes;
            node_buffer_size = nodes;
            metadata_heap_sz = heap_for g classes nodes;
          }))
