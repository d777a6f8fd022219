-- ===== src/Options/Detected.antt =====
-- What the detection of the metadata sizes of src/main.c leaves of the options, and how much room it finds.
use mathlib.Core.Option.{some-injective}
use acdc.Base.{ℕ, ◌≡◌, sym, arith, Bool, true, false, none, some, if◌then◌else◌}
use acdc.Base.Double.{Arithmetic}
use acdc.Types.{GOptions}
use acdc.Options.Detection.{heap_for, autodetect_metadata_parameters}

-- The options `g'` are the options `g` with detected sizes.
pub record IsDetected (g g' : GOptions) : Type 0 where
  pub classes : ℕ
  pub nodes : ℕ
  pub same : g' ≡ record g {
    class_buffer_size = classes;
    node_buffer_size = nodes;
    metadata_heap_sz = heap_for g classes nodes;
  }

chosen :
    (g g' : GOptions) (classes nodes : ℕ) (b : Bool)
    → (if b
        then none
        else some (record g {
          class_buffer_size = classes;
          node_buffer_size = nodes;
          metadata_heap_sz = heap_for g classes nodes;
        }))
      ≡ some g'
    → IsDetected g g'
chosen g g' classes nodes true e = absurd (ground (arith, e))
chosen g g' classes nodes false e = record {
  classes = classes;
  nodes = nodes;
  same = sym (some-injective _ g' e);
}

-- Whatever the `double`s do, the detection only sets the sizes.
pub autodetect_metadata_parameters-IsDetected :
    (d : Arithmetic) (g g' : GOptions)
    → autodetect_metadata_parameters d g ≡ some g'
    → IsDetected g g'
unfolding autodetect_metadata_parameters
autodetect_metadata_parameters-IsDetected d g g' e = chosen g g' _ _ _ e
