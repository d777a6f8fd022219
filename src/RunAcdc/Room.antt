-- ===== src/RunAcdc/Room.antt =====
-- The metadata heap that src/main.c detects is large enough for `run_acdc` of src/acdc.c.
use native.Mathlib.Nat.{mul-le-mul_left}
use acdc.Base.{ℕ, ◌+◌, ◌*◌, ◌/◌, ◌%◌, ◌^◌, ◌≤◌, ◌<◌, ◌≡◌, refl, sym, ◌∙◌, ap, subst, arith, some}
use acdc.Base.Double.{Arithmetic}
use acdc.Types.{GOptions}
use acdc.Options.Detection.{autodetect_metadata_parameters, heap_for}
use acdc.Options.Detected.{autodetect_metadata_parameters-IsDetected}
use acdc.Context.Fresh.{context_size}
use acdc.RunAcdc.Finish.{run_size}

-- The bytes of all buffers of nodes and classes.
abbrev pub buffer_bytes : GOptions → ℕ
buffer_bytes g = (g.class_buffer_size * 64 + g.node_buffer_size * 64) * g.num_threads

-- The bytes of a context without its buffers.
abbrev pub bookkeeping : GOptions → ℕ
bookkeeping g =
    112
    + 63
    + (96 + 15)
    + ((g.max_liveness + 1) * 8 + 15)
    + ((g.max_object_sc + 1) * 8 + 15)
    + ((g.max_liveness + g.deallocation_delay) * 16 + 15)
    + (g.max_liveness * 16 + 15)
    + 63
    + 63
    + (g.num_threads * 4 + 15)

all_contexts :
    (g : GOptions) → g.num_threads * context_size g ≡ g.num_threads * bookkeeping g + buffer_bytes g
all_contexts g =
    let parts : context_size g
        ≡ bookkeeping g + (g.class_buffer_size * 64 + g.node_buffer_size * 64) =
      omega arith in
    ap (λ s. g.num_threads * s) parts
    ∙ spread g.num_threads (bookkeeping g) (g.class_buffer_size * 64 + g.node_buffer_size * 64)
  where
    spread : (n b x : ℕ) → n * (b + x) ≡ n * b + x * n
    spread n b x = grind arith

-- With two threads or more, less than half a megabyte of bookkeeping for each, and buffers whose size
-- does not wrap, the detected heap has room for the metadata of all threads.
pub run_size-IsDetected :
    (d : Arithmetic) (g g' : GOptions)
    → autodetect_metadata_parameters d g ≡ some g'
    → 2 ≤ g'.num_threads
    → g'.num_threads < 2 ^ 32
    → bookkeeping g' + 110 ≤ 2 ^ 19
    → buffer_bytes g' < 2 ^ 63
    → run_size g' < g'.metadata_heap_sz * 2 ^ 20
unfolding heap_for
run_size-IsDetected d g g' e some_threads few small fits =
    let i = autodetect_metadata_parameters-IsDetected d g g' e in
    let size : g'.metadata_heap_sz ≡ heap_for g' g'.class_buffer_size g'.node_buffer_size =
      subst
        (λ (x : GOptions). x.metadata_heap_sz ≡ heap_for x x.class_buffer_size x.node_buffer_size)
        (sym i.same) refl in
    let n = g'.num_threads in
    let x = buffer_bytes g' in
    let whole : g'.metadata_heap_sz ≡ n + x / 2 ^ 20 = size ∙ not_wrapped n x few fits in
    let total = all_contexts g' in
    let bounded : n * (bookkeeping g' + 110) ≤ n * 2 ^ 19 = mul-le-mul_left n small in
    let parts : n * (bookkeeping g' + 110) ≡ n * bookkeeping g' + n * 110 = grind arith in
    enough n (n * context_size g') (n * bookkeeping g') x g'.metadata_heap_sz some_threads total
      (omega (arith, bounded, parts)) whole
  where
    not_wrapped :
        (n x : ℕ)
        → n < 2 ^ 32
        → x < 2 ^ 63
        → (n + x % 2 ^ 64 / (1024 * 1024)) % 2 ^ 64 ≡ n + x / 2 ^ 20
    not_wrapped n x h₁ h₂ = omega arith

    enough :
        (n contexts b x heap : ℕ)
        → 2 ≤ n
        → contexts ≡ b + x
        → b + n * 110 ≤ n * 2 ^ 19
        → heap ≡ n + x / 2 ^ 20
        → 72 * n + 75 + contexts < heap * 2 ^ 20
    enough n contexts b x heap h₁ h₂ h₃ h₄ = omega arith
