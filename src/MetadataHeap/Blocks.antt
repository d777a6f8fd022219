-- ===== src/MetadataHeap/Blocks.antt =====
-- `get_chunk`, `malloc_meta` and `malloc_meta_aligned` of src/metadata-allocator.c: where the blocks lie.
use native.Mathlib.Nat.{one-le-pow, div-mul-le_self, lt-div-mul-add, mul-mod_left}
use acdc.Base.{ℕ, ◌+◌, ◌-◌, ◌*◌, ◌/◌, ◌%◌, ◌^◌, ◌≤◌, ◌<◌, ◌≡◌, refl, arith, subst, leb, true, false}
use acdc.Base.Run.{pure, and_then, Returns, failed, exit_failure}
use acdc.MetadataHeap.{MetadataHeap, align_address, get_chunk, malloc_meta, malloc_meta_aligned}
use acdc.MetadataHeap.Masks.{align_address_lem}

-- The block of `size` bytes at `p` is aligned, and lies in the part of the region between the two
-- bump pointers, so no two blocks overlap; nothing but the bump pointer has changed.
pub record IsBlock (size alignment : ℕ) (m : MetadataHeap) (p : ℕ) (m' : MetadataHeap)
    : Type 0 where
  pub aligned : p % alignment ≡ 0
  pub behind : m.metadata_heap_bump_pointer ≤ p
  pub before : p + size ≤ m'.metadata_heap_bump_pointer
  pub inside : m'.metadata_heap_bump_pointer < m'.metadata_heap_end
  pub same_start : m'.metadata_heap_start ≡ m.metadata_heap_start
  pub same_end : m'.metadata_heap_end ≡ m.metadata_heap_end
  pub same_bytes : m'.bytes ≡ m.bytes

-- Rounding up to a multiple of `d`.
round_up : (x d : ℕ) → 0 < d → (x ≤ (x + (d - 1)) / d * d) × ((x + (d - 1)) / d * d ≤ x + (d - 1))
round_up x d h =
    (omega (arith, lt-div-mul-add {a = x + (d - 1)} {b = d} h), div-mul-le_self (x + (d - 1)) d)

-- With room in the region a request is answered by an aligned block of its own.
pub malloc_meta_aligned-IsBlock :
    (size k : ℕ) (m : MetadataHeap)
    → k ≤ 64
    → m.metadata_heap_end ≤ 2 ^ 64
    → m.metadata_heap_bump_pointer + (size + 2 ^ k - 1) < m.metadata_heap_end
    → Returns (IsBlock size (2 ^ k) m) (malloc_meta_aligned size (2 ^ k) m)
unfolding malloc_meta_aligned get_chunk
malloc_meta_aligned-IsBlock size k m small wide room =
    let d = 2 ^ k in
    let bump = m.metadata_heap_bump_pointer in
    let pos_d : 0 < d = one-le-pow k 2 (omega arith) in
    let fits : leb m.metadata_heap_end (bump + (size + d - 1)) ≡ false = ground arith in
    let up = round_up bump d pos_d in
    rw (fits, align_address_lem k bump small (omega arith))
      (record {
        aligned = mul-mod_left ((bump + (d - 1)) / d) d;
        behind = up.0;
        before = omega arith;
        inside = room;
        same_start = refl;
        same_end = refl;
        same_bytes = refl;
      })

pub malloc_meta-IsBlock :
    (size : ℕ) (m : MetadataHeap)
    → m.metadata_heap_end ≤ 2 ^ 64
    → m.metadata_heap_bump_pointer + (size + 15) < m.metadata_heap_end
    → Returns (IsBlock size 16 m) (malloc_meta size m)
unfolding malloc_meta malloc_meta_aligned
malloc_meta-IsBlock size m wide room =
    let same : size + 16 - 1 ≡ size + 15 = omega arith in
    subst
      (λ n.
        Returns (IsBlock size 16 m) (and_then (get_chunk n m) (λ ptr. pure (align_address ptr 16))))
      same (malloc_meta_aligned-IsBlock size 4 m (omega arith) wide (omega arith))

-- Without room the program exits: it never hands out memory past the end of the region.
pub malloc_meta_aligned-exit :
    (size alignment : ℕ) (m : MetadataHeap)
    → m.metadata_heap_end ≤ m.metadata_heap_bump_pointer + (size + alignment - 1)
    → malloc_meta_aligned size alignment m ≡ failed exit_failure
unfolding malloc_meta_aligned get_chunk
malloc_meta_aligned-exit size alignment m full =
    let out : leb m.metadata_heap_end (m.metadata_heap_bump_pointer + (size + alignment - 1))
        ≡ true =
      ground arith in
    rw out
