-- ===== src/MetadataHeap/Zeroed.antt =====
-- `calloc_meta` and `calloc_meta_aligned` of src/metadata-allocator.c: the block is zeroed, and no
-- other byte changes.
use acdc.Base.{
  ◌%◌, ℕ, zero, suc, ◌+◌, ◌-◌, ◌*◌, ◌^◌, ◌≤◌, ◌<◌, ◌≡◌, ◌⊎◌, arith, ◌==◌, if◌then◌else◌, leb, ltb,
  ◌&&◌, ap,
}
use acdc.Base.Run.{Returns, Returns-bind}
use acdc.MetadataHeap.{
  MetadataHeap, malloc_meta, malloc_meta_aligned, zero_bytes, calloc_meta, calloc_meta_aligned,
}
use acdc.MetadataHeap.Blocks.{IsBlock, malloc_meta-IsBlock, malloc_meta_aligned-IsBlock}

zero_bytes_lem :
    (n p : ℕ) (bytes : ℕ → ℕ) (q : ℕ)
    → zero_bytes n p bytes q ≡ (if leb p q && ltb q (p + n) then 0 else bytes q)
unfolding zero_bytes
zero_bytes_lem zero p bytes q = ground arith
zero_bytes_lem (suc n) p bytes q =
    ground (arith, zero_bytes_lem n (p + 1) (λ x. if x == p then 0 else bytes x) q)

-- The block at `p` holds zeros, and the bytes outside of it are those of `m`.
pub record IsZeroed (size alignment : ℕ) (m : MetadataHeap) (p : ℕ) (m' : MetadataHeap)
    : Type 0 where
  pub aligned : p % alignment ≡ 0
  pub behind : m.metadata_heap_bump_pointer ≤ p
  pub before : p + size ≤ m'.metadata_heap_bump_pointer
  pub inside : m'.metadata_heap_bump_pointer < m'.metadata_heap_end
  pub zeros : (q : ℕ) → p ≤ q → q < p + size → m'.bytes q ≡ 0
  pub others : (q : ℕ) → (q < p) ⊎ (p + size ≤ q) → m'.bytes q ≡ m.bytes q

zeroed :
    (size alignment : ℕ) (m : MetadataHeap) (p : ℕ) (m' : MetadataHeap)
    → IsBlock size alignment m p m'
    → IsZeroed size alignment m p (record m' { bytes = zero_bytes size p m'.bytes })
zeroed size alignment m p m' b = record {
  aligned = b.aligned;
  behind = b.behind;
  before = b.before;
  inside = b.inside;
  zeros = λ q lo hi. ground (arith, zero_bytes_lem size p m'.bytes q);
  others = λ q out.
      let same = ap (λ (f : ℕ → ℕ). f q) b.same_bytes in
      ground (arith, zero_bytes_lem size p m'.bytes q);
}

-- With room in the region `calloc_meta_aligned` gives an aligned block of zeros, and writes nowhere
-- else.
pub calloc_meta_aligned-IsZeroed :
    (nelem size k : ℕ) (m : MetadataHeap)
    → k ≤ 64
    → m.metadata_heap_end ≤ 2 ^ 64
    → m.metadata_heap_bump_pointer + (nelem * size + 2 ^ k - 1) < m.metadata_heap_end
    → Returns (IsZeroed (nelem * size) (2 ^ k) m) (calloc_meta_aligned nelem size (2 ^ k) m)
unfolding calloc_meta_aligned
calloc_meta_aligned-IsZeroed nelem size k m small wide room =
    Returns-bind _ (malloc_meta_aligned (nelem * size) (2 ^ k) m) _
      (malloc_meta_aligned-IsBlock (nelem * size) k m small wide room)
      λ p m' b. zeroed (nelem * size) (2 ^ k) m p m' b

pub calloc_meta-IsZeroed :
    (nelem size : ℕ) (m : MetadataHeap)
    → m.metadata_heap_end ≤ 2 ^ 64
    → m.metadata_heap_bump_pointer + (nelem * size + 15) < m.metadata_heap_end
    → Returns (IsZeroed (nelem * size) 16 m) (calloc_meta nelem size m)
unfolding calloc_meta
calloc_meta-IsZeroed nelem size m wide room =
    Returns-bind _ (malloc_meta (nelem * size) m) _ (malloc_meta-IsBlock (nelem * size) m wide room)
      λ p m' b. zeroed (nelem * size) 16 m p m' b
