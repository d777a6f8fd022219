-- ===== src/MetadataHeap.antt =====
-- src/metadata-allocator.c: the metadata heap, a bump allocator over one mapped region. The results
-- of `mmap` are arguments; the bytes of the region are in the state.
pub mod Masks
pub mod Blocks
pub mod Zeroed
use Prim.Native.Nat.{bit_and}
use acdc.Base.{
  ℕ, zero, suc, ◌+◌, ◌-◌, ◌*◌, ◌^◌, true, Option, none, some, ltb, leb, ◌==◌, if◌then◌else◌,
}
use acdc.Base.Run.{Cmd, pure, stop, get_state, put_state, ◌>>=◌, ◌>>◌, exit_failure}
use acdc.Types.{GOptions}

pub record MetadataHeap : Type 0 where
  pub metadata_heap_start : ℕ
  pub metadata_heap_end : ℕ
  pub metadata_heap_bump_pointer : ℕ
  pub bytes : ℕ → ℕ

-- `addr & ~(alignment-1)` on 64-bit words: the complement of `alignment - 1` is
-- `2 ^ 64 - alignment`.
unfoldable pub align_address : ℕ → ℕ → ℕ
align_address ptr alignment = let addr = ptr + (alignment - 1) in bit_and addr (2 ^ 64 - alignment)

abbrev pub store_byte : (ℕ → ℕ) → ℕ → ℕ → ℕ → ℕ
store_byte bytes p v q = if q == p then v else bytes q

-- `for (i = 1; i < size; i = i + inc) c[i] = c[i-1];` with `c` at `start`, on fuel.
unfoldable pub make_hot : ℕ → ℕ → ℕ → ℕ → ℕ → (ℕ → ℕ) → ℕ → ℕ
make_hot zero start size inc i bytes = bytes
make_hot (suc f) start size inc i bytes =
    let rest =
      make_hot f start size inc (i + inc)
        (store_byte bytes (start + i) (bytes (start + (i - 1)))) in
    if ltb i size then rest else bytes

-- The state after the region at `r` is mapped and made hot.
unfoldable pub fresh_heap : ℕ → ℕ → ℕ → (ℕ → ℕ) → MetadataHeap
fresh_heap size r inc bytes = record {
  metadata_heap_start = r;
  metadata_heap_end = r + size;
  metadata_heap_bump_pointer = r;
  bytes = make_hot size r size inc 1 bytes;
}

-- `first` and `second` are the results of the two calls of `mmap`, `none` for `MAP_FAILED`; `bytes`
-- is the memory of the mapped region.
unfoldable pub init_metadata_heap :
    Option ℕ → Option ℕ → (ℕ → ℕ) → GOptions → Option (MetadataHeap × GOptions)
init_metadata_heap first second bytes gopts =
    let size = gopts.metadata_heap_sz * 2 ^ 20 in
    elim first [
      | some r ↦ some (fresh_heap size r (2048 * 1024) bytes, record gopts { use_hugepages = true })
      | none ↦ elim second [
        | none ↦ none
        | some r ↦
            some
              (fresh_heap size r (if gopts.use_hugepages then 2048 * 1024 else 4096) bytes, gopts)
      ]
    ]

unfoldable pub get_chunk : ℕ → Cmd MetadataHeap ℕ
get_chunk size = do
  m ← get_state
  let bump = m.metadata_heap_bump_pointer + size
  put_state (record m { metadata_heap_bump_pointer = bump })
  if leb m.metadata_heap_end bump then stop exit_failure else pure m.metadata_heap_bump_pointer

-- The default alignment is 16 bytes.
unfoldable pub malloc_meta : ℕ → Cmd MetadataHeap ℕ
malloc_meta size = do ptr ← get_chunk (size + 15); pure (align_address ptr 16)

unfoldable pub malloc_meta_aligned : ℕ → ℕ → Cmd MetadataHeap ℕ
malloc_meta_aligned size alignment = do
  ptr ← get_chunk (size + alignment - 1)
  pure (align_address ptr alignment)

-- `for (i = 0; i < n; ++i) ((char*)ptr)[i] = '\0';`, by the number of bytes that are left.
unfoldable pub zero_bytes : ℕ → ℕ → (ℕ → ℕ) → ℕ → ℕ
zero_bytes zero ptr bytes = bytes
zero_bytes (suc n) ptr bytes = zero_bytes n (ptr + 1) (store_byte bytes ptr 0)

unfoldable pub calloc_meta : ℕ → ℕ → Cmd MetadataHeap ℕ
calloc_meta nelem size = do
  ptr ← malloc_meta (nelem * size)
  m ← get_state
  put_state (record m { bytes = zero_bytes (nelem * size) ptr m.bytes })
  pure ptr

unfoldable pub calloc_meta_aligned : ℕ → ℕ → ℕ → Cmd MetadataHeap ℕ
calloc_meta_aligned nelem size alignment = do
  ptr ← malloc_meta_aligned (nelem * size) alignment
  m ← get_state
  put_state (record m { bytes = zero_bytes (nelem * size) ptr m.bytes })
  pure ptr
