-- ===== src/Context/Fresh.antt =====
-- What `create_mutator_context` of src/acdc.c sets up.
use acdc.Base.{
  ℕ, ◌+◌, ◌-◌, ◌*◌, ◌/◌, ◌%◌, ◌^◌, ◌≤◌, ◌<◌, ◌≡◌, refl, ◌∙◌, arith, false, leb, List, [], length,
  length-replicate,
}
use acdc.Base.Run.{Returns, Returns-bind}
use acdc.Types.{GOptions, MContext, Heap, LClass, empty_class, l1_line_sz}
use acdc.MetadataHeap.{
  MetadataHeap, align_address, get_chunk, malloc_meta, malloc_meta_aligned, calloc_meta,
  calloc_meta_aligned,
}
use acdc.MetadataHeap.Masks.{align_address_lem}
use acdc.Mutator.Pools.{IsPool}
use acdc.Context.{
  create_mutator_context, allocate_heap_class, sizeof_l_class, sizeof_m_stat, sizeof_m_context,
}

-- A block of `size` bytes at `p` was cut off the free region, with `pad` bytes for its alignment.
pub record Took (size pad : ℕ) (m : MetadataHeap) (p : ℕ) (m' : MetadataHeap) : Type 0 where
  pub aligned : p % (pad + 1) ≡ 0
  pub behind : m.metadata_heap_bump_pointer ≤ p
  pub before : p + size ≤ m'.metadata_heap_bump_pointer
  pub bump : m'.metadata_heap_bump_pointer ≡ m.metadata_heap_bump_pointer + size + pad
  pub limit : m'.metadata_heap_end ≡ m.metadata_heap_end

module _ (nelem size : ℕ) (m : MetadataHeap) (wide : m.metadata_heap_end ≤ 2 ^ 64) where
  pub calloc_meta-Took :
      m.metadata_heap_bump_pointer + nelem * size + 15 < m.metadata_heap_end
      → Returns (Took (nelem * size) 15 m) (calloc_meta nelem size m)
  unfolding calloc_meta malloc_meta get_chunk
  calloc_meta-Took room =
      let bump = m.metadata_heap_bump_pointer in
      let fits : leb m.metadata_heap_end (bump + (nelem * size + 15)) ≡ false = ground arith in
      let at : align_address bump 16 ≡ (bump + 15) / 16 * 16 =
        align_address_lem 4 bump (omega arith) (omega arith) in
      rw fits (record {
        aligned = omega (arith, at);
        behind = omega (arith, at);
        before = omega (arith, at);
        bump = omega arith;
        limit = refl;
      })

  calloc_meta_aligned-Took :
      m.metadata_heap_bump_pointer + nelem * size + 63 < m.metadata_heap_end
      → Returns (Took (nelem * size) 63 m) (calloc_meta_aligned nelem size 64 m)
  unfolding calloc_meta_aligned malloc_meta_aligned get_chunk
  calloc_meta_aligned-Took room =
      let bump = m.metadata_heap_bump_pointer in
      let fits : leb m.metadata_heap_end (bump + (nelem * size + 64 - 1)) ≡ false = ground arith in
      let at : align_address bump 64 ≡ (bump + 63) / 64 * 64 =
        align_address_lem 6 bump (omega arith) (omega arith) in
      rw fits (record {
        aligned = omega (arith, at);
        behind = omega (arith, at);
        before = omega (arith, at);
        bump = omega arith;
        limit = refl;
      })

pub malloc_meta-Took :
    (size : ℕ) (m : MetadataHeap)
    → m.metadata_heap_end ≤ 2 ^ 64
    → m.metadata_heap_bump_pointer + size + 15 < m.metadata_heap_end
    → Returns (Took size 15 m) (malloc_meta size m)
unfolding malloc_meta get_chunk
malloc_meta-Took size m wide room =
    let bump = m.metadata_heap_bump_pointer in
    let fits : leb m.metadata_heap_end (bump + (size + 15)) ≡ false = ground arith in
    let at : align_address bump 16 ≡ (bump + 15) / 16 * 16 =
      align_address_lem 4 bump (omega arith) (omega arith) in
    rw fits (record {
      aligned = omega (arith, at);
      behind = omega (arith, at);
      before = omega (arith, at);
      bump = omega arith;
      limit = refl;
    })

malloc_meta_aligned-Took :
    (size : ℕ) (m : MetadataHeap)
    → m.metadata_heap_end ≤ 2 ^ 64
    → m.metadata_heap_bump_pointer + size + 63 < m.metadata_heap_end
    → Returns (Took size 63 m) (malloc_meta_aligned size 64 m)
unfolding malloc_meta_aligned get_chunk
malloc_meta_aligned-Took size m wide room =
    let bump = m.metadata_heap_bump_pointer in
    let fits : leb m.metadata_heap_end (bump + (size + 64 - 1)) ≡ false = ground arith in
    let at : align_address bump 64 ≡ (bump + 63) / 64 * 64 =
      align_address_lem 6 bump (omega arith) (omega arith) in
    rw fits (record {
      aligned = omega (arith, at);
      behind = omega (arith, at);
      before = omega (arith, at);
      bump = omega arith;
      limit = refl;
    })

allocate_heap_class-Took :
    (n : ℕ) (m : MetadataHeap)
    → m.metadata_heap_end ≤ 2 ^ 64
    → m.metadata_heap_bump_pointer + n * 16 + 15 < m.metadata_heap_end
    → Returns
        (λ ec m'. (length ec ≡ n) × ((p : ℕ) × Took (n * 16) 15 m p m'))
        (allocate_heap_class n m)
unfolding allocate_heap_class
allocate_heap_class-Took n m wide room =
    Returns-bind _ (calloc_meta n sizeof_l_class m) _ (calloc_meta-Took n 16 m wide room)
      λ p m' t. (length-replicate n empty_class, (p, t))

-- After some blocks were cut off, `used` bytes of the free region are gone.
pub record At (m : MetadataHeap) (used : ℕ) (m' : MetadataHeap) : Type 0 where
  pub bump : m'.metadata_heap_bump_pointer ≡ m.metadata_heap_bump_pointer + used
  pub limit : m'.metadata_heap_end ≡ m.metadata_heap_end

pub At-Took :
    (m : MetadataHeap) (used size pad : ℕ) (m₁ : MetadataHeap) (p : ℕ) (m₂ : MetadataHeap)
    → At m used m₁
    → Took size pad m₁ p m₂
    → At m (used + size + pad) m₂
At-Took m used size pad m₁ p m₂ a t = record {
  bump = omega (arith, a.bump, t.bump);
  limit = t.limit ∙ a.limit;
}

-- The bytes that a context takes, with those for alignment.
abbrev pub context_size : GOptions → ℕ
context_size g =
    112
    + 63
    + (96 + 15)
    + ((g.max_liveness + 1) * 8 + 15)
    + ((g.max_object_sc + 1) * 8 + 15)
    + ((g.max_liveness + g.deallocation_delay) * 16 + 15)
    + (g.max_liveness * 16 + 15)
    + (64 * g.node_buffer_size + 63)
    + (64 * g.class_buffer_size + 63)
    + (g.num_threads * 4 + 15)

-- A fresh context: its arrays have their lengths, its buffers are aligned to cache lines, do not overlap
-- and lie between the two bump pointers, and its pools are well-formed with nothing in use.
pub record IsFresh (g : GOptions) (thread_id : ℕ) (m : MetadataHeap) (mc : MContext)
    (shared : List LClass) (m' : MetadataHeap) : Type 0 where
  pub thread : mc.thread_id ≡ thread_id
  pub slots : length mc.heap_class ≡ g.max_liveness + g.deallocation_delay
  pub shared_slots : length shared ≡ g.max_liveness
  pub node_line : mc.node_buffer_memory % 64 ≡ 0
  pub class_line : mc.class_buffer_memory % 64 ≡ 0
  pub node_behind : m.metadata_heap_bump_pointer ≤ mc.node_buffer_memory
  pub disjoint : mc.node_buffer_memory + 64 * g.node_buffer_size ≤ mc.class_buffer_memory
  pub class_before :
      mc.class_buffer_memory + 64 * g.class_buffer_size ≤ m'.metadata_heap_bump_pointer
  pub taken : At m (context_size g) m'
  pub node_pool :
      (h : Heap)
      → IsPool h mc.node_cache mc.node_buffer_memory mc.node_buffer_counter [] (λ _. false)
  pub class_pool :
      (h : Heap)
      → IsPool h mc.class_cache mc.class_buffer_memory mc.class_buffer_counter [] (λ _. false)

empty_class-IsPool :
    (h : Heap) (memory : ℕ) → 0 < memory → IsPool h empty_class memory 0 [] (λ _. false)
empty_class-IsPool h memory some_memory = record {
  dll = record { first = refl; last = refl; linked = tt; distinct = tt; not_null = refl };
  free = λ a u. refl;
  cached = λ a i. absurd (ground arith);
  taken = λ a u. absurd (ground arith);
  mapped = some_memory;
}

-- With enough room in the region `create_mutator_context` succeeds with a fresh context.
pub create_mutator_context-IsFresh :
    (g : GOptions) (thread_id : ℕ) (m : MetadataHeap)
    → m.metadata_heap_end ≤ 2 ^ 64
    → 0 < m.metadata_heap_bump_pointer
    → m.metadata_heap_bump_pointer + context_size g < m.metadata_heap_end
    → Returns
        (λ (mc, shared) m'. IsFresh g thread_id m mc shared m')
        (create_mutator_context g thread_id m)
unfolding create_mutator_context
create_mutator_context-IsFresh g thread_id m wide some_start room =
    Returns-bind _ (calloc_meta_aligned 1 sizeof_m_context l1_line_sz m) _
      (calloc_meta_aligned-Took 1 112 m wide (omega arith))
      λ p₁ m₁ t₁.
        let a₁ : At m 175 m₁ = record { bump = omega (arith, t₁.bump); limit = t₁.limit } in
        Returns-bind _ (calloc_meta 1 sizeof_m_stat m₁) _
          (calloc_meta-Took 1 96 m₁ (omega (arith, a₁.limit)) (omega (arith, a₁.bump, a₁.limit)))
          λ p₂ m₂ t₂.
            let a₂ = At-Took m _ _ _ m₁ _ m₂ a₁ t₂ in
            Returns-bind _ (calloc_meta (g.max_liveness + 1) 8 m₂) _
              (calloc_meta-Took (g.max_liveness + 1) 8 m₂ (omega (arith, a₂.limit))
                (omega (arith, a₂.bump, a₂.limit)))
              λ p₃ m₃ t₃.
                let a₃ = At-Took m _ _ _ m₂ _ m₃ a₂ t₃ in
                Returns-bind _ (calloc_meta (g.max_object_sc + 1) 8 m₃) _
                  (calloc_meta-Took (g.max_object_sc + 1) 8 m₃ (omega (arith, a₃.limit))
                    (omega (arith, a₃.bump, a₃.limit)))
                  λ p₄ m₄ t₄.
                    let a₄ = At-Took m _ _ _ m₃ _ m₄ a₃ t₄ in
                    Returns-bind _ (allocate_heap_class (g.max_liveness + g.deallocation_delay) m₄)
                      _
                      (allocate_heap_class-Took (g.max_liveness + g.deallocation_delay) m₄
                        (omega (arith, a₄.limit)) (omega (arith, a₄.bump, a₄.limit)))
                      λ p₅ m₅ (l₅, (q₅, t₅)).
                        let a₅ = At-Took m _ _ _ m₄ _ m₅ a₄ t₅ in
                        Returns-bind _ (allocate_heap_class g.max_liveness m₅) _
                          (allocate_heap_class-Took g.max_liveness m₅ (omega (arith, a₅.limit))
                            (omega (arith, a₅.bump, a₅.limit)))
                          λ p₆ m₆ (l₆, (q₆, t₆)).
                            let a₆ = At-Took m _ _ _ m₅ _ m₆ a₅ t₆ in
                            Returns-bind _
                              (malloc_meta_aligned (l1_line_sz * g.node_buffer_size) l1_line_sz m₆)
                              _
                              (malloc_meta_aligned-Took (64 * g.node_buffer_size) m₆
                                (omega (arith, a₆.limit)) (omega (arith, a₆.bump, a₆.limit)))
                              λ p₇ m₇ t₇.
                                let a₇ = At-Took m _ _ _ m₆ _ m₇ a₆ t₇ in
                                Returns-bind _
                                  (malloc_meta_aligned (l1_line_sz * g.class_buffer_size) l1_line_sz
                                    m₇)
                                  _
                                  (malloc_meta_aligned-Took (64 * g.class_buffer_size) m₇
                                    (omega (arith, a₇.limit)) (omega (arith, a₇.bump, a₇.limit)))
                                  λ p₈ m₈ t₈.
                                    let a₈ = At-Took m _ _ _ m₇ _ m₈ a₇ t₈ in
                                    Returns-bind _ (calloc_meta g.num_threads 4 m₈) _
                                      (calloc_meta-Took g.num_threads 4 m₈ (omega (arith, a₈.limit))
                                        (omega (arith, a₈.bump, a₈.limit)))
                                      λ p₉ m₉ t₉.
                                        let a₉ = At-Took m _ _ _ m₈ _ m₉ a₈ t₉ in
                                        record {
                                          thread = refl;
                                          slots = l₅;
                                          shared_slots = l₆;
                                          node_line = t₇.aligned;
                                          class_line = t₈.aligned;
                                          node_behind = omega (arith, a₆.bump, t₇.behind);
                                          disjoint = omega (arith, t₇.before, t₈.behind);
                                          class_before = omega (arith, t₈.before, t₉.bump);
                                          taken = record {
                                            bump = omega (arith, a₉.bump);
                                            limit = a₉.limit;
                                          };
                                          node_pool = λ h.
                                              empty_class-IsPool h p₇
                                                (omega (arith, a₆.bump, t₇.behind));
                                          class_pool = λ h.
                                              empty_class-IsPool h p₈
                                                (omega (arith, a₇.bump, t₈.behind));
                                        }
