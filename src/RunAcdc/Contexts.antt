-- ===== src/RunAcdc/Contexts.antt =====
-- The contexts of all threads, which `run_acdc` of src/acdc.c creates one after the other.
use acdc.Base.{
  ℕ, zero, suc, ◌+◌, ◌*◌, ◌^◌, ◌≤◌, ◌<◌, ◌≡◌, refl, ap, sym, ◌∙◌, arith, List, [], ◌∷◌, length,
  some, none, get_elem?,
}
use acdc.Base.Run.{Returns, Returns-bind, Returns-mono}
use acdc.Types.{GOptions, MContext, LClass}
use acdc.MetadataHeap.{MetadataHeap}
use acdc.Context.{create_mutator_context}
use acdc.Context.Fresh.{context_size, IsFresh, create_mutator_context-IsFresh}
use acdc.RunAcdc.{create_contexts}

-- Fresh contexts of the threads from `i` on, each cut off the region behind the one before it.
abbrev pub AllFresh : GOptions → ℕ → MetadataHeap → List (MContext × List LClass) → Type 0
AllFresh g i m [] = Unit
AllFresh g i m ((mc, shared) ∷ rest) =
    (m' : MetadataHeap) × IsFresh g i m mc shared m' × AllFresh g (i + 1) m' rest

pub create_contexts-AllFresh :
    (n i : ℕ) (g : GOptions) (m : MetadataHeap)
    → m.metadata_heap_end ≤ 2 ^ 64
    → 0 < m.metadata_heap_bump_pointer
    → m.metadata_heap_bump_pointer + n * context_size g < m.metadata_heap_end
    → Returns (λ cs _. (length cs ≡ n) × AllFresh g i m cs) (create_contexts n i g m)
unfolding create_contexts
create_contexts-AllFresh zero i g m wide some_start room = (refl, tt)
create_contexts-AllFresh (suc n) i g m wide some_start room =
    let more : suc n * context_size g ≡ context_size g + n * context_size g = grind arith in
    Returns-bind _ (create_mutator_context g i m) _
      (create_mutator_context-IsFresh g i m wide some_start (omega (arith, more)))
      λ (mc, shared) m₁ fresh.
        Returns-bind _ (create_contexts n (i + 1) g m₁) _
          (create_contexts-AllFresh n (i + 1) g m₁ (omega (arith, fresh.taken.limit))
            (omega (arith, fresh.taken.bump))
            (omega (arith, more, fresh.taken.bump, fresh.taken.limit)))
          λ rest m₂ (len, all). (ap suc len, (m₁, fresh, all))

-- The memory of the buffers of a context.
abbrev pub buffers_start : MContext → ℕ
buffers_start mc = mc.node_buffer_memory

abbrev pub buffers_end : GOptions → MContext → ℕ
buffers_end g mc = mc.class_buffer_memory + 64 * g.class_buffer_size

head_is : {A : Type 0} (d : A) (x y : A) → some x ≡ some y → x ≡ y
head_is d x y e = ap (λ o. elim o [ none ↦ d | some z ↦ z ]) e

-- The context at a position is that of the thread of this number, and its buffers lie in the region that
-- was free.
AllFresh-at :
    (g : GOptions) (i : ℕ) (m : MetadataHeap) (cs : List (MContext × List LClass)) (j : ℕ)
    (c : MContext × List LClass)
    → AllFresh g i m cs
    → get_elem? cs j ≡ some c
    → (c.0.thread_id ≡ i + j) × (m.metadata_heap_bump_pointer ≤ buffers_start c.0)
AllFresh-at g i m [] j c all e = absurd (ground arith)
AllFresh-at g i m ((mc, shared) ∷ rest) zero c (m₁, fresh, all) e =
    let same = head_is (mc, shared) (mc, shared) c e in
    (
      sym (ap (λ (d : MContext × List LClass). d.0.thread_id) same) ∙ omega (arith, fresh.thread),
      omega (arith, fresh.node_behind, ap (λ (d : MContext × List LClass). buffers_start d.0) same),
    )
AllFresh-at g i m ((mc, shared) ∷ rest) (suc j) c (m₁, fresh, all) e =
    let (thread, behind) = AllFresh-at g (i + 1) m₁ rest j c all e in
    (omega (arith, thread), omega (arith, behind, fresh.taken.bump))

AllFresh-apart :
    (g : GOptions) (i : ℕ) (m : MetadataHeap) (cs : List (MContext × List LClass)) (j k : ℕ)
    (c d : MContext × List LClass)
    → AllFresh g i m cs
    → j < k
    → get_elem? cs j ≡ some c
    → get_elem? cs k ≡ some d
    → buffers_end g c.0 ≤ buffers_start d.0
AllFresh-apart g i m [] j k c d all lt e f = absurd (ground arith)
AllFresh-apart g i m ((mc, shared) ∷ rest) j zero c d all lt e f = absurd (omega arith)
AllFresh-apart g i m ((mc, shared) ∷ rest) zero (suc k) c d (m₁, fresh, all) lt e f =
    let same = head_is (mc, shared) (mc, shared) c e in
    let (thread, behind) = AllFresh-at g (i + 1) m₁ rest k d all f in
    omega (
      arith,
      fresh.class_before,
      behind,
      ap (λ (x : MContext × List LClass). buffers_end g x.0) same,
    )
AllFresh-apart g i m ((mc, shared) ∷ rest) (suc j) (suc k) c d (m₁, fresh, all) lt e f =
    AllFresh-apart g (i + 1) m₁ rest j k c d all (omega arith) e f

-- With enough room in the region `run_acdc` creates a context for each thread, in their order, and the
-- buffers of nodes and classes of two threads never overlap.
pub create_contexts-apart :
    (n : ℕ) (g : GOptions) (m : MetadataHeap)
    → m.metadata_heap_end ≤ 2 ^ 64
    → 0 < m.metadata_heap_bump_pointer
    → m.metadata_heap_bump_pointer + n * context_size g < m.metadata_heap_end
    → Returns
        (λ cs _.
          (length cs ≡ n)
          × ((j : ℕ) (c : MContext × List LClass) → get_elem? cs j ≡ some c → c.0.thread_id ≡ j)
          × ((j k : ℕ) (c d : MContext × List LClass)
              → j < k
              → get_elem? cs j ≡ some c
              → get_elem? cs k ≡ some d
              → buffers_end g c.0 ≤ buffers_start d.0))
        (create_contexts n 0 g m)
create_contexts-apart n g m wide some_start room =
    Returns-mono _ (create_contexts n 0 g m) (create_contexts-AllFresh n 0 g m wide some_start room)
      λ cs m' (len, all). (
        len,
        λ j c e. omega (arith, (AllFresh-at g 0 m cs j c all e).0),
        λ j k c d lt e f. AllFresh-apart g 0 m cs j k c d all lt e f,
      )
