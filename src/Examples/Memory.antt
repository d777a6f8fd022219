-- ===== src/Examples/Memory.antt =====
-- Objects and the metadata heap.
use acdc.Base.{some, ℕ, if◌then◌else◌, ◌≤◌, ◌<◌, ◌≡◌, refl, arith, List, [], ◌∷◌, ◌==◌, has}
use acdc.Types.{MContext, LClass}
use acdc.RunAcdc.{create_contexts}
use acdc.RunAcdc.Contexts.{buffers_start, buffers_end, create_contexts-apart}
use acdc.Base.{length, get_elem?}
use acdc.Base.Run.{Returns}
use acdc.Types.{Ptr}
use acdc.Store.{Store}
use acdc.Objects.{traverse_objects, build_tree_recursion, deallocate_subtree_recursion}
use acdc.Objects.Trees.{Tree, leaf, node}
use acdc.Objects.TreeBuilding.{build_tree_recursion-IsBuilt}
use acdc.Objects.FreeTrees.{Freed, deallocate_subtree_recursion-Freed}
use acdc.Objects.Writes.{btree_preorder-inverse}
use acdc.Base.Run.{ok}
use acdc.Objects.Writes.{overwritten}
use acdc.Objects.Traversal.{traverse_objects_lem}
use acdc.Objects.{btree_preorder_recursion, btree_inverse_preorder_recursion}
use acdc.Objects.TreeTraversal.{btree_preorder_recursion_lem}
use acdc.Context.{create_mutator_context}
use acdc.Context.Fresh.{IsFresh, create_mutator_context-IsFresh}
use acdc.MetadataHeap.{MetadataHeap, malloc_meta_aligned}
use acdc.MetadataHeap.Blocks.{IsBlock, malloc_meta_aligned-IsBlock}
use acdc.Examples.{sample_options, sample_store}

abbrev blocks : List Ptr
blocks = 1024 ∷ 2048 ∷ 3072 ∷ []

abbrev spare : List Ptr
spare = 4096 ∷ 5120 ∷ []

build_tree_recursion-IsBuilt_example :
    Returns
      (acdc.Objects.Trees.IsBuilt 16 blocks spare sample_store)
      (build_tree_recursion 4 16 3 sample_store)
build_tree_recursion-IsBuilt_example =
    build_tree_recursion-IsBuilt 4 16 3 blocks spare sample_store (omega arith) refl refl
      (refl, (refl, (refl, tt))) refl (omega arith)

-- The tree of the three blocks, allocated.
abbrev small_tree : Tree
small_tree = node 1024 (node 2048 leaf leaf) (node 3072 leaf leaf)

abbrev tree_store : Store
tree_store = record sample_store {
  word0 = λ p. if p == 1024 then 2048 else 0;
  word1 = λ p. if p == 1024 then 3072 else 0;
  live = λ p. has p blocks;
}

deallocate_subtree_recursion-Freed_example :
    Returns (λ _ s. Freed blocks tree_store s) (deallocate_subtree_recursion 4 1024 16 tree_store)
deallocate_subtree_recursion-Freed_example =
    deallocate_subtree_recursion-Freed 4 16 small_tree tree_store
      (refl, refl, (refl, refl, tt, tt), (refl, refl, tt, tt)) (refl, (refl, (refl, tt))) refl
      (λ a i. i) (omega arith)

btree_preorder-inverse_example :
    btree_preorder_recursion sample_options 4 ≡ btree_inverse_preorder_recursion sample_options 4
btree_preorder-inverse_example = btree_preorder-inverse sample_options 4

-- Two objects in a chain.
abbrev chain_store : Store
chain_store = record sample_store { word0 = λ p. if p == 1024 then 2048 else 0 }

traverse_objects_lem_example :
    traverse_objects sample_options 3 16 0 1024 chain_store
    ≡ ok tt (record chain_store { bytes = overwritten 1 16 8 (1024 ∷ []) chain_store.bytes })
traverse_objects_lem_example =
    traverse_objects_lem sample_options 3 16 (1024 ∷ 2048 ∷ []) chain_store (omega arith)
      (omega arith) (refl, (refl, tt)) refl (omega arith)

-- A metadata heap of 1 MB with 100 bytes taken.
abbrev sample_heap : MetadataHeap
sample_heap = record {
  metadata_heap_start = 1048576;
  metadata_heap_end = 2097152;
  metadata_heap_bump_pointer = 1048676;
  bytes = λ _. 9;
}

malloc_meta_aligned-IsBlock_example :
    Returns (IsBlock 300 64 sample_heap) (malloc_meta_aligned 300 64 sample_heap)
malloc_meta_aligned-IsBlock_example =
    malloc_meta_aligned-IsBlock 300 6 sample_heap (omega arith) (omega arith) (omega arith)

btree_preorder_recursion_lem_example :
    btree_preorder_recursion sample_options 4 1024 32 tree_store
    ≡ ok tt (record tree_store {
      bytes = overwritten 1 32 16 (1024 ∷ 3072 ∷ 2048 ∷ []) tree_store.bytes;
    })
btree_preorder_recursion_lem_example =
    btree_preorder_recursion_lem sample_options 4 32 small_tree tree_store (omega arith)
      (omega arith) (refl, refl, (refl, refl, tt, tt), (refl, refl, tt, tt)) refl (omega arith)

create_mutator_context-IsFresh_example :
    Returns
      (λ (mc, shared) m. IsFresh sample_options 3 sample_heap mc shared m)
      (create_mutator_context sample_options 3 sample_heap)
create_mutator_context-IsFresh_example =
    create_mutator_context-IsFresh sample_options 3 sample_heap (omega arith) (omega arith)
      (omega arith)

create_contexts-apart_example :
    Returns
      (λ cs _.
        (length cs ≡ 2)
        × ((j : ℕ) (c : MContext × List LClass) → get_elem? cs j ≡ some c → c.0.thread_id ≡ j)
        × ((j k : ℕ) (c d : MContext × List LClass)
            → j < k
            → get_elem? cs j ≡ some c
            → get_elem? cs k ≡ some d
            → buffers_end sample_options c.0 ≤ buffers_start d.0))
      (create_contexts 2 0 sample_options sample_heap)
create_contexts-apart_example =
    create_contexts-apart 2 sample_options sample_heap (omega arith) (omega arith) (omega arith)
