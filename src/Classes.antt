-- ===== src/Classes.antt =====
-- Lifetime-size-classes: src/lifetime-size-classes.c, on the objects of Objects.antt.
pub mod Contiguous
pub mod NewClass
pub mod Compact
pub mod Holding
pub mod Release
pub mod Dispatch
pub mod Accounting
use acdc.Base.{ℕ, zero, suc, ◌+◌, ◌-◌, ◌*◌, ◌%◌, ◌^◌, ltb, ◌==◌, if◌then◌else◌}
use acdc.Base.Run.{Cmd, pure, stop, assert, get_state, ◌>>=◌, ◌>>◌, exit_failure}
use acdc.Types.{
  Ptr, null, MStat, ClassType, list_type, btree_type, false_sharing, optimal_list, optimal_btree,
  optimal_false_sharing, sizeof_l_object, sizeof_bt_object, object_size, reference_counter,
}
use acdc.Store.{Store, allocate, deallocate, store0, store1}
use acdc.LifetimeClass.{load}
use acdc.Objects.{
  build_list, free_list, traverse_objects, build_tree_recursion, deallocate_subtree_recursion,
  btree_preorder_recursion, btree_inverse_preorder_recursion,
}
use acdc.Mutator.{
  World, in_heap, in_store, set_chunk, set_context, rdtsc, elapsed, get_ls_class, recycle_ls_class,
}

unfoldable pub new_ls_class : ClassType → ℕ → ℕ → Cmd World Ptr
new_ls_class t sz nelem = do
  c ← get_ls_class
  set_chunk c (λ k. record k { next = sz; num_objects = nelem; type = t })
  pure c

-- `c->start = p`.
abbrev pub set_start : Ptr → Ptr → Cmd World (Unit {0})
set_start c p = set_chunk c (λ k. record k { start = p })

-- The loop of `allocate_optimal_list_unaligned`, from the object `tmp` on; `n` rounds are left.
unfoldable pub link_contiguous : ℕ → ℕ → Ptr → Cmd Store (Unit {0})
link_contiguous sz zero tmp = store0 tmp null
link_contiguous sz (suc n) tmp = do store0 tmp (tmp + sz); link_contiguous sz n (tmp + sz)

unfoldable pub allocate_optimal_list_unaligned : ℕ → ℕ → Cmd World Ptr
allocate_optimal_list_unaligned sz nelem = do
  list ← new_ls_class optimal_list sz nelem
  start ← in_store (allocate (sz * nelem))
  set_start list start
  in_store (link_contiguous sz (nelem - 1) start)
  pure list

unfoldable pub deallocate_optimal_list_unaligned : Ptr → Cmd World (Unit {0})
deallocate_optimal_list_unaligned c = do
  k ← in_heap (load c)
  in_store (deallocate k.start (object_size k * k.num_objects))
  recycle_ls_class c

unfoldable pub allocate_list : ℕ → ℕ → Cmd World Ptr
allocate_list sz nelem = if ltb sz sizeof_l_object then stop exit_failure else do
  list ← new_ls_class list_type sz nelem
  start ← in_store (build_list sz nelem)
  set_start list start
  pure list

unfoldable pub deallocate_list : Ptr → Cmd World (Unit {0})
deallocate_list c = do
  k ← in_heap (load c)
  in_store (free_list (k.num_objects + 1) (object_size k) k.start)
  recycle_ls_class c

unfoldable pub traverse_list : Ptr → Cmd World (Unit {0})
traverse_list c = do
  k ← in_heap (load c)
  w ← get_state
  in_store (traverse_objects w.mc.gopts (k.num_objects + 1) (object_size k) 0 k.start)

-- The child number `child` of a tree of `nelem` objects from `arr` on: an object, or `NULL`.
abbrev pub child_at : ℕ → ℕ → Ptr → ℕ → Ptr
child_at sz nelem arr child = if ltb (nelem - 1) child then null else arr + child * sz

-- The loop of `allocate_optimal_btree` from round `i` on; `n` rounds are left.
unfoldable pub link_heap : ℕ → ℕ → Ptr → ℕ → ℕ → Cmd Store (Unit {0})
link_heap sz nelem arr zero i = pure tt
link_heap sz nelem arr (suc n) i = do
  store0 (arr + i * sz) (child_at sz nelem arr (2 * i + 1))
  store1 (arr + i * sz) (child_at sz nelem arr (2 * i + 2))
  link_heap sz nelem arr n (i + 1)

unfoldable pub allocate_optimal_btree : ℕ → ℕ → Cmd World Ptr
allocate_optimal_btree sz nelem = if ltb sz sizeof_bt_object then stop exit_failure else do
  c ← new_ls_class optimal_btree sz nelem
  start ← in_store (allocate (sz * nelem))
  set_start c start
  in_store (link_heap sz nelem start nelem 0)
  pure c

unfoldable pub deallocate_optimal_btree : Ptr → Cmd World (Unit {0})
deallocate_optimal_btree c = do
  k ← in_heap (load c)
  in_store (deallocate k.start (object_size k * k.num_objects))
  recycle_ls_class c

unfoldable pub allocate_btree : ℕ → ℕ → Cmd World Ptr
allocate_btree sz nelem = if ltb sz sizeof_bt_object then stop exit_failure else do
  btree ← new_ls_class btree_type sz nelem
  start ← in_store (build_tree_recursion (nelem + 1) sz nelem)
  set_start btree start
  pure btree

unfoldable pub deallocate_btree : Ptr → Cmd World (Unit {0})
deallocate_btree c = do
  k ← in_heap (load c)
  in_store (deallocate_subtree_recursion (k.num_objects + 1) k.start (object_size k))
  recycle_ls_class c

unfoldable pub traverse_btree_inverse_preorder : Ptr → Cmd World (Unit {0})
traverse_btree_inverse_preorder c = do
  k ← in_heap (load c)
  w ← get_state
  in_store (btree_inverse_preorder_recursion w.mc.gopts (k.num_objects + 1) k.start (object_size k))

unfoldable pub traverse_btree_preorder : Ptr → Cmd World (Unit {0})
traverse_btree_preorder c = do
  k ← in_heap (load c)
  w ← get_state
  in_store (btree_preorder_recursion w.mc.gopts (k.num_objects + 1) k.start (object_size k))

-- The statistics after an allocation and after a deallocation of `nelem` objects of size `sz`.
abbrev pub count_allocated : ℕ → ℕ → MStat → MStat
count_allocated sz nelem st = record st {
  bytes_allocated = (st.bytes_allocated + sz * nelem) % 2 ^ 64;
  objects_allocated = (st.objects_allocated + nelem) % 2 ^ 64;
}

abbrev pub count_deallocated : ℕ → ℕ → MStat → MStat
count_deallocated sz nelem st = record st {
  bytes_deallocated = (st.bytes_deallocated + sz * nelem) % 2 ^ 64;
  objects_deallocated = (st.objects_deallocated + nelem) % 2 ^ 64;
}

-- The `switch` of `allocate_ls_class`.
unfoldable pub allocate_of_type : ClassType → ℕ → ℕ → Cmd World Ptr
allocate_of_type list_type sz nelem = allocate_list sz nelem
allocate_of_type optimal_list sz nelem = allocate_optimal_list_unaligned sz nelem
allocate_of_type btree_type sz nelem = allocate_btree sz nelem
allocate_of_type optimal_btree sz nelem = allocate_optimal_btree sz nelem
allocate_of_type false_sharing sz nelem = pure null
allocate_of_type optimal_false_sharing sz nelem = pure null

unfoldable pub allocate_ls_class : ClassType → ℕ → ℕ → Cmd World Ptr
allocate_ls_class type sz nelem = do
  w ← get_state
  assert (ltb 0 sz)
  assert (ltb sz (2 ^ w.mc.gopts.max_object_sc))
  assert (ltb 0 nelem)
  set_context λ mc. record mc { stat = count_allocated sz nelem mc.stat }
  allocate_of_type type sz nelem

-- The `switch` of `deallocate_ls_class`.
unfoldable pub deallocate_of_type : ClassType → Ptr → Cmd World (Unit {0})
deallocate_of_type list_type c = deallocate_list c
deallocate_of_type optimal_list c = deallocate_optimal_list_unaligned c
deallocate_of_type btree_type c = deallocate_btree c
deallocate_of_type optimal_btree c = deallocate_optimal_btree c
deallocate_of_type false_sharing c = pure tt
deallocate_of_type optimal_false_sharing c = pure tt

unfoldable pub deallocate_ls_class : Ptr → Cmd World (Unit {0})
deallocate_ls_class c = do
  k ← in_heap (load c)
  w ← get_state
  assert (reference_counter k == 0)
  assert (ltb 0 (object_size k))
  assert (ltb (object_size k) (2 ^ w.mc.gopts.max_object_sc))
  assert (ltb 0 k.num_objects)
  set_context λ mc. record mc { stat = count_deallocated (object_size k) k.num_objects mc.stat }
  start ← rdtsc
  deallocate_of_type k.type c
  end ← rdtsc
  set_context λ mc. record mc {
    stat = record mc.stat {
      deallocation_time = (mc.stat.deallocation_time + elapsed start end) % 2 ^ 64;
    };
  }

-- The `switch` of `traverse_ls_class`, on the type that the class holds.
unfoldable pub traverse_of_type : ClassType → Ptr → Cmd World (Unit {0})
traverse_of_type list_type c = traverse_list c
traverse_of_type optimal_list c = traverse_list c
traverse_of_type btree_type c = traverse_btree_inverse_preorder c
traverse_of_type optimal_btree c = traverse_btree_preorder c
traverse_of_type false_sharing c = pure tt
traverse_of_type optimal_false_sharing c = pure tt

unfoldable pub traverse_ls_class : Ptr → Cmd World (Unit {0})
traverse_ls_class c = do k ← in_heap (load c); traverse_of_type k.type c
