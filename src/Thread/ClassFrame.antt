-- ===== src/Thread/ClassFrame.antt =====
-- What the operations of a thread leave alone: the options. The classes of
-- src/lifetime-size-classes.c.
use acdc.Base.{ℕ}
use acdc.Types.{
  Ptr, ClassType, list_type, btree_type, optimal_list, optimal_btree, false_sharing,
  optimal_false_sharing,
}
use acdc.Classes.{
  new_ls_class, allocate_list, allocate_btree, allocate_optimal_list_unaligned,
  allocate_optimal_btree, deallocate_list, deallocate_btree, deallocate_optimal_list_unaligned,
  deallocate_optimal_btree, traverse_list, traverse_btree_preorder, traverse_btree_inverse_preorder,
  allocate_of_type, deallocate_of_type, traverse_of_type, deallocate_ls_class, traverse_ls_class,
}
use acdc.Thread.Frame.{Keeps, world_options, keeping}
use acdc.Thread.Draws.{get_ls_class-Keeps, recycle_ls_class-Keeps}

pub new_ls_class-Keeps :
    (t : ClassType) (sz nelem : ℕ) → Keeps world_options (new_ls_class t sz nelem)
unfolding new_ls_class
new_ls_class-Keeps t sz nelem = search (keeping, get_ls_class-Keeps) depth 24

pub allocate_list-Keeps : (sz nelem : ℕ) → Keeps world_options (allocate_list sz nelem)
unfolding allocate_list
allocate_list-Keeps sz nelem = search (keeping, new_ls_class-Keeps) depth 24

pub allocate_btree-Keeps : (sz nelem : ℕ) → Keeps world_options (allocate_btree sz nelem)
unfolding allocate_btree
allocate_btree-Keeps sz nelem = search (keeping, new_ls_class-Keeps) depth 24

pub allocate_optimal_list_unaligned-Keeps :
    (sz nelem : ℕ) → Keeps world_options (allocate_optimal_list_unaligned sz nelem)
unfolding allocate_optimal_list_unaligned
allocate_optimal_list_unaligned-Keeps sz nelem = search (keeping, new_ls_class-Keeps) depth 24

pub allocate_optimal_btree-Keeps :
    (sz nelem : ℕ) → Keeps world_options (allocate_optimal_btree sz nelem)
unfolding allocate_optimal_btree
allocate_optimal_btree-Keeps sz nelem = search (keeping, new_ls_class-Keeps) depth 24

pub deallocate_list-Keeps : (c : Ptr) → Keeps world_options (deallocate_list c)
unfolding deallocate_list
deallocate_list-Keeps c = search (keeping, recycle_ls_class-Keeps) depth 24

pub deallocate_btree-Keeps : (c : Ptr) → Keeps world_options (deallocate_btree c)
unfolding deallocate_btree
deallocate_btree-Keeps c = search (keeping, recycle_ls_class-Keeps) depth 24

pub deallocate_optimal_list_unaligned-Keeps :
    (c : Ptr) → Keeps world_options (deallocate_optimal_list_unaligned c)
unfolding deallocate_optimal_list_unaligned
deallocate_optimal_list_unaligned-Keeps c = search (keeping, recycle_ls_class-Keeps) depth 24

pub deallocate_optimal_btree-Keeps : (c : Ptr) → Keeps world_options (deallocate_optimal_btree c)
unfolding deallocate_optimal_btree
deallocate_optimal_btree-Keeps c = search (keeping, recycle_ls_class-Keeps) depth 24

pub traverse_list-Keeps : (c : Ptr) → Keeps world_options (traverse_list c)
unfolding traverse_list
traverse_list-Keeps c = search (keeping) depth 24

pub traverse_btree_preorder-Keeps : (c : Ptr) → Keeps world_options (traverse_btree_preorder c)
unfolding traverse_btree_preorder
traverse_btree_preorder-Keeps c = search (keeping) depth 24

pub traverse_btree_inverse_preorder-Keeps :
    (c : Ptr) → Keeps world_options (traverse_btree_inverse_preorder c)
unfolding traverse_btree_inverse_preorder
traverse_btree_inverse_preorder-Keeps c = search (keeping) depth 24

pub allocate_of_type-Keeps :
    (t : ClassType) (sz nelem : ℕ) → Keeps world_options (allocate_of_type t sz nelem)
unfolding allocate_of_type
allocate_of_type-Keeps list_type sz nelem = search (keeping, allocate_list-Keeps) depth 24
allocate_of_type-Keeps btree_type sz nelem = search (keeping, allocate_btree-Keeps) depth 24
allocate_of_type-Keeps optimal_list sz nelem =
    search (keeping, allocate_optimal_list_unaligned-Keeps) depth 24
allocate_of_type-Keeps optimal_btree sz nelem =
    search (keeping, allocate_optimal_btree-Keeps) depth 24
allocate_of_type-Keeps false_sharing sz nelem = search (keeping) depth 24
allocate_of_type-Keeps optimal_false_sharing sz nelem = search (keeping) depth 24

pub deallocate_of_type-Keeps :
    (t : ClassType) (c : Ptr) → Keeps world_options (deallocate_of_type t c)
unfolding deallocate_of_type
deallocate_of_type-Keeps list_type c = search (keeping, deallocate_list-Keeps) depth 24
deallocate_of_type-Keeps btree_type c = search (keeping, deallocate_btree-Keeps) depth 24
deallocate_of_type-Keeps optimal_list c =
    search (keeping, deallocate_optimal_list_unaligned-Keeps) depth 24
deallocate_of_type-Keeps optimal_btree c = search (keeping, deallocate_optimal_btree-Keeps) depth 24
deallocate_of_type-Keeps false_sharing c = search (keeping) depth 24
deallocate_of_type-Keeps optimal_false_sharing c = search (keeping) depth 24

pub traverse_of_type-Keeps : (t : ClassType) (c : Ptr) → Keeps world_options (traverse_of_type t c)
unfolding traverse_of_type
traverse_of_type-Keeps list_type c = search (keeping, traverse_list-Keeps) depth 24
traverse_of_type-Keeps btree_type c =
    search (keeping, traverse_btree_inverse_preorder-Keeps) depth 24
traverse_of_type-Keeps optimal_list c = search (keeping, traverse_list-Keeps) depth 24
traverse_of_type-Keeps optimal_btree c = search (keeping, traverse_btree_preorder-Keeps) depth 24
traverse_of_type-Keeps false_sharing c = search (keeping) depth 24
traverse_of_type-Keeps optimal_false_sharing c = search (keeping) depth 24

pub deallocate_ls_class-Keeps : (c : Ptr) → Keeps world_options (deallocate_ls_class c)
unfolding deallocate_ls_class
deallocate_ls_class-Keeps c = search (keeping, deallocate_of_type-Keeps) depth 24

pub traverse_ls_class-Keeps : (c : Ptr) → Keeps world_options (traverse_ls_class c)
unfolding traverse_ls_class
traverse_ls_class-Keeps c = search (keeping, traverse_of_type-Keeps) depth 24
