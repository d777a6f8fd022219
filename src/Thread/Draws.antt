-- ===== src/Thread/Draws.antt =====
-- What the operations of a thread leave alone: the options. The draws of src/distribution.c and the pools
-- of src/acdc.c and src/lifetime-size-classes.c.
use acdc.Base.{ℕ, zero, suc, refl, List}
use acdc.Base.Int.{ℤ}
use acdc.Types.{Ptr}
use acdc.Distribution.{
  next_rand, get_rand_int_range, get_sharing_dist, get_random_liveness, get_random_size,
  get_random_lifetime_size_class_type, remove_thread_ids, get_random_thread_selection,
}
use acdc.Mutator.{
  fresh_lsc_node, get_lsc_node, recycle_lsc_node, fresh_ls_class, get_ls_class, recycle_ls_class,
}
use acdc.Thread.Frame.{Keeps, keeps, world_options, context_options, keeping}

pub next_rand-Keeps : Keeps context_options next_rand
unfolding next_rand
next_rand-Keeps = keeps (λ mc. refl)

pub get_rand_int_range-Keeps : (from to : ℤ) → Keeps context_options (get_rand_int_range from to)
unfolding get_rand_int_range
get_rand_int_range-Keeps from to = search (keeping, next_rand-Keeps) depth 24

pub get_sharing_dist-Keeps : Keeps context_options get_sharing_dist
unfolding get_sharing_dist
get_sharing_dist-Keeps = search (keeping, get_rand_int_range-Keeps) depth 24

pub get_random_liveness-Keeps : Keeps context_options get_random_liveness
unfolding get_random_liveness
get_random_liveness-Keeps = search (keeping, get_rand_int_range-Keeps) depth 24

pub get_random_size-Keeps : Keeps context_options get_random_size
unfolding get_random_size
get_random_size-Keeps = search (keeping, get_rand_int_range-Keeps) depth 24

pub get_random_lifetime_size_class_type-Keeps :
    Keeps context_options get_random_lifetime_size_class_type
unfolding get_random_lifetime_size_class_type
get_random_lifetime_size_class_type-Keeps = search (keeping, get_rand_int_range-Keeps) depth 24

pub fresh_lsc_node-Keeps : Keeps world_options fresh_lsc_node
unfolding fresh_lsc_node
fresh_lsc_node-Keeps = search (keeping) depth 24

pub get_lsc_node-Keeps : Keeps world_options get_lsc_node
unfolding get_lsc_node
get_lsc_node-Keeps = search (keeping, fresh_lsc_node-Keeps) depth 24

pub recycle_lsc_node-Keeps : (p : Ptr) → Keeps world_options (recycle_lsc_node p)
unfolding recycle_lsc_node
recycle_lsc_node-Keeps p = search (keeping) depth 24

pub fresh_ls_class-Keeps : Keeps world_options fresh_ls_class
unfolding fresh_ls_class
fresh_ls_class-Keeps = search (keeping) depth 24

pub get_ls_class-Keeps : Keeps world_options get_ls_class
unfolding get_ls_class
get_ls_class-Keeps = search (keeping, fresh_ls_class-Keeps) depth 24

pub recycle_ls_class-Keeps : (p : Ptr) → Keeps world_options (recycle_ls_class p)
unfolding recycle_ls_class
recycle_ls_class-Keeps p = search (keeping) depth 24

pub remove_thread_ids-Keeps :
    (n : ℕ) (array : List ℕ) (size : ℕ) → Keeps context_options (remove_thread_ids n array size)
unfolding remove_thread_ids
remove_thread_ids-Keeps zero array size = search (keeping) depth 24
remove_thread_ids-Keeps (suc n) array size =
    search (keeping, get_rand_int_range-Keeps, remove_thread_ids-Keeps n) depth 24

pub get_random_thread_selection-Keeps : Keeps context_options get_random_thread_selection
unfolding get_random_thread_selection
get_random_thread_selection-Keeps = search (keeping, remove_thread_ids-Keeps) depth 24
