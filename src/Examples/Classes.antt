-- ===== src/Examples/Classes.antt =====
-- Classes of each type.
use acdc.Base.{refl, arith, [], ◌∷◌}
use acdc.Base.Run.{Returns}
use acdc.Types.{list_type, optimal_btree}
use acdc.Classes.{allocate_ls_class, deallocate_ls_class, count_allocated, count_deallocated}
use acdc.Classes.NewClass.{Owns}
use acdc.Classes.Dispatch.{IsMade, AreFresh}
use acdc.Classes.Accounting.{
  allocating, IsFreed, allocate_ls_class-Owns, allocate_ls_class-deallocate_ls_class,
}
use acdc.Examples.{sample_world, sample_store, sample_stat}
use acdc.Examples.Pools.{in_use, sample_pool}

three_blocks : AreFresh (1024 ∷ 2048 ∷ 3072 ∷ []) (4096 ∷ 5120 ∷ []) sample_store
three_blocks = record {
  supply = refl;
  distinct = (refl, (refl, (refl, tt)));
  not_null = refl;
  unused = λ a i. refl;
}

one_block : AreFresh (1024 ∷ []) (2048 ∷ 3072 ∷ 4096 ∷ 5120 ∷ []) sample_store
one_block = record { supply = refl; distinct = (refl, tt); not_null = refl; unused = λ a i. refl }

allocate_ls_class-Owns_example :
    Returns
      (Owns in_use
        (allocating 16 7 sample_world)
        optimal_btree
        16
        7
        (IsMade optimal_btree 16 7 (1024 ∷ []) (2048 ∷ 3072 ∷ 4096 ∷ 5120 ∷ []) sample_store))
      (allocate_ls_class optimal_btree 16 7 sample_world)
allocate_ls_class-Owns_example =
    allocate_ls_class-Owns optimal_btree sample_world in_use [] 16 7 (1024 ∷ [])
      (2048 ∷ 3072 ∷ 4096 ∷ 5120 ∷ []) sample_pool (λ _. omega arith) (omega arith, omega arith)
      (omega arith) (omega arith, refl) one_block

allocate_ls_class-deallocate_ls_class_example :
    Returns
      (λ c w'.
        (o : Owns in_use
          (allocating 16 3 sample_world)
          list_type
          16
          3
          (IsMade list_type 16 3 (1024 ∷ 2048 ∷ 3072 ∷ []) (4096 ∷ 5120 ∷ []) sample_store)
          c
          w')
        × Returns
            (λ _ w''.
              IsFreed in_use o.cache c sample_world
                (count_deallocated 16 3 (count_allocated 16 3 sample_stat))
                w'')
            (deallocate_ls_class c w'))
      (allocate_ls_class list_type 16 3 sample_world)
allocate_ls_class-deallocate_ls_class_example =
    allocate_ls_class-deallocate_ls_class list_type sample_world in_use [] 16 3
      (1024 ∷ 2048 ∷ 3072 ∷ []) (4096 ∷ 5120 ∷ []) sample_pool (λ _. omega arith)
      (omega arith, omega arith) (omega arith) (omega arith, refl) three_blocks
