-- ===== src/Classes/Release.antt =====
-- The deallocation of a class in any state: `deallocate_LSClass` of src/lifetime-size-classes.c, by what
-- the class holds, however it was made.
use acdc.Base.{
  ℕ, ◌+◌, ◌*◌, ◌%◌, ◌^◌, Bool, true, false, List, ◌∷◌, ltb, ◌==◌, ◌≡◌, sym, ap, subst, arith, ◌∉◌,
}
use acdc.Base.Run.{◌>>◌, Returns, Returns-bind, Returns-mono, Cmd}
use acdc.Types.{
  btree_type, Ptr, null, ClassType, list_type, optimal_list, optimal_btree, false_sharing,
  optimal_false_sharing, object_size, reference_counter, MStat,
}
use acdc.Store.{Store, update_ptr, deallocate}
use acdc.LifetimeClass.Stores.{load-ok}
use acdc.Mutator.{in_store, World, recycle_ls_class}
use acdc.Mutator.Pools.{SameNodes}
use acdc.Mutator.ClassPool.{IsClassPool, recycle_ls_class-IsPool}
use acdc.Objects.{free_list, deallocate_subtree_recursion}
use acdc.Objects.FreeTrees.{Freed}
use acdc.Classes.{
  deallocate_list, deallocate_btree, deallocate_optimal_list_unaligned, deallocate_optimal_btree,
  deallocate_of_type, deallocate_ls_class, count_deallocated,
}
use acdc.Classes.NewClass.{Returns-in_store}
use acdc.Classes.Holding.{Holds, AreLive, IsOwner, free_one, free_chain, free_tree}

-- After the objects of the class `c` are freed: it is cached, and nothing else but its blocks and the
-- class cache has changed.
pub record Gone (used : Ptr → Bool) (xs blocks : List Ptr) (c : Ptr) (w w' : World) : Type 0 where
  pub freed : Freed blocks w.store w'.store
  pub pool : IsClassPool w' (c ∷ xs) (update_ptr used c false)
  pub nodes : SameNodes w w'
  pub gopts : w'.mc.gopts ≡ w.mc.gopts
  pub time : w'.mc.time ≡ w.mc.time
  pub stat : w'.mc.stat ≡ w.mc.stat
  pub others : (a : Ptr) → a ∉ xs → (a == c) ≡ false → w'.heap a ≡ w.heap a

module _ (used : Ptr → Bool) (xs : List Ptr) (blocks : List Ptr) (c : Ptr) (w : World)
    (pool : IsClassPool w xs used) (taken : used c ≡ true)
    (unreferenced : reference_counter (w.heap c) ≡ 0) where
  -- Once its objects are freed, a class goes back to its pool.
  give_back :
      (release : Cmd Store (Unit {0}))
      → Returns (λ _ s. Freed blocks w.store s) (release w.store)
      → Returns (λ _ w'. Gone used xs blocks c w w') ((in_store release >> recycle_ls_class c) w)
  give_back release freed = Returns-in_store _ w (release w.store) _ freed λ _ s f.
      Returns-mono _ (recycle_ls_class c (record w { store = s }))
        (recycle_ls_class-IsPool (record w { store = s }) used xs c pool taken unreferenced)
        λ _ w' (pool', kept, nodes). record {
          freed = subst (Freed blocks w.store) (sym kept.store) f;
          pool = pool';
          nodes = record { cache = nodes.cache; memory = nodes.memory; counter = nodes.counter };
          gopts = kept.gopts;
          time = kept.time;
          stat = kept.stat;
          others = kept.others;
        }

  deallocate_of_type-Gone :
      (t : ClassType)
      → (c == null) ≡ false
      → AreLive blocks w.store
      → (let k = w.heap c in Holds t k.num_objects blocks k.start w.store)
      → Returns (λ _ w'. Gone used xs blocks c w w') (deallocate_of_type t c w)
  unfolding deallocate_of_type deallocate_list deallocate_btree deallocate_optimal_list_unaligned
      deallocate_optimal_btree
  deallocate_of_type-Gone list_type nc l h =
      let k = w.heap c in
      rw (load-ok c w.heap nc) (
        give_back (free_list (k.num_objects + 1) (object_size k) k.start)
          (free_chain k.num_objects (object_size k) k.start blocks w.store l h))
  deallocate_of_type-Gone btree_type nc l h =
      let k = w.heap c in
      rw (load-ok c w.heap nc) (
        give_back (deallocate_subtree_recursion (k.num_objects + 1) k.start (object_size k))
          (free_tree k.num_objects (object_size k) k.start blocks w.store l h))
  deallocate_of_type-Gone optimal_list nc l h =
      let k = w.heap c in
      rw (load-ok c w.heap nc) (
        give_back (deallocate k.start (object_size k * k.num_objects))
          (free_one k.start (object_size k * k.num_objects) blocks w.store l h))
  deallocate_of_type-Gone optimal_btree nc l h =
      let k = w.heap c in
      rw (load-ok c w.heap nc) (
        give_back (deallocate k.start (object_size k * k.num_objects))
          (free_one k.start (object_size k * k.num_objects) blocks w.store l h))
  deallocate_of_type-Gone false_sharing nc l h = absurd h
  deallocate_of_type-Gone optimal_false_sharing nc l h = absurd h

-- The state after the statistics of a deallocation are counted and the clock is read.
abbrev deallocating : ℕ → ℕ → World → World
deallocating sz n w = record w {
  mc = record w.mc { stat = count_deallocated sz n w.mc.stat };
  readings = w.readings + 1;
}

-- After `deallocate_ls_class` of the class `c`, which is as in `w`, counted and freed.
pub record Deallocated (used : Ptr → Bool) (xs blocks : List Ptr) (c : Ptr) (w w' : World)
    : Type 0 where
  pub freed : Freed blocks w.store w'.store
  pub pool : IsClassPool w' (c ∷ xs) (update_ptr used c false)
  pub nodes : SameNodes w w'
  pub gopts : w'.mc.gopts ≡ w.mc.gopts
  pub time : w'.mc.time ≡ w.mc.time
  pub bytes_allocated : w'.mc.stat.bytes_allocated ≡ w.mc.stat.bytes_allocated
  pub objects_allocated : w'.mc.stat.objects_allocated ≡ w.mc.stat.objects_allocated
  pub bytes :
      w'.mc.stat.bytes_deallocated
      ≡ (w.mc.stat.bytes_deallocated + object_size (w.heap c) * (w.heap c).num_objects) % 2 ^ 64
  pub objects :
      w'.mc.stat.objects_deallocated
      ≡ (w.mc.stat.objects_deallocated + (w.heap c).num_objects) % 2 ^ 64
  pub others : (a : Ptr) → a ∉ xs → (a == c) ≡ false → w'.heap a ≡ w.heap a

pub deallocate_ls_class-Deallocated :
    (used : Ptr → Bool) (xs blocks : List Ptr) (c : Ptr) (w : World)
    → IsClassPool w xs used
    → used c ≡ true
    → reference_counter (w.heap c) ≡ 0
    → IsOwner w.mc.gopts w.store blocks (w.heap c)
    → Returns (λ _ w'. Deallocated used xs blocks c w w') (deallocate_ls_class c w)
unfolding deallocate_ls_class acdc.Mutator.rdtsc
deallocate_ls_class-Deallocated used xs blocks c w pool taken none_left o =
    let k = w.heap c in
    let nc : (c == null) ≡ false = ground (arith, pool.taken c taken, pool.mapped) in
    let b₀ : (reference_counter k == 0) ≡ true = ground (arith, none_left) in
    let b₁ : ltb 0 (object_size k) ≡ true = ground (arith, o.some_size) in
    let b₂ : ltb (object_size k) (2 ^ w.mc.gopts.max_object_sc) ≡ true = ground (arith, o.size) in
    let b₃ : ltb 0 k.num_objects ≡ true = ground (arith, o.some_object) in
    rw (load-ok c w.heap nc, b₀, b₁, b₂, b₃)
      (Returns-bind _ (deallocate_of_type k.type c (deallocating (object_size k) k.num_objects w)) _
        (deallocate_of_type-Gone used xs blocks c (deallocating (object_size k) k.num_objects w)
          pool taken none_left k.type nc o.blocks_live o.holds)
        λ _ w' r. record {
          freed = r.freed;
          pool = r.pool;
          nodes = record {
            cache = r.nodes.cache;
            memory = r.nodes.memory;
            counter = r.nodes.counter;
          };
          gopts = r.gopts;
          time = r.time;
          bytes_allocated = ap (λ (x : MStat). x.bytes_allocated) r.stat;
          objects_allocated = ap (λ (x : MStat). x.objects_allocated) r.stat;
          bytes = ap (λ (x : MStat). x.bytes_deallocated) r.stat;
          objects = ap (λ (x : MStat). x.objects_deallocated) r.stat;
          others = r.others;
        })
