-- ===== src/HeapClass/Life.antt =====
-- A class from its insertion into a heap class to its expiry: `heap_class_insert` and, when the time of
-- the thread has come, `heap_class_remove` of src/acdc.c.
use native.Mathlib.Nat.{mul-le-mul}
use mathlib.Core.Option.{some-injective}
use acdc.Base.{
  ℕ, zero, suc, ◌+◌, ◌*◌, ◌≤◌, ◌<◌, ◌^◌, Bool, true, false, List, [], ◌∷◌, ◌==◌, ◌≡◌, refl, sym,
  ◌∙◌, ap, arith, has, ◌||◌, some, get_elem?, get_elem?-set, set,
}
use acdc.Base.Int.{pos_part}
use acdc.Base.Run.{Returns, Returns-mono}
use acdc.Types.{Ptr, null, LClass, empty_class, lifetime}
use acdc.Store.{update_ptr}
use acdc.Mutator.{World}
use acdc.Mutator.NodePool.{IsNodePool, next_node}
use acdc.Mutator.ClassPool.{IsClassPool}
use acdc.HeapClass.{
  slots, insert_index, delete_index, node_fuel, heap_class_insert, heap_class_remove,
}
use acdc.HeapClass.Slots.{delete_index-insert_index}
use acdc.HeapClass.Insert.{Inserted, heap_class_insert-Inserted}
use acdc.HeapClass.Owned.{AreSeparate, IsAlone}
use acdc.HeapClass.RemoveAlone.{heap_class_remove-Emptied}
use acdc.HeapClass.Waiting.{at_time, Over, Leaving-after, Over-after}

set-set :
    (xs : List LClass) (i : ℕ) (v u : LClass) → get_elem? xs i ≡ some u → set (set xs i v) i u ≡ xs
set-set [] i v u e = refl
set-set (x ∷ xs) zero v u e = ap (λ y. y ∷ xs) (sym (some-injective x u e))
set-set (x ∷ xs) (suc i) v u e = ap (λ ys. x ∷ ys) (set-set xs i v u e)

-- A class that this thread alone refers to, of liveness `l`, which is inserted at time `t` where no other
-- class expires: `heap_class_insert` succeeds with a node of its own for the class, and at time
-- `t + l + deallocation_delay` `heap_class_remove` ends, takes it out of the array again, which is then as
-- before the insertion, puts this node and the class into the caches of well-formed pools, frees exactly
-- the blocks of the class, and counts it.
pub heap_class_insert-heap_class_remove :
    (w : World) (nodes : Ptr → Bool) (xs : List Ptr) (classes : Ptr → Bool) (ys : List Ptr)
    (hc : List LClass) (c l : ℕ) (bs : List Ptr)
    → IsNodePool w xs nodes
    → (xs ≡ [] → w.mc.node_buffer_counter < w.mc.gopts.node_buffer_size)
    → 0 < w.mc.gopts.num_threads
    → 0 < w.mc.gopts.node_buffer_size
    → IsClassPool w ys classes
    → AreSeparate nodes xs classes ys
    → (classes (next_node w) || has (next_node w) ys) ≡ false
    → IsAlone w.mc.gopts w.heap w.store classes bs c
    → lifetime (w.heap c) ≡ l + w.mc.gopts.deallocation_delay
    → 0 < l
    → l ≤ w.mc.gopts.max_liveness
    → l + w.mc.gopts.deallocation_delay < 2 ^ 32
    → get_elem? hc (insert_index w.mc.gopts w.mc.time (l + w.mc.gopts.deallocation_delay))
      ≡ some empty_class
    → Returns
        (λ hc' w'.
          (ins : Inserted hc
            (insert_index w.mc.gopts w.mc.time (lifetime (w.heap c)))
            xs
            []
            c
            nodes
            w
            hc'
            w')
          × Returns
              (λ hc'' w''. (hc'' ≡ hc) × Over nodes classes ins.cache ys bs ins.node c w w'')
              (heap_class_remove hc' (at_time (w.mc.time + l + w.mc.gopts.deallocation_delay) w')))
        (heap_class_insert hc c w)
heap_class_insert-heap_class_remove w nodes xs classes ys hc c l bs pool room threads size cpool sep
      next_apart alone life some_l most_l fits at =
    let g = w.mc.gopts in
    let u = w.mc.time + l + g.deallocation_delay in
    let i = insert_index g w.mc.time (lifetime (w.heap c)) in
    let some_fuel : 1 * 1 ≤ g.num_threads * g.node_buffer_size = mul-le-mul threads size in
    let at_i : get_elem? hc i ≡ some empty_class =
      ap (λ m. get_elem? hc (insert_index g w.mc.time m)) life ∙ at in
    let nc : (c == null) ≡ false = ground (arith, cpool.taken c alone.taken, cpool.mapped) in
    Returns-mono _ (heap_class_insert hc c w)
      (heap_class_insert-Inserted w nodes xs hc c empty_class [] pool room nc (omega arith) at_i
        (record { first = refl; last = refl; chain = tt; distinct = tt; not_null = refl })
        (λ a h. absurd (ground arith)))
      λ hc' w' ins.
        let slot : pos_part (delete_index w'.mc.gopts u) ≡ i =
          ap (λ o. pos_part (delete_index o u)) ins.gopts
          ∙ (ap pos_part (
                (delete_index-insert_index g w.mc.time l u some_l most_l fits (omega arith)
                    (omega arith)).1
                  refl)
              ∙ ap (insert_index g w.mc.time) (sym life)) in
        let found : get_elem? hc' (pos_part (delete_index w'.mc.gopts u)) ≡ some ins.target =
          ap (get_elem? hc') slot
          ∙ (ap (λ h. get_elem? h i) ins.array ∙ get_elem?-set hc i ins.target empty_class at_i) in
        let slots_same = ap slots ins.gopts in
        (
          ins,
          Returns-mono _ (heap_class_remove hc' (at_time u w'))
              (heap_class_remove-Emptied (at_time u w') (update_ptr nodes ins.node true) ins.cache
                classes ys (ins.node ∷ []) (c ∷ []) (λ _. bs) hc' ins.target
                (omega (arith, slots_same)) found ins.list.first
                (Leaving-after w nodes xs classes ys sep next_apart hc i c bs hc' w' cpool alone ins
                  u)
                (omega (arith, ap node_fuel ins.gopts, some_fuel)))
              λ hc'' w'' (same, e). (
                same
                    ∙ (ap (λ j. set hc' j empty_class) slot
                        ∙ (ap (λ h. set h i empty_class) ins.array
                            ∙ set-set hc i ins.target empty_class at_i)),
                Over-after w nodes xs classes ys sep next_apart hc i c bs hc' w' cpool alone ins u
                    w'' e,
              ),
        )
