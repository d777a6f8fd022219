-- ===== src/HeapClass/Remove.antt =====
-- The expiry of a lifetime-class whose classes are still shared with other threads:
-- `heap_class_remove` of src/acdc.c.
use acdc.Base.{
  ℕ, suc, zero, ◌<◌, Bool, true, false, List, [], ◌∷◌, ◌==◌, ◌≡◌, refl, ◌∙◌, ap, arith, has,
  Distinct, some, get_elem?, set, length,
}
use acdc.Base.Int.{pos_part}
use acdc.Base.Run.{Returns, Returns-bind, Returns-mono}
use acdc.Types.{Ptr, null, Chunk, LClass, empty_class, reference_counter}
use acdc.Store.{update_ptr}
use acdc.LifetimeClass.Linked.{write-outside, write-here, head_or}
use acdc.LifetimeClass.Stores.{load-ok}
use acdc.Mutator.{World, recycle_lsc_node}
use acdc.Mutator.NodePool.{IsNodePool, recycle_lsc_node-IsPool}
use acdc.HeapClass.{slots, delete_index, class_at, node_fuel, expire_nodes, heap_class_remove}
use acdc.HeapClass.Counting.{with_counter, unreference-shared}
use acdc.HeapClass.Expiry.{
  Listed, Listed-frame, IsShared, Expired, IsPool-class, differ_by, differ_from, flip, out_of,
  still, Round, IsShared-round, Expired-cons,
}

expire_nodes-Expired :
    (f : ℕ) (w : World) (used : Ptr → Bool) (xs ns cs : List Ptr)
    → IsNodePool w xs used
    → Listed w.heap ns cs
    → Distinct ns
    → Distinct cs
    → ((a : Ptr) → has a ns ≡ true → used a ≡ true)
    → ((c : Ptr) → has c cs ≡ true → IsShared w.heap used xs c)
    → length ns < f
    → Returns (λ _ w'. Expired used xs ns cs w w') (expire_nodes f (head_or null ns) w)
unfolding expire_nodes
expire_nodes-Expired zero w used xs ns cs pool l dn dc un sh lt = absurd (omega arith)
expire_nodes-Expired (suc f) w used xs [] [] pool l dn dc un sh lt = record {
  cache = xs;
  pool = pool;
  back = λ a. refl;
  counters = λ c i. absurd (ground arith);
  others = λ a _ _ _. refl;
  store = refl;
  gopts = refl;
  stat = refl;
  time = refl;
}
expire_nodes-Expired (suc f) w used xs [] (c ∷ cs) pool l dn dc un sh lt = absurd l
expire_nodes-Expired (suc f) w used xs (n ∷ ns) [] pool l dn dc un sh lt = absurd l
expire_nodes-Expired (suc f) w used xs (n ∷ ns) (c ∷ cs) pool (next, class, l) dn dc un sh lt =
    let un_n = un n (ground arith) in
    let s = sh c (ground arith) in
    let (k, count, small) = s.references in
    let nn : (n == null) ≡ false = ground (arith, pool.taken n un_n, pool.mapped) in
    let x : Chunk = record (w.heap c) { prev = suc k } in
    let w₁ = with_counter w c (suc k) in
    let nc = differ_by used n c un_n s.no_node in
    let kept : w₁.heap n ≡ w.heap n = write-outside w.heap c x n nc in
    let pool₁ : IsNodePool w₁ xs used =
      IsPool-class w.heap w.mc.node_cache w.mc.node_buffer_memory w.mc.node_buffer_counter xs used c
        x s.not_cached pool in
    let next₁ : (w₁.heap n).next ≡ head_or null ns = ap (λ (y : Chunk). y.next) kept ∙ next in
    rw
      (
        nn,
        load-ok n w.heap nn,
        class,
        unreference-shared w c k s.not_null count small,
        load-ok n w₁.heap nn,
        next₁,
      )
      (Returns-bind _ (recycle_lsc_node n w₁) _ (recycle_lsc_node-IsPool w₁ used xs n pool₁ un_n)
        λ _ w₂ (pool₂, rest, classes₂).
          let here : w₂.heap c ≡ x =
            rest.others c s.not_cached (flip n c nc) ∙ write-here w.heap c x in
          let round : Round used xs n c w w₂ = record {
            node = un_n;
            class = s;
            counted = omega (arith, ap reference_counter here, count);
            others = λ a out an ac. rest.others a out an ∙ write-outside w.heap c x a ac;
            store = rest.store;
            gopts = rest.gopts;
            stat = rest.stat;
            time = rest.time;
          } in
          let later : (a : Ptr) → has a ns ≡ true → used a ≡ true = λ a i. un a (ground arith) in
          let away : (a : Ptr) → has a ns ≡ true → (a == n) ≡ false =
            λ a i. (differ_from a n ns dn.0 i).0 in
          Returns-mono _ (expire_nodes f (head_or null ns) w₂)
            (expire_nodes-Expired f w₂ (update_ptr used n false) (n ∷ xs) ns cs pool₂
              (Listed-frame w.heap w₂.heap ns cs l (λ a i.
                round.others a (pool.free a (later a i)) (away a i)
                  (differ_by used a c (later a i) s.no_node)))
              dn.1 dc.1 (λ a i. still used n a true (away a i) (later a i))
              (λ d i.
                IsShared-round used xs n c w w₂ round d (differ_from d c cs dc.0 i).0
                  (sh d (ground arith)))
              (omega arith))
            λ _ w₃ e.
              Expired-cons used xs n c w w₂ round ns cs w₃ e (out_of used c ns s.no_node later) dc.0
                sh)

-- When every class of the expired lifetime-class is still shared with another thread,
-- `heap_class_remove` ends: it empties the slot of the delayed clock, gives the nodes back to the pool,
-- which stays well-formed and caches exactly them and what it cached before, takes one reference from
-- each of the classes, and deallocates none. The loop's fuel is enough: the nodes are fewer than it.
pub heap_class_remove-Expired :
    (w : World) (used : Ptr → Bool) (xs ns cs : List Ptr) (hc : List LClass) (expired : LClass)
    → IsNodePool w xs used
    → 0 < slots w.mc.gopts
    → get_elem? hc (pos_part (delete_index w.mc.gopts w.mc.time)) ≡ some expired
    → expired.first ≡ head_or null ns
    → Listed w.heap ns cs
    → Distinct ns
    → Distinct cs
    → ((a : Ptr) → has a ns ≡ true → used a ≡ true)
    → ((c : Ptr) → has c cs ≡ true → IsShared w.heap used xs c)
    → length ns < node_fuel w.mc.gopts
    → Returns
        (λ hc' w'.
          (hc' ≡ set hc (pos_part (delete_index w.mc.gopts w.mc.time)) empty_class)
          × Expired used xs ns cs w w')
        (heap_class_remove hc w)
unfolding heap_class_remove class_at
heap_class_remove-Expired w used xs ns cs hc expired pool some_slot at start l dn dc un sh lt =
    let slots_left : (slots w.mc.gopts == 0) ≡ false = ground arith in
    rw (slots_left, at, start)
      (Returns-bind _ (expire_nodes (node_fuel w.mc.gopts) (head_or null ns) w) _
        (expire_nodes-Expired (node_fuel w.mc.gopts) w used xs ns cs pool l dn dc un sh lt)
        λ _ w' e. (refl, e))
