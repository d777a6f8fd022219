-- ===== src/HeapClass/ShareClass.antt =====
-- `share_LSClass` of src/acdc.c: the selection of the receiving threads, and the counter of references.
use acdc.Base.{
  ℕ, ◌+◌, ◌/◌, ◌≤◌, ◌<◌, Bool, true, false, List, ◌==◌, ◌≡◌, sym, ◌∙◌, ap, subst, arith, has,
  has-take, ◌∉◌, Distinct, Distinct-take, Distinct-indices, index_of, length, length-take, take,
}
use acdc.Base.Int.{ℤ, IsInt32}
use acdc.Base.Run.{Returns, Returns-mono}
use acdc.Types.{Ptr, null, write, LClass, lifetime, reference_counter, MContext}
use acdc.LifetimeClass.Linked.{write-outside, write-here}
use acdc.LifetimeClass.Queue.{IsQueue-frame}
use acdc.Distribution.{get_random_thread_selection}
use acdc.Distribution.Selection.{IsArrangement, get_random_thread_selection-IsArrangement}
use acdc.Mutator.{World}
use acdc.Mutator.Pools.{IsPool-frame, Returns-in_context}
use acdc.Mutator.NodePool.{IsNodePool}
use acdc.HeapClass.{slots, insert_index, share_with, share_ls_class}
use acdc.HeapClass.Receivers.{IsOutside, IsReceiver, CanShare, Delivered}
use acdc.HeapClass.Sharing.{share_with-Delivered}

-- The slot of a class in the heap class of every thread.
abbrev pub slot_of : World → Ptr → ℕ
slot_of w c = insert_index w.mc.gopts w.mc.time (lifetime (w.heap c))

-- The state after the selection: the counter of the class is that of the receiving threads.
abbrev pub announced : World → ℤ → List ℕ → ℕ → Ptr → World
announced w rand ids count c = record w {
  mc = record w.mc { rand = rand; thread_id_buffer = ids };
  heap = write w.heap c (record (w.heap c) { prev = count });
}

-- As many different threads as the ratio says have received the class, and its counter is their number.
pub record Shared (w : World) (used : Ptr → Bool) (xs : List Ptr) (c : Ptr)
    (arrays : ℕ → List LClass) (lists : ℕ → List Ptr) (w' : World) : Type 0 where
  pub rand : ℤ
  pub ids : List ℕ
  pub threads : List ℕ
  pub number : length threads ≡ w.mc.gopts.num_threads / (100 / w.mc.gopts.receiving_threads_ratio)
  pub different : Distinct threads
  pub below : (t : ℕ) → has t threads ≡ true → t < w.mc.gopts.num_threads
  pub counter : reference_counter (w'.heap c) ≡ length threads
  pub delivered :
      Delivered
        (announced w rand ids (length threads) c)
        used
        xs
        c
        (slot_of w c)
        arrays
        lists
        threads
        w'

below_all : (n k t : ℕ) (ids : List ℕ) → IsArrangement n ids → has t (take k ids) ≡ true → t < n
below_all n k t ids arr h =
    let (j, lt, e) = index_of t ids (has-take t k ids h) in
    let b = arr.below j (omega (arith, arr.size)) in omega (arith, b, e)

different_ids : (n : ℕ) (ids : List ℕ) → IsArrangement n ids → Distinct ids
different_ids n ids arr =
    Distinct-indices ids
      λ i j p q e. arr.distinct i j (omega (arith, arr.size)) (omega (arith, arr.size)) e

module _ (w : World) (used : Ptr → Bool) (xs : List Ptr) (c : Ptr) (arrays : ℕ → List LClass)
    (lists : ℕ → List Ptr) (pool : IsNodePool w xs used)
    (room : w.mc.node_buffer_counter + w.mc.gopts.num_threads ≤ w.mc.gopts.node_buffer_size)
    (some_class : (c == null) ≡ false) (outside : IsOutside w xs c)
    (some_slot : 0 < slots w.mc.gopts)
    (receivers : (t : ℕ)
      → t < w.mc.gopts.num_threads
      → IsReceiver w xs c (slot_of w c) t (arrays t) (lists t))
    (apart : (s t : ℕ) (a : Ptr) → has a (lists s) ≡ true → (s == t) ≡ false → a ∉ lists t) where
  can_share :
      (rand : ℤ) (ids : List ℕ) (count k : ℕ)
      → IsArrangement w.mc.gopts.num_threads ids
      → k ≤ w.mc.gopts.num_threads
      → CanShare (announced w rand ids count c) used xs c (slot_of w c) arrays lists (take k ids)
  can_share rand ids count k arr few = record {
    pool =
        IsPool-frame w.heap (write w.heap c (record (w.heap c) { prev = count })) w.mc.node_cache
          w.mc.node_buffer_memory w.mc.node_buffer_counter xs used pool
          λ a h. let out = outside.0 in write-outside w.heap c _ a (ground arith);
    room = omega (arith, room, length-take k ids (omega (arith, arr.size)));
    some_class = some_class;
    class = outside;
    some_slot = some_slot;
    slot =
        ap (λ h. insert_index w.mc.gopts w.mc.time (lifetime h))
          (write-here w.heap c (record (w.heap c) { prev = count }));
    distinct = Distinct-take k ids (different_ids w.mc.gopts.num_threads ids arr);
    receivers = λ t h.
        let r = receivers t (below_all w.mc.gopts.num_threads k t ids arr h) in
        record {
          target = r.target;
          at_thread = r.at_thread;
          at_slot = r.at_slot;
          queue =
              IsQueue-frame w.heap (write w.heap c (record (w.heap c) { prev = count })) r.target
                (lists t) r.queue
                λ a j. let out = r.no_class in write-outside w.heap c _ a (ground arith);
          outside = r.outside;
          no_class = r.no_class;
        };
    apart = apart;
  }

  -- When every thread has a slot for the lifetime of the class and the ratio of receiving threads is from 1
  -- to 100, `share_LSClass` succeeds with a node for each thread: the number of threads that the ratio says
  -- find the class at the end of their slot, its reference counter is this number, and no other slot, node
  -- or class changes but the cached nodes and the lists of these slots.
  pub share_ls_class-Shared :
      IsInt32 w.mc.rand
      → 1 ≤ w.mc.gopts.receiving_threads_ratio
      → w.mc.gopts.receiving_threads_ratio ≤ 100
      → Returns (λ _ w'. Shared w used xs c arrays lists w') (share_ls_class c w)
  unfolding share_ls_class acdc.Mutator.set_chunk
  share_ls_class-Shared int lo hi =
      let n = w.mc.gopts.num_threads in
      Returns-in_context _ w (get_random_thread_selection w.mc) _
        (get_random_thread_selection-IsArrangement w.mc int lo hi)
        λ (ids, k) mc (arr, e, few, same).
          let count = length-take k ids (omega (arith, arr.size)) in
          let drawn : Returns (λ _ w'. Shared w used xs c arrays lists w')
              (share_with (take k ids) c (announced w mc.rand ids k c)) =
            Returns-mono _ (share_with (take k ids) c (announced w mc.rand ids k c))
              (share_with-Delivered c (slot_of w c) arrays lists (announced w mc.rand ids k c) used
                xs (take k ids) (can_share mc.rand ids k k arr few))
              λ _ w' d. record {
                rand = mc.rand;
                ids = ids;
                threads = take k ids;
                number = count ∙ e;
                different = Distinct-take k ids (different_ids n ids arr);
                below = λ t h. below_all n k t ids arr h;
                counter =
                    ap reference_counter (
                      d.others c outside (λ t h. (receivers t (below_all n k t ids arr h)).no_class)
                      ∙ write-here w.heap c (record (w.heap c) { prev = k }))
                    ∙ sym count;
                delivered =
                    subst
                      (λ m.
                        Delivered (announced w mc.rand ids m c) used xs c (slot_of w c) arrays lists
                          (take k ids) w')
                      (sym count) d;
              } in
          rw some_class (
            subst
              (λ (m : MContext).
                Returns (λ _ w'. Shared w used xs c arrays lists w')
                  (share_with (take k ids) c (record w {
                    mc = record m { thread_id_buffer = ids };
                    heap = write w.heap c (record (w.heap c) { prev = k });
                  })))
              (sym same) drawn)
