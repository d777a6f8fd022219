-- ===== src/HeapClass/LastReceiver.antt =====
-- A shared class at the end of its life: the receiving threads of `share_LSClass` of src/acdc.c and their
-- calls of `unreference_and_deallocate_LSClass`.
use acdc.Base.{
  ap, ℕ, zero, suc, ◌+◌, ◌-◌, ◌/◌, ◌^◌, ◌≤◌, ◌<◌, List, ◌∉◌, has, true, false, ◌==◌, ◌≡◌, ◌∙◌,
  arith, Bool,
}
use acdc.Base.Int.{IsInt32}
use acdc.Base.Run.{Returns, Returns-mono, ok}
use acdc.Types.{Ptr, null, LClass, reference_counter}
use acdc.Mutator.{World}
use acdc.Mutator.NodePool.{IsNodePool}
use acdc.Classes.{deallocate_ls_class}
use acdc.HeapClass.{slots, share_ls_class}
use acdc.HeapClass.Counting.{unreference_times, with_counter, unreference_times_lem}
use acdc.HeapClass.Receivers.{IsOutside, IsReceiver}
use acdc.HeapClass.ShareClass.{slot_of, share_ls_class-Shared}

-- One receiver is the last one: the others only count down.
abbrev pub LastDeallocates : ℕ → Ptr → World → Type 0
LastDeallocates receivers c w =
    (unreference_times (receivers - 1) c w ≡ ok tt (with_counter w c 1))
    × (unreference_times receivers c w ≡ deallocate_ls_class c (with_counter w c 0))

last_of :
    (n : ℕ) (c : Ptr) (w : World)
    → (c == null) ≡ false
    → 1 ≤ n
    → n < 2 ^ 64
    → reference_counter (w.heap c) ≡ n
    → LastDeallocates n c w
last_of zero c w nc some_receiver small count = absurd (omega arith)
last_of (suc n) c w nc some_receiver small count =
    let (down, gone) = unreference_times_lem w c n nc count small in
    let before : suc n - 1 ≡ n = omega arith in
    (ap (λ m. unreference_times m c w) before ∙ down, gone)

-- When every thread has a slot for the lifetime of the class, there is a node for each, and the ratio of
-- receiving threads is from 1 to 100 and selects a thread at least, `share_LSClass` succeeds, and of as
-- many calls of `unreference_and_deallocate_LSClass` as there are receiving threads, one after the other,
-- all but the last only count down, and the last deallocates the class.
pub unreference_times-share_ls_class :
    (w : World) (used : Ptr → Bool) (xs : List Ptr) (c : Ptr) (arrays : ℕ → List LClass)
    (lists : ℕ → List Ptr)
    → IsNodePool w xs used
    → w.mc.node_buffer_counter + w.mc.gopts.num_threads ≤ w.mc.gopts.node_buffer_size
    → (c == null) ≡ false
    → IsOutside w xs c
    → 0 < slots w.mc.gopts
    → ((t : ℕ)
        → t < w.mc.gopts.num_threads
        → IsReceiver w xs c (slot_of w c) t (arrays t) (lists t))
    → ((s t : ℕ) (a : Ptr) → has a (lists s) ≡ true → (s == t) ≡ false → a ∉ lists t)
    → IsInt32 w.mc.rand
    → 1 ≤ w.mc.gopts.receiving_threads_ratio
    → w.mc.gopts.receiving_threads_ratio ≤ 100
    → 1 ≤ w.mc.gopts.num_threads / (100 / w.mc.gopts.receiving_threads_ratio)
    → w.mc.gopts.num_threads / (100 / w.mc.gopts.receiving_threads_ratio) < 2 ^ 64
    → Returns
        (λ _ w'.
          LastDeallocates
            (w.mc.gopts.num_threads / (100 / w.mc.gopts.receiving_threads_ratio))
            c
            w')
        (share_ls_class c w)
unreference_times-share_ls_class w used xs c arrays lists pool room nc outside some_slot receivers
      apart int lo hi some_receiver small =
    Returns-mono _ (share_ls_class c w)
      (share_ls_class-Shared w used xs c arrays lists pool room nc outside some_slot receivers apart
        int lo hi)
      λ _ w' s. last_of _ c w' nc some_receiver small (s.counter ∙ s.number)
