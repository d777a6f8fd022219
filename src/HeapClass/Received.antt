-- ===== src/HeapClass/Received.antt =====
-- What `get_shared_LClasses` of src/acdc.c does as a whole.
use acdc.Base.{ℕ, ◌+◌, ◌^◌, ◌<◌, false, List, [], ◌++◌, ◌==◌, ◌≡◌, arith, Bool-cases, inl, inr}
use acdc.Base.Run.{Returns, Returns-mono}
use acdc.Types.{Ptr, LClass}
use acdc.Mutator.{World}
use acdc.HeapClass.{fetch_classes, live_index, get_shared_LClasses}
use acdc.HeapClass.Slots.{live_index-distinct}
use acdc.HeapClass.FetchLists.{
  left_remote, left_remote-empty, fetched, fetched-kept, fetched-appended,
}
use acdc.HeapClass.FetchRound.{CanFetch}
use acdc.HeapClass.Fetched.{Fetched, fetch_classes-Fetched}

-- The shared slots are empty, and each of their lists has come to the end of that of a live slot of the
-- local heap class.
pub record Received (w : World) (remote local : ℕ → List Ptr) (w' : World) : Type 0 where
  pub remote' : ℕ → List Ptr
  pub local' : ℕ → List Ptr
  pub fetched : Fetched w remote' local' w'
  pub emptied : (i : ℕ) → i < w.mc.gopts.max_liveness → remote' i ≡ []
  pub appended :
      (i : ℕ)
      → i < w.mc.gopts.max_liveness
      → local' (live_index w.mc.gopts w.mc.time i)
        ≡ local (live_index w.mc.gopts w.mc.time i) ++ remote i
  pub other_slots :
      (j : ℕ)
      → ((i : ℕ) → i < w.mc.gopts.max_liveness → (j == live_index w.mc.gopts w.mc.time i) ≡ false)
      → local' j ≡ local j

apart_slots :
    (w : World)
    → w.mc.time + w.mc.gopts.max_liveness < 2 ^ 32
    → (i m : ℕ) → i < w.mc.gopts.max_liveness
    → m < w.mc.gopts.max_liveness
    → (i == m) ≡ false
    → (live_index w.mc.gopts w.mc.time i == live_index w.mc.gopts w.mc.time m) ≡ false
apart_slots w fits i m h₁ h₂ ne =
    elim (Bool-cases (live_index w.mc.gopts w.mc.time i == live_index w.mc.gopts w.mc.time m)) [
      | inr apart ↦ apart
      | inl same ↦
          let one : i ≡ m =
            live_index-distinct w.mc.gopts w.mc.time i m fits h₁ h₂ (ground arith) in
          absurd (ground (arith, one, ne))
    ]

-- When the slots of both heap classes of the thread hold lists without common nodes and the clock does
-- not overflow, `get_shared_LClasses` succeeds: it appends the list of each shared slot to that of the
-- live slot with the same index, counted from the time, empties the shared slots, and changes nothing
-- else but links to next nodes.
pub get_shared_LClasses-Received :
    (w : World) (array : List LClass) (remote local : ℕ → List Ptr) (place : Ptr → ℕ)
    → CanFetch w array remote local place
    → w.mc.time + w.mc.gopts.max_liveness < 2 ^ 32
    → Returns (λ _ w'. Received w remote local w') (get_shared_LClasses w)
unfolding get_shared_LClasses
get_shared_LClasses-Received w array remote local place can fits =
    let n = w.mc.gopts.max_liveness in
    let s = live_index w.mc.gopts w.mc.time in
    Returns-mono (λ _ w'. Received w remote local w') (fetch_classes n 0 w)
      (fetch_classes-Fetched n 0 w array remote local place can (omega arith))
      λ _ w' f. record {
        remote' = left_remote n 0 remote;
        local' = fetched s n 0 remote local;
        fetched = f;
        emptied = λ i h. left_remote-empty n 0 remote i (omega arith) (omega arith);
        appended = λ i h.
            fetched-appended s n 0 remote local i (omega arith) (omega arith)
              λ m low high ne. apart_slots w fits i m h (omega arith) ne;
        other_slots =
            λ j apart. fetched-kept s n 0 remote local j λ k low high. apart k (omega arith);
      }
