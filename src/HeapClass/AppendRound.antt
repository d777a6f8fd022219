-- ===== src/HeapClass/AppendRound.antt =====
-- A round of `get_shared_LClasses` of src/acdc.c that finds a list.
use acdc.Base.{ℕ, ◌<◌, true, List, ◌∷◌, ◌≡◌, sym, ap, subst, has, ◌∉◌, set, Bool-cases, inl, inr}
use acdc.Base.Run.{◌>>=◌, ◌>>◌, Returns, Returns-bind}
use acdc.Types.{Ptr, LClass, empty_class}
use acdc.LifetimeClass.Queue.{IsQueue}
use acdc.Mutator.{World, set_context}
use acdc.HeapClass.{slots, live_index, append_remote, set_shared}
use acdc.HeapClass.Slots.{live_index_bound}
use acdc.HeapClass.Fetching.{Appended, append_remote-Appended}
use acdc.HeapClass.FetchRound.{CanFetch, past_slots, round_world}

-- The state `v` is that after a round that appends a list.
pub record Rounded (w : World) (array : List LClass) (remote local : ℕ → List Ptr) (place : Ptr → ℕ)
    (can : CanFetch w array remote local place) (i : ℕ) (inside : i < w.mc.gopts.max_liveness)
    (v : World) : Type 0 where
  pub list : LClass
  pub world : World
  pub done : Appended w (local (live_index w.mc.gopts w.mc.time i)) (remote i) list world
  pub same : v ≡ round_world w array remote local place can i inside list world

-- The lists of slot `i` and those of its local slot are in different places.
apart_lists :
    (w : World) (array : List LClass) (remote local : ℕ → List Ptr) (place : Ptr → ℕ) (i j : ℕ)
    → CanFetch w array remote local place
    → i < w.mc.gopts.max_liveness
    → j < slots w.mc.gopts
    → (a : Ptr) → has a (local j) ≡ true
    → a ∉ remote i
apart_lists w array remote local place i j can h₁ h₂ a m = elim (Bool-cases (has a (remote i))) [
  | inr outside ↦ outside
  | inl there ↦ absurd (
      past_slots (place a) j (slots w.mc.gopts) i (can.local_place j a h₂ m) h₂
        (can.remote_place i a h₁ there))
]

-- A round that finds a list that is not empty.
pub append_round :
    (w : World) (array : List LClass) (remote local : ℕ → List Ptr) (place : Ptr → ℕ)
    (can : CanFetch w array remote local place) (i : ℕ) (inside : i < w.mc.gopts.max_liveness)
    (r l : LClass) (y : Ptr) (ys : List Ptr)
    → IsQueue w.heap r (remote i)
    → IsQueue w.heap l (local (live_index w.mc.gopts w.mc.time i))
    → remote i ≡ y ∷ ys
    → Returns
        (λ _ v. Rounded w array remote local place can i inside v)
        ((do
          l' ← append_remote l r
          set_context λ mc. record mc {
            heap_class = set mc.heap_class (live_index w.mc.gopts w.mc.time i) l';
          }
          set_shared w.mc.thread_id (set array i empty_class))
          w)
unfolding set_shared
append_round w array remote local place can i inside r l y ys q_r q_l e =
    let s = live_index w.mc.gopts w.mc.time i in
    let bound = live_index_bound w.mc.gopts w.mc.time i can.some_slot in
    let q : IsQueue w.heap r (y ∷ ys) = subst (IsQueue w.heap r) e q_r in
    let apart = apart_lists w array remote local place i s can inside bound in
    Returns-bind (λ _ v. Rounded w array remote local place can i inside v) (append_remote l r w) _
      (subst (λ rs. Returns (λ l' w₁. Appended w (local s) rs l' w₁) (append_remote l r w)) (sym e)
        (append_remote-Appended w l r (local s) y ys q_l q
          λ a m. subst (λ rs. a ∉ rs) e (apart a m)))
      λ l' w₁ done. record {
        list = l';
        world = w₁;
        done = done;
        same =
            ap
              (λ (v : World). record v {
                mc = record v.mc { heap_class = set v.mc.heap_class s l' };
                shared_heap_classes =
                    set v.shared_heap_classes w.mc.thread_id (set array i empty_class);
              })
              done.world;
      }
