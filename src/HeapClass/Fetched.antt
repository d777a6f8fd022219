-- ===== src/HeapClass/Fetched.antt =====
-- `get_shared_LClasses` of src/acdc.c: after all rounds the local heap class of the thread has the lists
-- of the shared one at the ends of its own, and the shared one is empty.
use mathlib.Core.List.{append-nil}
use acdc.Base.{
  ℕ, zero, suc, ◌+◌, ◌≤◌, ◌<◌, true, false, List, [], ◌∷◌, ◌++◌, ◌==◌, ltb, ◌≡◌, refl, sym, ◌∙◌, ap,
  subst, arith, get_elem?, get_elem?-set_other, set, inl, inr, ◌⊎◌,
}
use acdc.Base.Run.{Returns, Returns-bind, Returns-mono}
use acdc.Types.{Ptr, null, Chunk, LClass, empty_class}
use acdc.LifetimeClass.Queue.{IsQueue}
use acdc.Mutator.{World}
use acdc.HeapClass.{
  live_index, class_at, fetch_classes, shared_of, set_shared, heap_class_get_LClass,
}
use acdc.HeapClass.Slots.{live_index_bound}
use acdc.HeapClass.Fetching.{OnlyNext, Appended}
use acdc.HeapClass.FetchLists.{put, put-same, left_remote, fetched}
use acdc.HeapClass.AppendRound.{Rounded, append_round}
use acdc.HeapClass.FetchRound.{CanFetch, round_world, new_place, CanFetch-after}

-- What the rounds leave: the lists are `remote` and `local`. Only the links of listed nodes and the two
-- heap classes have changed.
pub record Fetched (w : World) (remote local : ℕ → List Ptr) (w' : World) : Type 0 where
  pub array : List LClass
  pub place : Ptr → ℕ
  pub lists : CanFetch w' array remote local place
  pub context : w'.mc ≡ record w.mc { heap_class = w'.mc.heap_class }
  pub world :
      w' ≡ record w { mc = w'.mc; heap = w'.heap; shared_heap_classes = w'.shared_heap_classes }
  pub links : OnlyNext w.heap w'.heap
  pub other_threads :
      (t : ℕ)
      → (t == w.mc.thread_id) ≡ false
      → get_elem? w'.shared_heap_classes t ≡ get_elem? w.shared_heap_classes t

-- After a round that appends a list, what the later rounds leave is what all of them leave.
module _ (w : World) (array : List LClass) (remote local : ℕ → List Ptr) (place : Ptr → ℕ)
    (can : CanFetch w array remote local place) (i : ℕ) (inside : i < w.mc.gopts.max_liveness)
    (l' : LClass) (w₁ : World)
    (done : Appended w (local (live_index w.mc.gopts w.mc.time i)) (remote i) l' w₁)
    (all_remote all_local : ℕ → List Ptr) (w' : World) where
  after_round :
      Fetched (round_world w array remote local place can i inside l' w₁) all_remote all_local w'
      → Fetched w all_remote all_local w'
  after_round f = record {
    array = f.array;
    place = f.place;
    lists = f.lists;
    context = f.context;
    world = f.world;
    links =
        λ a. f.links a ∙ ap (λ (k : Chunk). record k { next = (w'.heap a).next }) (done.links a);
    other_threads = λ t ne.
        f.other_threads t ne
        ∙ get_elem?-set_other w.shared_heap_classes w.mc.thread_id t (set array i empty_class) ne;
  }

list_cases : (xs : List Ptr) → (xs ≡ []) ⊎ ((y : Ptr) × (ys : List Ptr) × (xs ≡ y ∷ ys))
list_cases [] = inl refl
list_cases (y ∷ ys) = inr (y, ys, refl)

pub fetch_classes-Fetched :
    (n i : ℕ) (w : World) (array : List LClass) (remote local : ℕ → List Ptr) (place : Ptr → ℕ)
    → CanFetch w array remote local place
    → i + n ≤ w.mc.gopts.max_liveness
    → Returns
        (λ _ w'.
          Fetched w
            (left_remote n i remote)
            (fetched (live_index w.mc.gopts w.mc.time) n i remote local)
            w')
        (fetch_classes n i w)
unfolding fetch_classes shared_of class_at heap_class_get_LClass set_shared
fetch_classes-Fetched zero i w array remote local place can h = record {
  array = array;
  place = place;
  lists = can;
  context = refl;
  world = refl;
  links = λ a. refl;
  other_threads = λ t ne. refl;
}
fetch_classes-Fetched (suc n) i w array remote local place can h =
    let inside : i < w.mc.gopts.max_liveness = omega arith in
    let s = live_index w.mc.gopts w.mc.time in
    let bound = live_index_bound w.mc.gopts w.mc.time i can.some_slot in
    let (r, at_r, q_r) = can.remotes i inside in
    let (l, at_l, q_l) = can.locals (s i) bound in
    let live : ltb i w.mc.gopts.max_liveness ≡ true = ground arith in
    rw (can.at_thread, at_r, live, at_l)
      (elim (list_cases (remote i)) [
        | inl e ↦
            let q : IsQueue w.heap r [] = subst (IsQueue w.heap r) e q_r in
            let empty : (r.first == null) ≡ true = ground (arith, q.first) in
            let no_remote : put remote i [] ≡ remote = λ x k. put-same remote i k [] e x in
            let no_more : put local (s i) (local (s i) ++ remote i) ≡ local = λ x k.
              put-same local (s i) k (local (s i) ++ remote i)
                (sym (ap (λ xs. local (s i) ++ xs) e ∙ append-nil (local (s i)))) x in
            rw empty (
              subst
                (λ (f : ℕ → List Ptr).
                  Returns
                    (λ _ w'.
                      Fetched w (left_remote n (i + 1) (put remote i []))
                        (fetched s n (i + 1) (put remote i []) f) w')
                    (fetch_classes n (i + 1) w))
                (sym no_more)
                (subst
                  (λ (f : ℕ → List Ptr).
                    Returns
                      (λ _ w'. Fetched w (left_remote n (i + 1) f) (fetched s n (i + 1) f local) w')
                      (fetch_classes n (i + 1) w))
                  (sym no_remote)
                  (fetch_classes-Fetched n (i + 1) w array remote local place can (omega arith))))
        | inr (y, ys, e) ↦
            let q : IsQueue w.heap r (y ∷ ys) = subst (IsQueue w.heap r) e q_r in
            let some_first : (r.first == null) ≡ false = ground (arith, q.first, q.not_null) in
            rw some_first (
              Returns-bind {P = λ _ v. Rounded w array remote local place can i inside v} _ _ _
                (append_round w array remote local place can i inside r l y ys q_r q_l e)
                λ _ v round.
                  let next =
                    round_world w array remote local place can i inside round.list round.world in
                  subst
                    (λ (u : World).
                      Returns
                        (λ _ w'.
                          Fetched w (left_remote (suc n) i remote)
                            (fetched s (suc n) i remote local) w')
                        (fetch_classes n (i + 1) u))
                    (sym round.same)
                    (Returns-mono _ (fetch_classes n (i + 1) next)
                      (fetch_classes-Fetched n (i + 1) next (set array i empty_class)
                        (put remote i []) (put local (s i) (local (s i) ++ remote i))
                        (new_place w array remote local place can i inside round.list round.world
                          round.done)
                        (CanFetch-after w array remote local place can i inside round.list
                          round.world round.done)
                        (omega arith))
                      λ _ w'.
                        after_round w array remote local place can i inside round.list round.world
                          round.done _ _ w'))
      ])
