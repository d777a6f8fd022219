-- ===== src/Examples/Sharing.antt =====
-- A class on its way to other threads.
use acdc.Base.{
  ℕ, zero, suc, ◌<◌, false, List, [], ◌∷◌, ◌==◌, ◌≡◌, refl, arith, some, get_elem?, get_elem?-set,
  get_elem?-set_other, set, replicate, if◌then◌else◌, Bool-cases, inl, inr, ◌∙◌, subst,
}
use acdc.Base.Run.{Returns}
use acdc.Types.{Ptr, LClass, empty_class}
use acdc.LifetimeClass.Queue.{IsQueue}
use acdc.Mutator.{World}
use acdc.Mutator.NodePool.{IsNodePool}
use acdc.HeapClass.{insert_index, share_ls_class, get_shared_LClasses}
use acdc.HeapClass.Receivers.{IsReceiver}
use acdc.HeapClass.ShareClass.{slot_of, Shared, share_ls_class-Shared}
use acdc.HeapClass.LastReceiver.{LastDeallocates, unreference_times-share_ls_class}
use acdc.HeapClass.FetchRound.{CanFetch}
use acdc.HeapClass.Received.{Received, get_shared_LClasses-Received}
use acdc.Examples.{chunk, sample_context, sample_world, three_nodes, three}

-- A class at 16384 with lifetime 5, and no nodes.
abbrev short_life : World
short_life = record sample_world { heap = λ _. chunk 3 16 5 }

short_life-IsNodePool : IsNodePool short_life [] (λ _. false)
short_life-IsNodePool = record {
  dll = record { first = refl; last = refl; linked = tt; distinct = tt; not_null = refl };
  free = λ a u. refl;
  cached = λ a i. absurd (ground arith);
  taken = λ a u. absurd (ground arith);
  mapped = omega arith;
}

get_elem?-replicate : {A : Type 0} (n i : ℕ) (v : A) → i < n → get_elem? (replicate n v) i ≡ some v
get_elem?-replicate zero i v h = absurd (omega arith)
get_elem?-replicate (suc n) zero v h = refl
get_elem?-replicate (suc n) (suc i) v h = get_elem?-replicate n i v (omega arith)

short_life-IsReceiver :
    (t : ℕ)
    → t < 4
    → IsReceiver short_life [] 16384 (slot_of short_life 16384) t (replicate 10 empty_class) []
unfolding insert_index
short_life-IsReceiver t h = record {
  target = empty_class;
  at_thread = get_elem?-replicate 4 t (replicate 10 empty_class) h;
  at_slot = refl;
  queue = record { first = refl; last = refl; chain = tt; distinct = tt; not_null = refl };
  outside = λ a i. absurd (ground arith);
  no_class = refl;
}

share_ls_class-Shared_example :
    Returns
      (λ _ w'. Shared short_life (λ _. false) [] 16384 (λ _. replicate 10 empty_class) (λ _. []) w')
      (share_ls_class 16384 short_life)
share_ls_class-Shared_example =
    share_ls_class-Shared short_life (λ _. false) [] 16384 (λ _. replicate 10 empty_class) (λ _. [])
      short_life-IsNodePool (omega arith) refl (refl, inr (omega arith)) (omega arith)
      short_life-IsReceiver (λ s t a h ne. refl) (omega arith) (omega arith) (omega arith)

-- All four threads receive the class, and the fourth to give it up deallocates it.
unreference_times-share_ls_class_example :
    Returns (λ _ w'. LastDeallocates 4 16384 w') (share_ls_class 16384 short_life)
unreference_times-share_ls_class_example =
    unreference_times-share_ls_class short_life (λ _. false) [] 16384
      (λ _. replicate 10 empty_class) (λ _. []) short_life-IsNodePool (omega arith) refl
      (refl, inr (omega arith)) (omega arith) short_life-IsReceiver (λ s t a h ne. refl)
      (omega arith) (omega arith) (omega arith) (omega arith) (omega arith)

-- Slot 3 of the shared heap class of thread 0 has three nodes, and slot 3 of its local one has one.
abbrev one : LClass
one = record { first = 256; last = 256 }

abbrev shared_slots : List LClass
shared_slots = set (replicate 10 empty_class) 3 three

abbrev fetching : World
fetching = record sample_world {
  heap = three_nodes;
  mc = record sample_context { heap_class = set (replicate 12 empty_class) 3 one };
  shared_heap_classes = set (replicate 4 (replicate 10 empty_class)) 0 shared_slots;
}

abbrev remote_lists : ℕ → List Ptr
remote_lists i = if i == 3 then 64 ∷ 128 ∷ 192 ∷ [] else []

abbrev local_lists : ℕ → List Ptr
local_lists j = if j == 3 then 256 ∷ [] else []

abbrev place_of : Ptr → ℕ
place_of a = if a == 256 then 3 else 15

slot_with :
    (n i : ℕ) (l : LClass) (xs : List Ptr)
    → 3 < n
    → i < n
    → IsQueue three_nodes l xs
    → (l' : LClass) × (get_elem? (set (replicate n empty_class) 3 l) i ≡ some l')
      × IsQueue three_nodes l' (if i == 3 then xs else [])
slot_with n i l xs wide h q = elim (Bool-cases (i == 3)) [
  | inl same ↦
      let e : 3 ≡ i = ground arith in
      (
        l,
        subst (λ k. get_elem? (set (replicate n empty_class) 3 l) k ≡ some l) e
            (get_elem?-set (replicate n empty_class) 3 l empty_class
              (get_elem?-replicate n 3 empty_class wide)),
        rw same q,
      )
  | inr apart ↦ (
    empty_class,
    get_elem?-set_other (replicate n empty_class) 3 i l apart
        ∙ get_elem?-replicate n i empty_class h,
    rw apart (record { first = refl; last = refl; chain = tt; distinct = tt; not_null = refl }),
  )
]

fetching-CanFetch : CanFetch fetching shared_slots remote_lists local_lists place_of
fetching-CanFetch = record {
  some_slot = omega arith;
  at_thread = refl;
  remotes = λ i h. slot_with 10 i three (64 ∷ 128 ∷ 192 ∷ []) (omega arith) h (record {
    first = refl;
    last = refl;
    chain = (refl, (refl, (refl, tt)));
    distinct = (refl, (refl, (refl, tt)));
    not_null = refl;
  });
  locals = λ j h. slot_with 12 j one (256 ∷ []) (omega arith) h (record {
    first = refl;
    last = refl;
    chain = (refl, tt);
    distinct = (refl, tt);
    not_null = refl;
  });
  remote_place = λ i a h m. ground arith;
  local_place = λ j a h m. ground arith;
}

get_shared_LClasses-Received_example :
    Returns (λ _ w'. Received fetching remote_lists local_lists w') (get_shared_LClasses fetching)
get_shared_LClasses-Received_example =
    get_shared_LClasses-Received fetching shared_slots remote_lists local_lists place_of
      fetching-CanFetch (omega arith)
