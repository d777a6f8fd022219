-- ===== src/HeapClass/FetchRound.antt =====
-- A round of `get_shared_LClasses` of src/acdc.c, between the lists of two heap classes.
use acdc.Base.{
  ◌⊎◌, ℕ, ◌+◌, ◌<◌, Bool, true, false, List, [], ◌++◌, ◌==◌, ◌≡◌, refl, sym, ◌∙◌, subst, arith, has,
  ◌∉◌, some, get_elem?, get_elem?-set, get_elem?-set_other, set, if◌then◌else◌, Bool-cases, inl,
  inr, has-append,
}
use acdc.Types.{Ptr, LClass, empty_class}
use acdc.LifetimeClass.Queue.{IsQueue, IsQueue-frame}
use acdc.Mutator.{World}
use acdc.HeapClass.{slots, live_index}
use acdc.HeapClass.Slots.{live_index_bound}
use acdc.HeapClass.FetchLists.{put}
use acdc.HeapClass.Fetching.{Appended}

-- The thread's shared heap class holds the lists `remote`, and its local one the lists `local`. Every node
-- is in one place.
pub record CanFetch (w : World) (array : List LClass) (remote local : ℕ → List Ptr)
    (place : Ptr → ℕ) : Type 0 where
  pub some_slot : 0 < slots w.mc.gopts
  pub at_thread : get_elem? w.shared_heap_classes w.mc.thread_id ≡ some array
  pub remotes :
      (i : ℕ)
      → i < w.mc.gopts.max_liveness
      → (l : LClass) × (get_elem? array i ≡ some l) × IsQueue w.heap l (remote i)
  pub locals :
      (j : ℕ)
      → j < slots w.mc.gopts
      → (l : LClass) × (get_elem? w.mc.heap_class j ≡ some l) × IsQueue w.heap l (local j)
  pub remote_place :
      (i : ℕ) (a : Ptr)
      → i < w.mc.gopts.max_liveness
      → has a (remote i) ≡ true
      → place a ≡ slots w.mc.gopts + i
  pub local_place : (j : ℕ) (a : Ptr) → j < slots w.mc.gopts → has a (local j) ≡ true → place a ≡ j

beyond : (p s k n : ℕ) → p ≡ n + k → s < n → (p == s) ≡ false
beyond p s k n e h = ground arith

apart_place : (p j s : ℕ) → p ≡ j → (j == s) ≡ false → (p == s) ≡ false
apart_place p j s e ne = ground arith

two_places : (p n k i : ℕ) → p ≡ n + k → p ≡ n + i → (k == i) ≡ false → ⊥
two_places p n k i e₁ e₂ ne = ground arith

pub past_slots : (p j n i : ℕ) → p ≡ j → j < n → p ≡ n + i → ⊥
past_slots p j n i e₁ h e₂ = omega arith

in_first : (a : Ptr) (xs ys : List Ptr) → has a (xs ++ ys) ≡ true → a ∉ ys → has a xs ≡ true
in_first a xs ys h out = ground (arith, has-append a xs ys)

has-put :
    (f : ℕ → List Ptr) (i k : ℕ) (v : List Ptr) (a : Ptr)
    → has a (put f i v k) ≡ true
    → ((k ≡ i) × (has a v ≡ true)) ⊎ (((k == i) ≡ false) × (has a (f k) ≡ true))
has-put f i k v a = by_test (k == i) refl
  where
    by_test :
        (b : Bool)
        → (k == i) ≡ b
        → has a (if b then v else f k) ≡ true
        → ((k ≡ i) × (has a v ≡ true)) ⊎ (((k == i) ≡ false) × (has a (f k) ≡ true))
    by_test true same h = inl (ground arith, h)
    by_test false apart h = inr (apart, h)

-- The state after a round that appends the list of slot `i`.
module _ (w : World) (array : List LClass) (remote local : ℕ → List Ptr) (place : Ptr → ℕ)
    (can : CanFetch w array remote local place) (i : ℕ) (inside : i < w.mc.gopts.max_liveness)
    (l' : LClass) (w₁ : World) where
  abbrev pub slot : ℕ
  slot = live_index w.mc.gopts w.mc.time i

  abbrev pub round_world : World
  round_world = record w {
    heap = w₁.heap;
    mc = record w.mc { heap_class = set w.mc.heap_class slot l' };
    shared_heap_classes = set w.shared_heap_classes w.mc.thread_id (set array i empty_class);
  }

  module _ (done : Appended w (local slot) (remote i) l' w₁) where
    pub slot_bound : slot < slots w.mc.gopts
    slot_bound = live_index_bound w.mc.gopts w.mc.time i can.some_slot

    abbrev pub new_place : Ptr → ℕ
    new_place a = if has a (remote i) then slot else place a

    -- The nodes in another place are not in the local list.
    elsewhere : (a : Ptr) → (place a == slot) ≡ false → a ∉ local slot
    elsewhere a ne = elim (Bool-cases (has a (local slot))) [
      | inr outside ↦ outside
      | inl inside' ↦
          let here = can.local_place slot a slot_bound inside' in absurd (ground (arith, ne, here))
    ]

    remotes_after :
        (k : ℕ)
        → k < w.mc.gopts.max_liveness
        → (l : LClass) × (get_elem? (set array i empty_class) k ≡ some l)
          × IsQueue w₁.heap l (put remote i [] k)
    remotes_after k h = elim (Bool-cases (k == i)) [
      | inl same ↦
          let e : i ≡ k = ground arith in
          let (l, at, q) = can.remotes i inside in
          (
            empty_class,
            subst (λ m. get_elem? (set array i empty_class) m ≡ some empty_class) e
                (get_elem?-set array i empty_class l at),
            rw same
                (record { first = refl; last = refl; chain = tt; distinct = tt; not_null = refl }),
          )
      | inr apart ↦
          let (l, at, q) = can.remotes k h in
          (
            l,
            get_elem?-set_other array i k empty_class apart ∙ at,
            rw apart (
                IsQueue-frame w.heap w₁.heap l (remote k) q λ a m. done.others a (
                  elsewhere a (
                    beyond (place a) slot k (slots w.mc.gopts) (can.remote_place k a h m)
                      slot_bound))),
          )
    ]

    locals_after :
        (j : ℕ)
        → j < slots w.mc.gopts
        → (l : LClass) × (get_elem? (set w.mc.heap_class slot l') j ≡ some l)
          × IsQueue w₁.heap l (put local slot (local slot ++ remote i) j)
    locals_after j h = elim (Bool-cases (j == slot)) [
      | inl same ↦
          let e : slot ≡ j = ground arith in
          let (l, at, q) = can.locals slot slot_bound in
          (
            l',
            subst (λ m. get_elem? (set w.mc.heap_class slot l') m ≡ some l') e
                (get_elem?-set w.mc.heap_class slot l' l at),
            rw same done.queue,
          )
      | inr apart ↦
          let (l, at, q) = can.locals j h in
          (
            l,
            get_elem?-set_other w.mc.heap_class slot j l' apart ∙ at,
            rw apart (
                IsQueue-frame w.heap w₁.heap l (local j) q λ a m.
                  done.others a
                    (elsewhere a (apart_place (place a) j slot (can.local_place j a h m) apart))),
          )
    ]

    remote_places :
        (k : ℕ) (a : Ptr)
        → k < w.mc.gopts.max_liveness
        → has a (put remote i [] k) ≡ true
        → new_place a ≡ slots w.mc.gopts + k
    remote_places k a h m = elim (has-put remote i k [] a m) [
      | inl (e, none_there) ↦ absurd (ground (arith, none_there))
      | inr (apart, old) ↦
          let p = can.remote_place k a h old in
          elim (Bool-cases (has a (remote i))) [
            | inl there ↦ absurd (
                two_places (place a) (slots w.mc.gopts) k i p (can.remote_place i a inside there)
                  apart)
            | inr absent ↦ rw absent p
          ]
    ]

    local_places :
        (j : ℕ) (a : Ptr)
        → j < slots w.mc.gopts
        → has a (put local slot (local slot ++ remote i) j) ≡ true
        → new_place a ≡ j
    local_places j a h m = elim (has-put local slot j (local slot ++ remote i) a m) [
      | inl (e, joined) ↦ elim (Bool-cases (has a (remote i))) [
        | inl there ↦ rw there (sym e)
        | inr absent ↦
            let old : has a (local slot) ≡ true =
              in_first a (local slot) (remote i) joined absent in
            rw absent (can.local_place slot a slot_bound old ∙ sym e)
      ]
      | inr (apart, old) ↦
          let p = can.local_place j a h old in
          elim (Bool-cases (has a (remote i))) [
            | inl there ↦ absurd (
                past_slots (place a) j (slots w.mc.gopts) i p h (can.remote_place i a inside there))
            | inr absent ↦ rw absent p
          ]
    ]

    pub CanFetch-after :
        CanFetch round_world
          (set array i empty_class)
          (put remote i [])
          (put local slot (local slot ++ remote i))
          new_place
    CanFetch-after = record {
      some_slot = can.some_slot;
      at_thread =
          get_elem?-set w.shared_heap_classes w.mc.thread_id (set array i empty_class) array
            can.at_thread;
      remotes = remotes_after;
      locals = locals_after;
      remote_place = remote_places;
      local_place = local_places;
    }
