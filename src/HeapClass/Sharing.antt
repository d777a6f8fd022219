-- ===== src/HeapClass/Sharing.antt =====
-- What `share_LSClass` of src/acdc.c does: the selected threads, and no others, receive the class.
use acdc.Base.{
  ℕ, ◌<◌, Bool, true, false, List, [], ◌∷◌, ◌++◌, ◌==◌, ◌≡◌, refl, ◌∙◌, ap, subst, arith, has,
  has-append, ◌∉◌, some, get_elem?, get_elem?-set, get_elem?-set_other, set, if◌then◌else◌,
  Bool-cases, inl, inr,
}
use acdc.Base.Run.{Returns, Returns-bind, Returns-mono}
use acdc.Types.{Ptr, LClass}
use acdc.Store.{update_ptr}
use acdc.LifetimeClass.Queue.{IsQueue, IsQueue-frame}
use acdc.Mutator.{World}
use acdc.HeapClass.{heap_class_insert, shared_of, set_shared, share_with}
use acdc.HeapClass.Insert.{Inserted, heap_class_insert-Inserted}
use acdc.HeapClass.Receivers.{
  IsReceiver, outside-AreTaken, CanShare, Delivered, next_world, not_new, still-IsOutside,
  unchanged, node-IsOutside, CanShare-rest,
}

module _ (w : World) (used : Ptr → Bool) (xs : List Ptr) (c : Ptr) (i : ℕ)
    (arrays : ℕ → List LClass) (lists : ℕ → List Ptr) (t : ℕ) (ts : List ℕ)
    (can : CanShare w used xs c i arrays lists (t ∷ ts)) (hc : List LClass) (w₁ : World)
    (ins : Inserted (arrays t) i xs (lists t) c used w hc w₁) (w₂ : World)
    (d : Delivered
      (next_world w used xs c i arrays lists t ts can hc w₁ ins)
      (update_ptr used ins.node true)
      ins.cache
      c
      i
      arrays
      lists
      ts
      w₂) where
  here : IsReceiver w xs c i t (arrays t) (lists t)
  here = can.receivers t (ground arith)

  apart_after : (s : ℕ) → has s ts ≡ true → (t == s) ≡ false
  apart_after s h = let out = can.distinct.0 in ground arith

  node_apart : (s : ℕ) → has s ts ≡ true → ins.node ∉ lists s
  node_apart s h = elim (Bool-cases (has ins.node (lists s))) [
    | inr outside ↦ outside
    | inl inside ↦
        let r = can.receivers s (ground arith) in
        let ne =
          not_new w used xs c i arrays lists t ts can hc w₁ ins ins.node
            (r.outside ins.node inside) in
        absurd (ground (arith, ne))
  ]

  kept : (a : Ptr) → has a (lists t ++ ins.node ∷ []) ≡ true → w₂.heap a ≡ w₁.heap a
  kept a h = elim (Bool-cases (has a (lists t))) [
    | inl old ↦
        d.others a
          (still-IsOutside w used xs c i arrays lists t ts can hc w₁ ins a (here.outside a old))
          λ s k. can.apart t s a old (apart_after s k)
    | inr new ↦
        let e : ins.node ≡ a = ground (arith, has-append a (lists t) (ins.node ∷ [])) in
        subst (λ b. w₂.heap b ≡ w₁.heap b) e
          (d.others ins.node (node-IsOutside w used xs c i arrays lists t ts can hc w₁ ins)
            node_apart)
  ]

  array_here : get_elem? w₂.shared_heap_classes t ≡ some (set (arrays t) i ins.target)
  array_here =
      d.other_threads t can.distinct.0
      ∙ get_elem?-set w₁.shared_heap_classes t hc (arrays t)
          (ap (λ l. get_elem? l t) ins.shared ∙ here.at_thread)
      ∙ ap some ins.array

  node_of : ℕ → Ptr
  node_of s = if s == t then ins.node else d.node s

  target_of : ℕ → LClass
  target_of s = if s == t then ins.target else d.target s

  split :
      (P : ℕ → Ptr → LClass → Type 0)
      → P t ins.node ins.target
      → ((s : ℕ) → has s ts ≡ true → P s (d.node s) (d.target s))
      → (s : ℕ) → has s (t ∷ ts) ≡ true
      → P s (node_of s) (target_of s)
  unfolding node_of target_of
  split P first rest s h = elim (Bool-cases (s == t)) [
    | inl same ↦
        let e : t ≡ s = ground arith in rw same (subst (λ r. P r ins.node ins.target) e first)
    | inr apart ↦ rw apart (rest s (ground arith))
  ]

  pub deliver_first : Delivered w used xs c i arrays lists (t ∷ ts) w₂
  deliver_first = record {
    node = node_of;
    target = target_of;
    at_thread =
        split (λ s n l. get_elem? w₂.shared_heap_classes s ≡ some (set (arrays s) i l)) array_here
          d.at_thread;
    queue =
        split (λ s n l. IsQueue w₂.heap l (lists s ++ n ∷ []))
          (IsQueue-frame w₁.heap w₂.heap ins.target (lists t ++ ins.node ∷ []) ins.list kept)
          d.queue;
    points =
        split (λ s n l. (w₂.heap n).ls_class ≡ c)
          (d.same_class ins.node (node-IsOutside w used xs c i arrays lists t ts can hc w₁ ins)
            ∙ ins.class)
          d.points;
    same_class = λ a o.
        d.same_class a (still-IsOutside w used xs c i arrays lists t ts can hc w₁ ins a o)
        ∙ ins.same_class a o.0 (not_new w used xs c i arrays lists t ts can hc w₁ ins a o);
    others = λ a o absent.
        d.others a (still-IsOutside w used xs c i arrays lists t ts can hc w₁ ins a o)
          (λ s h. absent s (ground arith))
        ∙ unchanged w used xs c i arrays lists t ts can hc w₁ ins a o (absent t (ground arith));
    other_threads = λ s out.
        d.other_threads s (ground arith)
        ∙ get_elem?-set_other w₁.shared_heap_classes t s hc (ground arith)
        ∙ ap (λ l. get_elem? l s) ins.shared;
    used' = d.used';
    cache = d.cache;
    pool = d.pool;
    still_used = λ a u. d.still_used a (ground arith);
    classes = record {
      cache = d.classes.cache ∙ ins.classes.cache;
      memory = d.classes.memory ∙ ins.classes.memory;
      counter = d.classes.counter ∙ ins.classes.counter;
    };
    local = d.local ∙ ins.local;
    store = d.store ∙ ins.store;
    gopts = d.gopts ∙ ins.gopts;
    time = d.time ∙ ins.time;
    stat = d.stat ∙ ins.stat;
  }

module _ (c : Ptr) (i : ℕ) (arrays : ℕ → List LClass) (lists : ℕ → List Ptr) where
  -- Each of the receiving threads finds the class at the end of the slot of its lifetime.
  pub share_with-Delivered :
      (w : World) (used : Ptr → Bool) (xs : List Ptr) (ts : List ℕ)
      → CanShare w used xs c i arrays lists ts
      → Returns (λ _ w'. Delivered w used xs c i arrays lists ts w') (share_with ts c w)
  unfolding share_with shared_of set_shared
  share_with-Delivered w used xs [] can = record {
    node = λ t. 0;
    target = λ t. record { first = 0; last = 0 };
    at_thread = λ t h. absurd (ground arith);
    queue = λ t h. absurd (ground arith);
    points = λ t h. absurd (ground arith);
    same_class = λ a o. refl;
    others = λ a o absent. refl;
    other_threads = λ t out. refl;
    used' = used;
    cache = xs;
    pool = can.pool;
    still_used = λ a u. u;
    classes = record { cache = refl; memory = refl; counter = refl };
    local = refl;
    store = refl;
    gopts = refl;
    time = refl;
    stat = refl;
  }
  share_with-Delivered w used xs (t ∷ ts) can =
      let r = can.receivers t (ground arith) in
      let room : w.mc.node_buffer_counter < w.mc.gopts.node_buffer_size = omega (arith, can.room) in
      rw r.at_thread (
        Returns-bind _ (heap_class_insert (arrays t) c w) _
          (subst
            (λ j.
              Returns (λ hc w₁. Inserted (arrays t) j xs (lists t) c used w hc w₁)
                (heap_class_insert (arrays t) c w))
            can.slot
            (heap_class_insert-Inserted w used xs (arrays t) c r.target (lists t) can.pool
              (λ _. room) can.some_class can.some_slot
              (ap (get_elem? (arrays t)) can.slot ∙ r.at_slot) r.queue
              (outside-AreTaken w xs (lists t) room r.outside)))
          λ hc w₁ ins.
            Returns-mono _
              (share_with ts c (next_world w used xs c i arrays lists t ts can hc w₁ ins))
              (share_with-Delivered (next_world w used xs c i arrays lists t ts can hc w₁ ins)
                (update_ptr used ins.node true) ins.cache ts
                (CanShare-rest w used xs c i arrays lists t ts can hc w₁ ins))
              λ _ w₂ d. deliver_first w used xs c i arrays lists t ts can hc w₁ ins w₂ d)
