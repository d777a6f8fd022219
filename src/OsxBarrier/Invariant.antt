-- ===== src/OsxBarrier/Invariant.antt =====
-- The generations of the barrier of src/osx-barrier.c.
use acdc.Base.{
  true, false, ◌∙◌, ℕ, ◌+◌, ◌*◌, ◌≤◌, ◌<◌, ◌≡◌, inl, inr, refl, arith, ap, sym, subst, ◌==◌,
  Bool-cases, dec_lt, leb,
}
use acdc.Base.Families.{update, total, total-update, total_max, total-eq_zero}
use acdc.OsxBarrier.{
  pthread_barrier_wait, Pc, outside, waiting, woken, System, wake, enter, set_pc, Step, entering,
  leaving, start, Reach, initial, later,
}

-- What a thread may be doing after `k` broadcasts: it waits, and has arrived once more, or not.
pub data InGeneration (k arrivals : ℕ) : Pc → Type 0 where
  arrived : arrivals ≡ k + 1 → InGeneration k arrivals waiting
  free : arrivals ≡ k → InGeneration k arrivals outside
  released : arrivals ≡ k → 0 < k → InGeneration k arrivals woken

pub record Inv (n k : ℕ) (s : System) : Type 0 where
  pub trip : s.barrier.trip_count ≡ n
  pub sum : total n s.arrivals ≡ k * n + s.barrier.count
  pub room : s.barrier.count < n
  pub threads : (i : ℕ) → i < n → InGeneration k (s.arrivals i) (s.pc i)

Inv-start : (n : ℕ) → 0 < n → Inv n 0 (start n)
Inv-start n h = record {
  trip = refl;
  sum = omega (arith, total-eq_zero n (λ _. 0) (λ _. refl));
  room = h;
  threads = λ i _. free refl;
}

pub arrivals-le : (k a : ℕ) (p : Pc) → InGeneration k a p → (k ≤ a) × (a ≤ k + 1)
arrivals-le k a waiting (arrived e) = omega arith
arrivals-le k a outside (free e) = omega arith
arrivals-le k a woken (released e r) = omega arith

leaves : (k a : ℕ) (p : Pc) → p ≡ woken → InGeneration k a p → InGeneration k a outside
leaves k a waiting e (arrived q) = absurd (ground arith)
leaves k a outside e (free q) = free q
leaves k a woken e (released q r) = free q

-- A thread that is outside has arrived for each broadcast and no more often.
pub not_yet : (k a : ℕ) (p : Pc) → p ≡ outside → InGeneration k a p → a ≡ k
not_yet k a waiting e (arrived q) = absurd (ground arith)
not_yet k a outside e (free q) = q
not_yet k a woken e (released q r) = q

-- A broadcast when all have arrived.
released_all : (k a : ℕ) (p : Pc) → a ≡ k + 1 → InGeneration k a p → InGeneration (k + 1) a (wake p)
unfolding wake
released_all k a waiting e (arrived q) = released e (omega arith)
released_all k a outside e (free q) = free e
released_all k a woken e (released q r) = released e (omega arith)

-- A broadcast does nothing to the thread that makes it.
stays : (k : ℕ) (p : Pc) (a : ℕ) → p ≡ outside → a ≡ k + 1 → InGeneration (k + 1) a (wake p)
unfolding wake
stays k outside a e q = free q
stays k waiting a e q = absurd (ground arith)
stays k woken a e q = absurd (ground arith)

abbrev pub waits : System → ℕ → System
waits s i = record {
  barrier = record s.barrier { count = s.barrier.count + 1 };
  pc = update s.pc i waiting;
  arrivals = update s.arrivals i (s.arrivals i + 1);
}

abbrev pub trips : System → ℕ → System
trips s i = record {
  barrier = record s.barrier { count = 0 };
  pc = λ j. wake (s.pc j);
  arrivals = update s.arrivals i (s.arrivals i + 1);
}

pub enter-waits :
    (s : System) (i : ℕ) → s.barrier.count + 1 < s.barrier.trip_count → enter s i ≡ waits s i
unfolding enter pthread_barrier_wait
enter-waits s i h =
    let test : leb s.barrier.trip_count (s.barrier.count + 1) ≡ false = ground arith in
    simp test refl

pub enter-trips :
    (s : System) (i : ℕ) → s.barrier.trip_count ≤ s.barrier.count + 1 → enter s i ≡ trips s i
unfolding enter pthread_barrier_wait
enter-trips s i h =
    let test : leb s.barrier.trip_count (s.barrier.count + 1) ≡ true = ground arith in
    simp test refl

module _ (n k i : ℕ) (s : System) (inv : Inv n k s) (lt : i < n) (at : s.pc i ≡ outside) where
  home : s.arrivals i ≡ k
  home = not_yet k (s.arrivals i) (s.pc i) at (inv.threads i lt)

  new_sum : total n (update s.arrivals i (s.arrivals i + 1)) ≡ k * n + (s.barrier.count + 1)
  new_sum = omega (arith, total-update n s.arrivals i (s.arrivals i + 1) lt, inv.sum)

  Inv-waits : s.barrier.count + 1 < n → Inv n k (waits s i)
  Inv-waits h = record {
    trip = inv.trip;
    sum = new_sum;
    room = h;
    threads = λ j p. elim (Bool-cases (j == i)) [
      | inl same ↦ rw same (arrived (ap (λ x. x + 1) home))
      | inr other ↦ rw other (inv.threads j p)
    ];
  }

  -- The last thread to arrive does not wait.
  bound : (j : ℕ) → j < n → update s.arrivals i (s.arrivals i + 1) j ≤ k + 1
  bound j p = elim (Bool-cases (j == i)) [
    | inl same ↦ rw same (omega (arith, home))
    | inr other ↦ rw other (omega (arith, arrivals-le k (s.arrivals j) (s.pc j) (inv.threads j p)))
  ]

  pub all_arrived :
      n ≤ s.barrier.count + 1 → (j : ℕ) → j < n → update s.arrivals i (s.arrivals i + 1) j ≡ k + 1
  all_arrived full =
      total_max n (k + 1) (update s.arrivals i (s.arrivals i + 1)) bound
        (let e : n * (k + 1) ≡ k * n + n = grind arith in omega (arith, new_sum, inv.room))

  others : n ≤ s.barrier.count + 1 → (j : ℕ) → j < n → (j == i) ≡ false → s.arrivals j ≡ k + 1
  others full j p other = simp other at (all_arrived full j p)

  Inv-trips : n ≤ s.barrier.count + 1 → Inv n (k + 1) (trips s i)
  Inv-trips full = record {
    trip = inv.trip;
    sum = let next : (k + 1) * n ≡ k * n + n = grind arith in omega (arith, new_sum, inv.room);
    room = omega arith;
    threads = λ j p. elim (Bool-cases (j == i)) [
      | inl same ↦
          let here : j ≡ i = ground arith in
          rw same (stays k (s.pc j) (s.arrivals i + 1) (ap s.pc here ∙ at) (ap (λ x. x + 1) home))
      | inr other ↦
          rw other
            (released_all k (s.arrivals j) (s.pc j) (others full j p other) (inv.threads j p))
    ];
  }

Inv-leaves :
    (n k i : ℕ) (s : System) → Inv n k s → i < n → s.pc i ≡ woken → Inv n k (set_pc s i outside)
Inv-leaves n k i s inv lt at = record {
  trip = inv.trip;
  sum = inv.sum;
  room = inv.room;
  threads = λ j p. elim (Bool-cases (j == i)) [
    | inl same ↦
        let here : j ≡ i = ground arith in
        rw same (leaves k (s.arrivals j) (s.pc j) (ap s.pc here ∙ at) (inv.threads j p))
    | inr other ↦ rw other (inv.threads j p)
  ];
}

Step-Inv : (n k : ℕ) {s t : System} → Step n s t → Inv n k s → (k' : ℕ) × Inv n k' t
Step-Inv n k {s} (entering i lt at e) inv = elim (dec_lt (s.barrier.count + 1) n) [
  | yes early ↦
      let same = e ∙ enter-waits s i (omega (arith, inv.trip)) in
      (k, subst (Inv n k) (sym same) (Inv-waits n k i s inv lt at early))
  | no last ↦
      let same = e ∙ enter-trips s i (omega (arith, inv.trip)) in
      (k + 1, subst (Inv n (k + 1)) (sym same) (Inv-trips n k i s inv lt at (omega arith)))
]
Step-Inv n k {s} (leaving i lt at e) inv =
    (k, subst (Inv n k) (sym e) (Inv-leaves n k i s inv lt at))

-- Every state that the threads reach, however often they call the barrier, is in some generation.
pub Reach-Inv : (n : ℕ) {s : System} → 0 < n → Reach n (Step n) s → (k : ℕ) × Inv n k s
Reach-Inv n h initial = (0, Inv-start n h)
Reach-Inv n h (later r st) = let (k, inv) = Reach-Inv n h r in Step-Inv n k st inv
