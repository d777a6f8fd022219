-- ===== src/SpinBarrier/Invariant.antt =====
-- The generations of the barrier of src/barrier.c.
use native.Mathlib.Nat.{le_refl, div-eq_of_lt-le, mod-eq_of_lt}
use acdc.Base.{
  ◌∙◌, ℕ, ◌+◌, ◌*◌, ◌/◌, ◌^◌, ◌≤◌, ◌<◌, ◌≡◌, inl, inr, refl, arith, ap, sym, subst, ◌==◌,
  Bool-cases, dec_lt,
}
use acdc.Base.Families.{total, total-update, total_max, total-eq_zero}
use acdc.SpinBarrier.{
  spin_barrier_init, fetch_and_add, next_count, Pc, outside, spinning, System, arrive, leave, Step,
  enter, exit, start, Reach, initial, later,
}

-- What thread `i` may be doing in generation `k`: it has arrived for the generation and spins for the
-- next multiple of `n`, or it has not, and is outside or free to leave.
pub data InGeneration (n k : ℕ) (arrivals : ℕ) (pc : Pc) : Type 0 where
  arrived : arrivals ≡ k + 1 → pc ≡ spinning (k * n + n) → InGeneration n k arrivals pc
  free : arrivals ≡ k → pc ≡ outside → InGeneration n k arrivals pc
  released : arrivals ≡ k → 0 < k → pc ≡ spinning (k * n) → InGeneration n k arrivals pc

pub record Inv (n k : ℕ) (s : System) : Type 0 where
  pub max : s.barrier.max ≡ n
  pub sum : s.barrier.count ≡ total n s.arrivals
  pub low : k * n ≤ s.barrier.count
  pub high : s.barrier.count < k * n + n
  pub threads : (i : ℕ) → i < n → InGeneration n k (s.arrivals i) (s.pc i)

Inv-start : (n : ℕ) → 0 < n → Inv n 0 (start n)
unfolding spin_barrier_init
Inv-start n h = record {
  max = refl;
  sum = sym (total-eq_zero n (λ _. 0) (λ _. refl));
  low = omega arith;
  high = omega arith;
  threads = λ i _. free refl refl;
}

arrivals-le : (n k a : ℕ) (p : Pc) → InGeneration n k a p → (k ≤ a) × (a ≤ k + 1)
arrivals-le n k a p (arrived e f) = omega arith
arrivals-le n k a p (free e f) = omega arith
arrivals-le n k a p (released e r f) = omega arith

-- Leaving changes only where the thread is.
Inv-leave :
    (n k i next : ℕ) (s : System)
    → Inv n k s
    → i < n
    → s.pc i ≡ spinning next
    → next ≤ s.barrier.count
    → Inv n k (leave s i)
Inv-leave n k i next s inv lt at ready = record {
  max = inv.max;
  sum = inv.sum;
  low = inv.low;
  high = inv.high;
  threads = λ j p. elim (Bool-cases (j == i)) [
    | inl same ↦ rw same (leaving j (ground arith) p)
    | inr other ↦ rw other (inv.threads j p)
  ];
}
  where
    generation : InGeneration n k (s.arrivals i) (s.pc i) → InGeneration n k (s.arrivals i) outside
    generation (arrived e f) = absurd (ground (arith, inv.high))
    generation (free e f) = free e refl
    generation (released e r f) = free e refl

    leaving : (j : ℕ) → j ≡ i → j < n → InGeneration n k (s.arrivals j) outside
    leaving j e p = rw e (generation (inv.threads i lt))

-- The quotient of a count within a generation.
generation-div : (n k c : ℕ) → k * n ≤ c → c < k * n + n → c / n * n + n ≡ k * n + n
generation-div n k c lo hi = let q : c / n ≡ k = div-eq_of_lt-le n lo (grind arith) in rw q

-- Before the last arrival of a generation the generation goes on.
stay : (n k a b : ℕ) (p : Pc) → a ≡ b → InGeneration n k a p → InGeneration n k b p
stay n k a b p e g = subst (λ x. InGeneration n k x p) e g

-- When all have arrived, whoever has arrived is released.
release : (n k a : ℕ) (p : Pc) → a ≡ k + 1 → InGeneration n k a p → InGeneration n (k + 1) a p
release n k a p e (arrived q f) =
    let next : k * n + n ≡ (k + 1) * n = grind arith in
    released e (omega arith) (subst (λ x. p ≡ spinning x) next f)
release n k a p e (free q f) = absurd (omega arith)
release n k a p e (released q r f) = absurd (omega arith)

module _ (n k i : ℕ) (s : System) (inv : Inv n k s) (lt : i < n) (at : s.pc i ≡ outside)
    (room : s.barrier.count + 1 < 2 ^ 64) where
  not_yet : s.arrivals i ≡ k
  not_yet = go (s.pc i) at (inv.threads i lt)
    where
      go : (p : Pc) → p ≡ outside → InGeneration n k (s.arrivals i) p → s.arrivals i ≡ k
      go p e (arrived q f) = cc
      go p e (free q f) = q
      go p e (released q r f) = q

  counted : (arrive s i).barrier.count ≡ s.barrier.count + 1
  unfolding fetch_and_add
  counted = mod-eq_of_lt room

  kept_max : (arrive s i).barrier.max ≡ n
  unfolding fetch_and_add
  kept_max = inv.max

  new_sum : s.barrier.count + 1 ≡ total n (arrive s i).arrivals
  new_sum = omega (arith, total-update n s.arrivals i (s.arrivals i + 1) lt, inv.sum)

  next-eq : next_count s.barrier ≡ k * n + n
  unfolding next_count
  next-eq =
      subst (λ m. s.barrier.count / m * m + m ≡ k * n + n) (sym inv.max)
        (generation-div n k s.barrier.count inv.low inv.high)

  -- Every thread of the new state, in the old generation.
  threads' : (j : ℕ) → j < n → InGeneration n k ((arrive s i).arrivals j) ((arrive s i).pc j)
  threads' j p = elim (Bool-cases (j == i)) [
    | inl same ↦ rw same (arrived (ap (λ x. x + 1) not_yet) (ap spinning next-eq))
    | inr other ↦ rw other (inv.threads j p)
  ]

  all_arrived : s.barrier.count + 1 ≡ k * n + n → (j : ℕ) → j < n → (arrive s i).arrivals j ≡ k + 1
  all_arrived full j p =
      total_max n (k + 1) (arrive s i).arrivals (λ m q. (arrivals-le n k _ _ (threads' m q)).1)
        (let e : n * (k + 1) ≡ k * n + n = grind arith in omega (arith, new_sum)) j p

  -- The arrival keeps the generation, or completes it.
  Inv-arrive : (k' : ℕ) × Inv n k' (arrive s i)
  Inv-arrive = elim (dec_lt (s.barrier.count + 1) (k * n + n)) [
    | yes before ↦ (
      k,
      record {
        max = kept_max;
        sum = counted ∙ new_sum;
        low = rw counted (omega (arith, inv.low));
        high = rw counted before;
        threads = threads';
      },
    )
    | no last ↦
        let full : s.barrier.count + 1 ≡ k * n + n = omega (arith, inv.high) in
        let next : (k + 1) * n ≡ k * n + n = grind arith in
        (
          k + 1,
          record {
            max = kept_max;
            sum = counted ∙ new_sum;
            low = rw counted (omega arith);
            high = rw counted (omega arith);
            threads = λ j p. release n k _ _ (all_arrived full j p) (threads' j p);
          },
        )
  ]

Step-Inv :
    (n k : ℕ) {s t : System}
    → Step n s t
    → s.barrier.count + 1 < 2 ^ 64
    → Inv n k s
    → (k' : ℕ) × Inv n k' t
Step-Inv n k {s} (enter i lt at e) room inv =
    let (k', inv') = Inv-arrive n k i s inv lt at room in (k', subst (Inv n k') (sym e) inv')
Step-Inv n k {s} (exit i next lt at ready e) room inv =
    (k, subst (Inv n k) (sym e) (Inv-leave n k i next s inv lt at ready))

pub arrivals-Step : (n : ℕ) {s t : System} → Step n s t → total n s.arrivals ≤ total n t.arrivals
arrivals-Step n {s} (enter i lt at e) =
    rw e (omega (arith, total-update n s.arrivals i (s.arrivals i + 1) lt))
arrivals-Step n {s} (exit i next lt at ready e) = rw e (le_refl _)

-- Every state that the threads reach with fewer than 2 ^ 64 - 1 arrivals is in some generation.
pub Reach-Inv :
    (n : ℕ) {s : System} → 0 < n → Reach n s → total n s.arrivals + 1 < 2 ^ 64 → (k : ℕ) × Inv n k s
Reach-Inv n h initial few = (0, Inv-start n h)
Reach-Inv n h (later r st) few =
    let grow = arrivals-Step n st in
    let (k, inv) = Reach-Inv n h r (omega arith) in Step-Inv n k st (omega (arith, inv.sum)) inv
