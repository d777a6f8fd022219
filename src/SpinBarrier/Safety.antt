-- ===== src/SpinBarrier/Safety.antt =====
-- What the barrier of src/barrier.c promises: nobody leaves before all have arrived, and not all wait
-- for ever.
use acdc.Base.{◌∙◌, ℕ, ◌+◌, ◌*◌, ◌^◌, ◌≤◌, ◌<◌, ◌≡◌, ◌⊎◌, inl, inr, arith, sym}
use acdc.Base.Families.{total, total_find}
use acdc.SpinBarrier.{Pc, outside, spinning, System, Reach}
use acdc.SpinBarrier.Invariant.{InGeneration, arrived, free, released, Reach-Inv}

spinning-injective : (a b : ℕ) → spinning a ≡ spinning b → a ≡ b
spinning-injective a b e = cc

arrivals-ge : (n k a : ℕ) (p : Pc) → InGeneration n k a p → k ≤ a
arrivals-ge n k a p (arrived e f) = omega arith
arrivals-ge n k a p (free e f) = omega arith
arrivals-ge n k a p (released e r f) = omega arith

-- Who may leave has arrived once for each completed generation, and no more often.
may_leave :
    (n k a c next : ℕ) (p : Pc)
    → c < k * n + n
    → next ≤ c
    → p ≡ spinning next
    → InGeneration n k a p
    → a ≡ k
may_leave n k a c next p hi ready at (arrived e f) =
    absurd (omega (arith, spinning-injective next (k * n + n) (sym at ∙ f)))
may_leave n k a c next p hi ready at (free e f) = e
may_leave n k a c next p hi ready at (released e r f) = e

-- In every reachable state a thread may leave its call of `spin_barrier_wait` only if every other
-- thread has called it at least as often.
pub leave_after_all :
    (n : ℕ) (s : System)
    → 0 < n
    → Reach n s
    → total n s.arrivals + 1 < 2 ^ 64
    → (i next : ℕ) → i < n
    → s.pc i ≡ spinning next
    → next ≤ s.barrier.count
    → (j : ℕ) → j < n
    → s.arrivals i ≤ s.arrivals j
leave_after_all n s h r few i next lt at ready j p =
    let (k, inv) = Reach-Inv n h r few in
    let same =
      may_leave n k (s.arrivals i) s.barrier.count next (s.pc i) inv.high ready at
        (inv.threads i lt) in
    rw same (arrivals-ge n k (s.arrivals j) (s.pc j) (inv.threads j p))

-- What a thread that has not arrived is doing.
idle_or_ready :
    (n k a c : ℕ) (p : Pc)
    → a < k + 1
    → k * n ≤ c
    → InGeneration n k a p
    → (p ≡ outside) ⊎ ((next : ℕ) × (p ≡ spinning next) × (next ≤ c))
idle_or_ready n k a c p small low (arrived e f) = absurd (omega arith)
idle_or_ready n k a c p small low (free e f) = inl f
idle_or_ready n k a c p small low (released e r f) = inr (k * n, f, low)

-- In every reachable state some thread is outside of the barrier or may leave it: the threads never
-- all wait for each other.
pub some_thread_moves :
    (n : ℕ) (s : System)
    → 0 < n
    → Reach n s
    → total n s.arrivals + 1 < 2 ^ 64
    → (i : ℕ) × (i < n)
      × ((s.pc i ≡ outside) ⊎ ((next : ℕ) × (s.pc i ≡ spinning next) × (next ≤ s.barrier.count)))
some_thread_moves n s h r few =
    let (k, inv) = Reach-Inv n h r few in
    let shape : n * (k + 1) ≡ k * n + n = grind arith in
    let (i, lt, small) = total_find n (k + 1) s.arrivals (omega (arith, inv.sum, inv.high)) in
    (
      i,
      lt,
      idle_or_ready n k (s.arrivals i) s.barrier.count (s.pc i) small inv.low (inv.threads i lt),
    )
