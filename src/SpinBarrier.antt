-- ===== src/SpinBarrier.antt =====
-- src/barrier.c: the spinning barrier, and any number of threads that wait at it again and again, as
-- interleavings of their steps.
pub mod Invariant
pub mod Safety
pub mod Refinement
use acdc.Base.{◌≡◌, ℕ, ◌+◌, ◌*◌, ◌/◌, ◌%◌, ◌^◌, ◌≤◌, ◌<◌}
use acdc.Base.Families.{update}

-- `spin_barrier_t`.
pub record SpinBarrier : Type 0 where
  pub count : ℕ
  pub max : ℕ

unfoldable pub spin_barrier_init : ℕ → SpinBarrier
spin_barrier_init num_threads = record { count = 0; max = num_threads }

-- `__sync_fetch_and_add(&barrier->count, 1)` on a `uint64_t`.
unfoldable pub fetch_and_add : SpinBarrier → SpinBarrier
fetch_and_add barrier = record barrier { count = (barrier.count + 1) % 2 ^ 64 }

-- `next`, from the count before the addition.
unfoldable pub next_count : SpinBarrier → ℕ
next_count barrier = barrier.count / barrier.max * barrier.max + barrier.max

-- Where a thread is in `spin_barrier_wait`: outside of it, or in the loop with its `next`.
pub data Pc : Type 0 where
  outside : Pc
  spinning : ℕ → Pc

-- `arrivals i` counts the calls that thread `i` has made.
pub record System : Type 0 where
  pub barrier : SpinBarrier
  pub pc : ℕ → Pc
  pub arrivals : ℕ → ℕ

abbrev pub arrive : System → ℕ → System
arrive s i = record {
  barrier = fetch_and_add s.barrier;
  pc = update s.pc i (spinning (next_count s.barrier));
  arrivals = update s.arrivals i (s.arrivals i + 1);
}

abbrev pub leave : System → ℕ → System
leave s i = record s { pc = update s.pc i outside }

-- Thread `i` of `n` calls `spin_barrier_wait`, or leaves its loop.
pub data Step (n : ℕ) (s t : System) : Type 0 where
  enter : (i : ℕ) → i < n → s.pc i ≡ outside → t ≡ arrive s i → Step n s t
  exit :
      (i next : ℕ)
      → i < n
      → s.pc i ≡ spinning next
      → next ≤ s.barrier.count
      → t ≡ leave s i
      → Step n s t

abbrev pub start : ℕ → System
start n = record { barrier = spin_barrier_init n; pc = λ _. outside; arrivals = λ _. 0 }

pub data Reach (n : ℕ) : System → Type 0 where
  initial : Reach n (start n)
  later : {s t : System} → Reach n s → Step n s t → Reach n t
