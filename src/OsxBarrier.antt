-- ===== src/OsxBarrier.antt =====
-- src/osx-barrier.c: the barrier that stands in for that of pthreads on OS X, and any number of threads
-- that wait at it again and again, as interleavings of their steps. The mutex makes what a thread does
-- between `pthread_mutex_lock` and `pthread_cond_wait` or `pthread_mutex_unlock` one step. Mutexes and
-- condition variables themselves are the operating system's: whether they can be made is an argument.
pub mod Invariant
pub mod Refinement
pub mod Spurious
use acdc.Base.{◌≡◌, ℕ, ◌+◌, ◌<◌, Bool, true, false, leb, ◌==◌, if◌then◌else◌, Option, none, some}
use acdc.Base.Families.{update}

-- The numbers of `pthread_barrier_t`.
pub record PthreadBarrier : Type 0 where
  pub count : ℕ
  pub trip_count : ℕ

-- `pthread_barrier_init`, or `none` where it returns -1. The count that the caller gives is converted
-- to `int`, which keeps it when it is less than 2 ^ 31.
unfoldable pub pthread_barrier_init : Bool → Bool → ℕ → Option PthreadBarrier
pthread_barrier_init mutex_ok cond_ok count =
    if count == 0
    then none
    else if mutex_ok
    then (if cond_ok then some record { trip_count = count; count = 0 } else none)
    else none

-- `pthread_barrier_wait` up to its wait or its return: whether the thread waits, and the barrier.
unfoldable pub pthread_barrier_wait : PthreadBarrier → Bool × PthreadBarrier
pthread_barrier_wait barrier =
    let counted = record barrier { count = barrier.count + 1 } in
    if leb counted.trip_count counted.count
    then (false, record counted { count = 0 })
    else (true, counted)

-- Where a thread is in `pthread_barrier_wait`: outside of it, in `pthread_cond_wait`, or woken there.
pub data Pc : Type 0 where
  outside waiting woken : Pc

pub record System : Type 0 where
  pub barrier : PthreadBarrier
  pub pc : ℕ → Pc
  pub arrivals : ℕ → ℕ

-- `pthread_cond_broadcast`.
unfoldable pub wake : Pc → Pc
wake waiting = woken
wake outside = outside
wake woken = woken

-- Thread `i` calls `pthread_barrier_wait`.
unfoldable pub enter : System → ℕ → System
enter s i =
    let (waits, barrier) = pthread_barrier_wait s.barrier in
    record {
      barrier = barrier;
      pc = if waits then update s.pc i waiting else (λ j. wake (s.pc j));
      arrivals = update s.arrivals i (s.arrivals i + 1);
    }

abbrev pub set_pc : System → ℕ → Pc → System
set_pc s i p = record s { pc = update s.pc i p }

-- A step of thread `i` of `n`; `pthread_cond_wait` comes back only after a broadcast.
pub data Step (n : ℕ) (s t : System) : Type 0 where
  entering : (i : ℕ) → i < n → s.pc i ≡ outside → t ≡ enter s i → Step n s t
  leaving : (i : ℕ) → i < n → s.pc i ≡ woken → t ≡ set_pc s i outside → Step n s t

-- A step where `pthread_cond_wait` may also come back by itself, which POSIX allows.
pub data LooseStep (n : ℕ) (s t : System) : Type 0 where
  regular : Step n s t → LooseStep n s t
  spurious : (i : ℕ) → i < n → s.pc i ≡ waiting → t ≡ set_pc s i woken → LooseStep n s t

abbrev pub start : ℕ → System
start n = record {
  barrier = record { count = 0; trip_count = n };
  pc = λ _. outside;
  arrivals = λ _. 0;
}

-- The states that `n` threads reach by steps of a kind, from an initialised barrier.
pub data Reach (n : ℕ) (Moves : System → System → Type 0) : System → Type 0 where
  initial : Reach n Moves (start n)
  later : {s t : System} → Reach n Moves s → Moves s t → Reach n Moves t
