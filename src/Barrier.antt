-- ===== src/Barrier.antt =====
-- What a barrier promises to the threads that use it again and again, without saying how: the
-- specification of the barriers of src/barrier.c and src/osx-barrier.c.
pub mod Keeping
use acdc.Base.{ℕ, Bool, ◌-◌, if◌then◌else◌, ◌+◌, ◌<◌, ◌≡◌}
use acdc.Base.Families.{update}

-- How often each thread has called the barrier, and how often it has come back from it.
pub record Calls : Type 0 where
  pub arrivals : ℕ → ℕ
  pub departures : ℕ → ℕ

abbrev pub arrives : Calls → ℕ → Calls
arrives c i = record c { arrivals = update c.arrivals i (c.arrivals i + 1) }

abbrev pub departs : Calls → ℕ → Calls
departs c i = record c { departures = update c.departures i (c.departures i + 1) }

-- Thread `i` of `n` calls the barrier when it is not in it, and comes back from a call when each thread
-- has made as many calls.
pub data Promise (n : ℕ) (c d : Calls) : Type 0 where
  call : (i : ℕ) → i < n → c.arrivals i ≡ c.departures i → d ≡ arrives c i → Promise n c d
  return :
      (i : ℕ)
      → i < n
      → c.arrivals i ≡ c.departures i + 1
      → ((j : ℕ) → j < n → c.departures i < c.arrivals j)
      → d ≡ departs c i
      → Promise n c d

pub data Kept (n : ℕ) : Calls → Type 0 where
  at_first : Kept n record { arrivals = λ _. 0; departures = λ _. 0 }
  then_ : {c d : Calls} → Kept n c → Promise n c d → Kept n d

-- The calls, from how often the threads have called and which of them are inside.
abbrev pub calls : (ℕ → Bool) → (ℕ → ℕ) → Calls
calls inside arrivals = record {
  arrivals = arrivals;
  departures = λ i. if inside i then arrivals i - 1 else arrivals i;
}
