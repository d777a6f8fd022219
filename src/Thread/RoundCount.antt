-- ===== src/Thread/RoundCount.antt =====
-- How many rounds the loop of `acdc_thread` of src/acdc.c takes.
use acdc.Base.{ℕ, ◌+◌, ◌-◌, ◌*◌, ◌≤◌, ◌≡◌, Bool}
use acdc.Base.Run.{Outcome, ok, failed, Failure}
use acdc.Types.{GOptions}
use acdc.Mutator.{World}
use acdc.MemoryStats.{Sources}
use acdc.Thread.{Progress, acdc_round}

module _ (src : ℕ → Sources) where
  -- The rounds that succeed, from round `i` on.
  pub data Rounds : ℕ → Progress → World → ℕ → Progress → World → Type 0 where
    here : (i : ℕ) (p : Progress) (w : World) → Rounds i p w i p w
    round :
        (i : ℕ) (p : Progress) (w : World) (q : Progress) (waits : Bool) (v : World) (j : ℕ)
        (r : Progress) (u : World)
        → acdc_round (src i) p w ≡ ok (q, waits) v
        → Rounds (i + 1) q v j r u
        → Rounds i p w j r u

  -- The loop is over after at most `bound` rounds that succeed: all steps of the time are done, or the next
  -- round fails and the loop with it.
  pub data IsBounded (i : ℕ) (p : Progress) (w : World) (bound : ℕ)
      (result : Outcome World (Unit {0})) : Type 0 where
    all_done :
        (j : ℕ) (q : Progress) (v : World)
        → Rounds i p w j q v
        → j ≤ bound
        → v.mc.gopts.benchmark_duration ≤ q.runs
        → result ≡ ok tt v
        → IsBounded i p w bound result
    stops :
        (j : ℕ) (q : Progress) (v : World) (e : Failure)
        → Rounds i p w j q v
        → j ≤ bound
        → acdc_round (src j) q v ≡ failed e
        → result ≡ failed e
        → IsBounded i p w bound result

-- The rounds that are left at most: each uses up a byte of the quantum, or a step of the time.
unfoldable pub rounds_left : GOptions → Progress → ℕ
rounds_left o p = (o.benchmark_duration - p.runs) * o.time_quantum - p.time_counter
