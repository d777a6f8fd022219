-- ===== src/Thread/Rounds.antt =====
-- What a round of a thread does to the local variables of the loop in `acdc_thread` of src/acdc.c.
use acdc.Base.{ℕ, ◌+◌, ◌%◌, ◌^◌, ◌<◌, ◌≡◌, refl, ap, arith, Bool, true, false, leb, if◌then◌else◌}
use acdc.Base.Run.{pure, ◌>>=◌}
use acdc.Types.{GOptions}
use acdc.Mutator.{World, set_context, rdtsc}
use acdc.MemoryStats.{Sources}
use acdc.HeapClass.{access_live_LClasses}
use acdc.Thread.{create_class, acdc_round, advance, Progress}
use acdc.Thread.Frame.{world_options, Keeps-rdtsc, Keeps-set_context}
use acdc.Thread.RoundFrame.{access_live_LClasses-Keeps, advance-Keeps}
use acdc.Thread.Under.{Under, Under-bind, Under-pure, bind_keeping, bind_get}
use acdc.Thread.ClassSize.{IsNarrow, IsRoundSize, create_class-Under}

-- What a round does: the time advances, or the counter of bytes grows and stays below the quantum.
pub data Moves (o : GOptions) (p q : Progress) : Type 0 where
  ticks : q.runs ≡ p.runs + 1 → q.time_counter ≡ 0 → Moves o p q
  goes_on :
      q.runs ≡ p.runs
      → p.time_counter < q.time_counter
      → q.time_counter < o.time_quantum
      → Moves o p q

module _ (o : GOptions) (h : IsNarrow o) (src : Sources) (p : Progress)
    (low : p.time_counter < o.time_quantum) where
  abbrev next_counter : ℕ → ℕ
  next_counter bytes = (p.time_counter + bytes) % 2 ^ 64

  -- The end of a round, after its bytes are counted.
  round_end :
      (w : World) (bytes : ℕ)
      → IsRoundSize bytes
      → w.mc.gopts ≡ o
      → (b : Bool) → leb w.mc.gopts.time_quantum (next_counter bytes) ≡ b
      → Under {A = Progress × Bool} world_options o
          (λ (q, waits). Moves o p q)
          (if b
            then (do
              waits ← advance src
              pure (record { time_counter = 0; runs = p.runs + 1 }, waits))
            else pure (record { time_counter = next_counter bytes; runs = p.runs }, false))
  round_end w bytes size e true t =
      bind_keeping o world_options _ (advance src) _ (advance-Keeps src)
        λ waits. Under-pure world_options o _ _ (ticks refl refl)
  round_end w bytes size e false t =
      let quantum = ap (λ (g : GOptions). g.time_quantum) e in
      let grown : next_counter bytes ≡ p.time_counter + bytes =
        omega (arith, h.quantum, size.bounded) in
      Under-pure world_options o _ _
        (goes_on refl (omega (arith, size.some_byte, grown)) (ground (arith, quantum, t)))

  pub acdc_round-Under : Under world_options o (λ (q, waits). Moves o p q) (acdc_round src p)
  unfolding acdc_round
  acdc_round-Under =
      Under-bind world_options o (IsRoundSize) _ create_class _ (create_class-Under o h)
        λ bytes size. bind_keeping o world_options _ rdtsc _ Keeps-rdtsc λ start.
          bind_keeping o world_options _ access_live_LClasses _ access_live_LClasses-Keeps
            λ written. bind_keeping o world_options _ rdtsc _ Keeps-rdtsc λ end.
              bind_keeping o world_options _ (set_context _) _ (Keeps-set_context _ (λ mc. refl))
                λ _. bind_get o world_options _ _ λ w e.
                  round_end w bytes size e (leb w.mc.gopts.time_quantum (next_counter bytes)) refl
