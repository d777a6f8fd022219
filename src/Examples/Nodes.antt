-- ===== src/Examples/Nodes.antt =====
-- Lists of nodes, and the barrier.
use acdc.Base.{ℕ, ◌≤◌, ◌<◌, ◌≡◌, refl, ◌⊎◌, arith, [], ◌∷◌}
use acdc.Base.Families.{total}
use acdc.Base.Run.{Returns}
use acdc.LifetimeClass.{lclass_remove}
use acdc.LifetimeClass.Linked.{IsDll, OnlyLinks}
use acdc.LifetimeClass.Remove.{lclass_remove-IsDll}
use acdc.SpinBarrier.{
  spin_barrier_init, fetch_and_add, next_count, System, outside, spinning, arrive, start, enter,
  Reach, initial, later,
}
use acdc.SpinBarrier.Safety.{leave_after_all, some_thread_moves}
use acdc.Examples.{three_nodes, three}

abbrev three_nodes-IsDll : IsDll three_nodes three (64 ∷ 128 ∷ 192 ∷ [])
three_nodes-IsDll = record {
  first = refl;
  last = refl;
  linked = (refl, refl, (refl, refl, (refl, refl, tt)));
  distinct = (refl, (refl, (refl, tt)));
  not_null = refl;
}

lclass_remove-IsDll_example :
    Returns
      (λ l g. IsDll g l (64 ∷ 192 ∷ []) × OnlyLinks (64 ∷ 192 ∷ []) three_nodes g)
      (lclass_remove three 128 three_nodes)
lclass_remove-IsDll_example =
    lclass_remove-IsDll three_nodes three (64 ∷ []) 128 (192 ∷ []) three_nodes-IsDll

-- Both of two threads wait.
abbrev one_waits : System
one_waits = arrive (start 2) 0

abbrev pub both_wait : System
both_wait = arrive one_waits 1

pub both_wait-Reach : Reach 2 both_wait
both_wait-Reach =
    later (later initial (enter 0 (omega arith) refl refl)) (enter 1 (omega arith) refl refl)

leave_after_all_example : both_wait.arrivals 0 ≤ both_wait.arrivals 1
unfolding next_count spin_barrier_init fetch_and_add total
leave_after_all_example =
    leave_after_all 2 both_wait (omega arith) both_wait-Reach (omega arith) 0 2 (omega arith) refl
      (omega arith) 1 (omega arith)

some_thread_moves_example :
    (i : ℕ) × (i < 2)
    × ((both_wait.pc i ≡ outside)
        ⊎ ((next : ℕ) × (both_wait.pc i ≡ spinning next) × (next ≤ both_wait.barrier.count)))
unfolding total
some_thread_moves_example =
    some_thread_moves 2 both_wait (omega arith) both_wait-Reach (omega arith)
