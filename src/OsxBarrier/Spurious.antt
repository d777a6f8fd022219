-- ===== src/OsxBarrier/Spurious.antt =====
-- What a spurious wake-up does to the barrier of src/osx-barrier.c.
use acdc.Base.{ℕ, ◌≤◌, ◌<◌, ◌≡◌, refl, arith, ◌==◌, false, leb}
use acdc.Base.Families.{update}
use acdc.OsxBarrier.{
  outside, waiting, woken, System, enter, set_pc, start, LooseStep, entering, leaving, regular,
  spurious, Reach, initial, later, pthread_barrier_wait,
}

-- The first thread of at least two waits.
first-waits :
    (n i : ℕ)
    → 2 ≤ n
    → enter (start n) i ≡ record {
      barrier = record { count = 1; trip_count = n };
      pc = update (λ _. outside) i waiting;
      arrivals = update (λ _. 0) i 1;
    }
unfolding enter pthread_barrier_wait
first-waits n i h = let early : leb n 1 ≡ false = ground arith in rw early refl

-- Where thread `i` has come back from its call while no other thread has called.
pub record ReturnedAlone (n i : ℕ) (s : System) : Type 0 where
  pub reached : Reach n (LooseStep n) s
  pub back : s.pc i ≡ outside
  pub once : s.arrivals i ≡ 1
  pub alone : (j : ℕ) → (j == i) ≡ false → s.arrivals j ≡ 0

-- When `pthread_cond_wait` may come back by itself, the barrier of any two or more threads does not hold:
-- each thread can call it and come back before any other thread has called.
pub LooseStep-ReturnedAlone : (n i : ℕ) → 2 ≤ n → i < n → (s : System) × ReturnedAlone n i s
LooseStep-ReturnedAlone n i h lt =
    let called = enter (start n) i in
    let woken_ = set_pc called i woken in
    let waits : called.pc i ≡ waiting = rw (first-waits n i h) (ground arith) in
    let up : woken_.pc i ≡ woken = ground arith in
    let r₁ : Reach n (LooseStep n) called = later initial (regular (entering i lt refl refl)) in
    let r₂ : Reach n (LooseStep n) woken_ = later r₁ (spurious i lt waits refl) in
    (
      set_pc woken_ i outside,
      record {
        reached = later r₂ (regular (leaving i lt up refl));
        back = ground arith;
        once = rw (first-waits n i h) (ground arith);
        alone = λ j other. rw (first-waits n i h) (ground arith);
      },
    )
