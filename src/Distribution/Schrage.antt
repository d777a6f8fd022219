-- ===== src/Distribution/Schrage.antt =====
-- `next_rand` of src/distribution.c against the generator that it implements.
use acdc.Base.{ℕ, ◌*◌, ◌%◌, ◌<◌, ◌≡◌, arith}
use acdc.Base.Int.{pos}
use acdc.Distribution.{next_rand_value}

-- Schrage's method computes the Lehmer generator: 16807 * n modulo 2147483647, for every number
-- below that modulus.
pub next_rand-lehmer :
    (n : ℕ) → n < 2147483647 → next_rand_value (pos n) ≡ pos (16807 * n % 2147483647)
unfolding next_rand_value
next_rand-lehmer n h = ground arith
