-- ===== src/RunAcdc/Aggregate.antt =====
-- The sums of the threads' results: the loop at the end of `run_acdc` of src/acdc.c.
use acdc.Base.{
  ℕ, zero, suc, ◌+◌, ◌%◌, ◌^◌, ◌≤◌, ◌<◌, List, [], ◌∷◌, ◌≡◌, refl, ◌∙◌, ap, arith, length, get_or,
}
use acdc.Types.{GOptions, MStat}
use acdc.RunAcdc.{add_histogram, aggregate_one, aggregate}

-- The sum of a number of each thread.
abbrev pub sum_of : (MStat → ℕ) → List MStat → ℕ
sum_of f [] = 0
sum_of f (x ∷ xs) = f x + sum_of f xs

-- Both histograms of every thread have an entry for the largest liveness and the largest size class.
abbrev pub AllLong : GOptions → List MStat → Type 0
AllLong g [] = Unit
AllLong g (x ∷ xs) =
    (g.max_liveness < length x.lt_histogram)
    × (g.max_object_sc < length x.sz_histogram)
    × AllLong g xs

-- An equation between 64-bit numbers.
infix 4 ◌≡₆₄◌
abbrev pub ◌≡₆₄◌ : ℕ → ℕ → Type 0
a ≡₆₄ b = a % 2 ^ 64 ≡ b % 2 ^ 64

-- Each of the numbers of `total` is the sum of this number of all threads, modulo 2^64, and so is each
-- entry of the two histograms but the last ones, which are those of the first thread.
pub record IsTotal (g : GOptions) (first : MStat) (rest : List MStat) (total : MStat) : Type 0 where
  pub running_time : total.running_time ≡₆₄ sum_of (λ r. r.running_time) (first ∷ rest)
  pub allocation_time : total.allocation_time ≡₆₄ sum_of (λ r. r.allocation_time) (first ∷ rest)
  pub deallocation_time :
      total.deallocation_time ≡₆₄ sum_of (λ r. r.deallocation_time) (first ∷ rest)
  pub access_time : total.access_time ≡₆₄ sum_of (λ r. r.access_time) (first ∷ rest)
  pub bytes_allocated : total.bytes_allocated ≡₆₄ sum_of (λ r. r.bytes_allocated) (first ∷ rest)
  pub bytes_deallocated :
      total.bytes_deallocated ≡₆₄ sum_of (λ r. r.bytes_deallocated) (first ∷ rest)
  pub objects_allocated :
      total.objects_allocated ≡₆₄ sum_of (λ r. r.objects_allocated) (first ∷ rest)
  pub objects_deallocated :
      total.objects_deallocated ≡₆₄ sum_of (λ r. r.objects_deallocated) (first ∷ rest)
  pub lifetimes :
      (i : ℕ)
      → i < g.max_liveness
      → get_or total.lt_histogram i 0 ≡₆₄ sum_of (λ r. get_or r.lt_histogram i 0) (first ∷ rest)
  pub sizes :
      (i : ℕ)
      → i < g.max_object_sc
      → get_or total.sz_histogram i 0 ≡₆₄ sum_of (λ r. get_or r.sz_histogram i 0) (first ∷ rest)
  pub last_lifetime :
      get_or total.lt_histogram g.max_liveness 0 ≡ get_or first.lt_histogram g.max_liveness 0
  pub last_size :
      get_or total.sz_histogram g.max_object_sc 0 ≡ get_or first.sz_histogram g.max_object_sc 0

add_histogram-below :
    (n : ℕ) (xs ys : List ℕ) (i : ℕ)
    → i < n
    → n < length xs
    → n < length ys
    → get_or (add_histogram n xs ys) i 0 ≡ (get_or xs i 0 + get_or ys i 0) % 2 ^ 64
unfolding add_histogram
add_histogram-below zero xs ys i h₁ h₂ h₃ = absurd (omega arith)
add_histogram-below (suc n) [] ys i h₁ h₂ h₃ = absurd (omega arith)
add_histogram-below (suc n) (x ∷ xs) [] i h₁ h₂ h₃ = absurd (omega arith)
add_histogram-below (suc n) (x ∷ xs) (y ∷ ys) zero h₁ h₂ h₃ = refl
add_histogram-below (suc n) (x ∷ xs) (y ∷ ys) (suc i) h₁ h₂ h₃ =
    add_histogram-below n xs ys i (omega arith) (omega arith) (omega arith)

add_histogram-above :
    (n : ℕ) (xs ys : List ℕ) (i : ℕ) → n ≤ i → get_or (add_histogram n xs ys) i 0 ≡ get_or xs i 0
unfolding add_histogram
add_histogram-above zero xs ys i h = refl
add_histogram-above (suc n) [] ys i h = refl
add_histogram-above (suc n) (x ∷ xs) [] i h = refl
add_histogram-above (suc n) (x ∷ xs) (y ∷ ys) zero h = absurd (omega arith)
add_histogram-above (suc n) (x ∷ xs) (y ∷ ys) (suc i) h =
    add_histogram-above n xs ys i (omega arith)

length-add_histogram : (n : ℕ) (xs ys : List ℕ) → length (add_histogram n xs ys) ≡ length xs
unfolding add_histogram
length-add_histogram zero xs ys = refl
length-add_histogram (suc n) [] ys = refl
length-add_histogram (suc n) (x ∷ xs) [] = refl
length-add_histogram (suc n) (x ∷ xs) (y ∷ ys) = ap suc (length-add_histogram n xs ys)

-- The eight numbers of the aggregated results are the sums over all threads, modulo 2^64, and so are the
-- entries of the lifetime histogram below the largest liveness, and those of the size histogram below
-- the largest size class. The last entries, which the program prints too, stay those of the first
-- thread. Both histograms of each thread have their last entry.
pub aggregate_lem :
    (g : GOptions) (sum : MStat) (rs : List MStat)
    → AllLong g (sum ∷ rs)
    → IsTotal g sum rs (aggregate g sum rs)
unfolding aggregate aggregate_one
aggregate_lem g sum [] long = record {
  running_time = omega arith;
  allocation_time = omega arith;
  deallocation_time = omega arith;
  access_time = omega arith;
  bytes_allocated = omega arith;
  bytes_deallocated = omega arith;
  objects_allocated = omega arith;
  objects_deallocated = omega arith;
  lifetimes = λ i h. omega arith;
  sizes = λ i h. omega arith;
  last_lifetime = refl;
  last_size = refl;
}
aggregate_lem g sum (r ∷ rs) (long, long_sz, (long_r, long_r_sz, longs)) =
    let n = g.max_liveness in
    let m = g.max_object_sc in
    let next = aggregate_one g sum r in
    let kept : length next.lt_histogram ≡ length sum.lt_histogram =
      length-add_histogram n sum.lt_histogram r.lt_histogram in
    let kept_sz : length next.sz_histogram ≡ length sum.sz_histogram =
      length-add_histogram m sum.sz_histogram r.sz_histogram in
    let t = aggregate_lem g next rs (omega (arith, kept), omega (arith, kept_sz), longs) in
    record {
      running_time = omega (arith, t.running_time);
      allocation_time = omega (arith, t.allocation_time);
      deallocation_time = omega (arith, t.deallocation_time);
      access_time = omega (arith, t.access_time);
      bytes_allocated = omega (arith, t.bytes_allocated);
      bytes_deallocated = omega (arith, t.bytes_deallocated);
      objects_allocated = omega (arith, t.objects_allocated);
      objects_deallocated = omega (arith, t.objects_deallocated);
      lifetimes = λ i h.
          let e = add_histogram-below n sum.lt_histogram r.lt_histogram i h long long_r in
          let rest = t.lifetimes i h in omega (arith, e, rest);
      sizes = λ i h.
          let e = add_histogram-below m sum.sz_histogram r.sz_histogram i h long_sz long_r_sz in
          let rest = t.sizes i h in omega (arith, e, rest);
      last_lifetime =
          t.last_lifetime ∙ add_histogram-above n sum.lt_histogram r.lt_histogram n (omega arith);
      last_size =
          t.last_size ∙ add_histogram-above m sum.sz_histogram r.sz_histogram m (omega arith);
    }
