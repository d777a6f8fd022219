-- ===== src/MetadataHeap/Masks.antt =====
-- `align_address` of src/metadata-allocator.c: the mask clears the low digits.
use acdc.Base.Digits.{digits_enough}
use Prim.Native.Nat.{bit_and, bit_and-bitwise, min}
use native.Mathlib.Nat.{pow-succ', div-div-eq-div-mul, pow-suc, pow-zero, one-le-pow}
use acdc.Base.{
  ℕ, zero, suc, ◌+◌, ◌-◌, ◌*◌, ◌/◌, ◌%◌, ◌^◌, ◌≤◌, ◌<◌, ◌≡◌, refl, arith, ap, ◌∙◌, sym, subst,
}
use acdc.MetadataHeap.{align_address}

-- The lowest digit of a conjunction, and the others.
bit_and_halves : (x y : ℕ) → bit_and x y ≡ min (x % 2) (y % 2) + 2 * bit_and (x / 2) (y / 2)
bit_and_halves zero y = simp bit_and-bitwise (omega arith)
bit_and_halves (suc x) y =
    let half = suc x / 2 in
    let rest = digits_enough (λ u. zero) min half (y / 2) x half (omega arith) (omega arith) in
    let whole = bit_and-bitwise (suc x) y in let part = bit_and-bitwise half (y / 2) in omega arith

bit_and-zero : (n a : ℕ) → a ≤ n → bit_and a 0 ≡ 0
bit_and-zero n zero h = refl
bit_and-zero zero (suc a) h = absurd (omega arith)
bit_and-zero (suc n) (suc a) h =
    omega (arith, bit_and_halves (suc a) 0, bit_and-zero n (suc a / 2) (omega arith))

ones : ℕ → ℕ
ones zero = 0
ones (suc m) = ones m * 2 + 1

-- `m` ones, followed by `k` zeros.
mask : ℕ → ℕ → ℕ
mask m zero = ones m
mask m (suc k) = mask m k * 2

bit_and-ones : (m a : ℕ) → a < 2 ^ m → bit_and a (ones m) ≡ a
unfolding ones
bit_and-ones zero a h = bit_and-zero a a (omega arith) ∙ omega (arith, pow-zero 2)
bit_and-ones (suc m) a h =
    let b = ones m in
    let half : (b * 2 + 1) / 2 ≡ b = omega arith in
    let ih = bit_and-ones m (a / 2) (omega (arith, pow-suc 2 m)) in
    omega (arith, bit_and_halves a (b * 2 + 1), ap (bit_and (a / 2)) half ∙ ih)

add-suc-eq : (m k : ℕ) → m + suc k ≡ suc (m + k)
add-suc-eq m k = omega arith

bit_and-mask : (k m a : ℕ) → a < 2 ^ (m + k) → bit_and a (mask m k) ≡ a / 2 ^ k * 2 ^ k
unfolding mask
bit_and-mask zero m a h =
    let plain : m + 0 ≡ m = omega arith in
    bit_and-ones m a (subst (λ n. a < 2 ^ n) plain h) ∙ omega (arith, pow-zero 2)
bit_and-mask (suc k) m a h =
    let b = mask m k in
    let half : b * 2 / 2 ≡ b = omega arith in
    let h' = subst (λ n. a < 2 ^ n) (add-suc-eq m k) h in
    let ih = bit_and-mask k m (a / 2) (omega (arith, pow-suc 2 (m + k))) in
    let quotient : a / 2 ^ suc k ≡ a / 2 / 2 ^ k =
      ap (λ n. a / n) (pow-succ' 2 k) ∙ sym (div-div-eq-div-mul a 2 (2 ^ k)) in
    rw quotient (
      omega (
        arith,
        bit_and_halves a (b * 2),
        ap (bit_and (a / 2)) half ∙ ih,
        ap (λ n. a / 2 / 2 ^ k * n) (pow-succ' 2 k),
      ))

ones-pow : (m : ℕ) → ones m + 1 ≡ 2 ^ m
unfolding ones
ones-pow zero = refl
ones-pow (suc m) = omega (arith, ones-pow m, pow-suc 2 m)

mask-pow : (k m : ℕ) → mask m k + 2 ^ k ≡ 2 ^ (m + k)
unfolding mask
mask-pow zero m =
    let plain : m + 0 ≡ m = omega arith in rw plain (omega (arith, ones-pow m, pow-zero 2))
mask-pow (suc k) m =
    rw (add-suc-eq m k) (omega (arith, mask-pow k m, pow-suc 2 k, pow-suc 2 (m + k)))

-- For an alignment that is a power of two the address is rounded up to the next multiple of it.
pub align_address_lem :
    (k ptr : ℕ)
    → k ≤ 64
    → ptr + 2 ^ k ≤ 2 ^ 64
    → align_address ptr (2 ^ k) ≡ (ptr + (2 ^ k - 1)) / 2 ^ k * 2 ^ k
unfolding align_address
align_address_lem k ptr h room =
    let m = 64 - k in
    let whole : m + k ≡ 64 = omega arith in
    let complement : 2 ^ 64 - 2 ^ k ≡ mask m k =
      omega (arith, mask-pow k m, ap (λ n. 2 ^ n) whole) in
    rw complement (
      bit_and-mask k m (ptr + (2 ^ k - 1)) (
        subst (λ n. ptr + (2 ^ k - 1) < 2 ^ n) (sym whole)
          (omega (arith, one-le-pow k 2 (omega arith)))))
