-- ===== src/Base/Xor.antt =====
-- Exclusive or at variables: its lowest digit, and the cancellation that the swap by `^=` rests on.
use acdc.Base.Digits.{digits_enough}
use Prim.Native.Nat.{bit_xor, bit_xor-bitwise, differ}
use acdc.Base.{ℕ, zero, suc, ◌+◌, ◌*◌, ◌/◌, ◌%◌, ◌≤◌, ◌<◌, ◌≡◌, refl, arith, ◌∙◌, ap}

differ-add : (x y : ℕ) → x < 2 → y < 2 → differ x y ≡ (x + y) % 2
differ-add zero y p q = omega arith
differ-add (suc zero) zero p q = omega arith
differ-add (suc zero) (suc zero) p q = omega arith
differ-add (suc zero) (suc (suc y)) p q = absurd (omega arith)
differ-add (suc (suc x)) y p q = absurd (omega arith)

bit_xor_step : (a b : ℕ) → bit_xor a b ≡ bit_xor (a / 2) (b / 2) * 2 + (a + b) % 2
bit_xor_step zero b = simp bit_xor-bitwise (omega arith)
bit_xor_step (suc a) b =
    let half = suc a / 2 in
    let lowest = differ-add (suc a % 2) (b % 2) (omega arith) (omega arith) in
    let rest = digits_enough (λ u. u) differ half (b / 2) a half (omega arith) (omega arith) in
    let whole = bit_xor-bitwise (suc a) b in let part = bit_xor-bitwise half (b / 2) in omega arith

half-bit_xor : (a b : ℕ) → bit_xor a b / 2 ≡ bit_xor (a / 2) (b / 2)
half-bit_xor a b = omega (arith, bit_xor_step a b)

cancel_fuel : (n a b : ℕ) → a + b ≤ n → bit_xor b (bit_xor a b) ≡ a
cancel_fuel n zero zero h = refl
cancel_fuel zero (suc a) b h = absurd (omega arith)
cancel_fuel zero a (suc b) h = absurd (omega arith)
cancel_fuel (suc n) a b h =
    let ih = cancel_fuel n (a / 2) (b / 2) (omega arith) in
    omega (
      arith,
      bit_xor_step b (bit_xor a b),
      bit_xor_step a b,
      ap (bit_xor (b / 2)) (half-bit_xor a b) ∙ ih,
    )

-- `b ^ (a ^ b) == a`.
pub bit_xor_cancel : (a b : ℕ) → bit_xor b (bit_xor a b) ≡ a
bit_xor_cancel a b = cancel_fuel (a + b) a b (omega arith)

comm_fuel : (n a b : ℕ) → a + b ≤ n → bit_xor a b ≡ bit_xor b a
comm_fuel n zero zero h = refl
comm_fuel zero (suc a) b h = absurd (omega arith)
comm_fuel zero a (suc b) h = absurd (omega arith)
comm_fuel (suc n) a b h =
    omega (arith, bit_xor_step a b, bit_xor_step b a, comm_fuel n (a / 2) (b / 2) (omega arith))

pub bit_xor_comm : (a b : ℕ) → bit_xor a b ≡ bit_xor b a
bit_xor_comm a b = comm_fuel (a + b) a b (omega arith)
