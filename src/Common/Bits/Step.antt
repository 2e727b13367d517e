-- ===== src/Common/Bits/Step.antt =====
-- One equation for the lowest digit of each native bit operation. They stand for `bitwise`, a
-- recursion over the binary digits that carries fuel; the fuel is dropped here once for all three.
use Prim.Native.Nat.{
  ℕ, zero, suc, ◌+◌, ◌*◌, ◌/◌, ◌%◌, ◌≤◌, ◌<◌, min, max, differ, digits, bitwise, bit_and, bit_or,
  bit_xor, bit_and-bitwise, bit_or-bitwise, bit_xor-bitwise,
}
use mathlib.Core.Path.{◌≡◌, refl, ◌∙◌}
use native.Mathlib.Decide.{dec_le}
use native.Mathlib.Omega.{arith}

module _ (tail : ℕ → ℕ) (op : ℕ → ℕ → ℕ) where
  -- A round of fuel beyond the first operand changes nothing.
  spare_round : (x y n : ℕ) → x ≤ n → digits tail op (suc n) x y ≡ digits tail op n x y
  spare_round zero y zero le = refl
  spare_round zero y (suc n) le = refl
  spare_round (suc x) y zero le = absurd (omega arith)
  spare_round (suc x) y (suc n) le = omega (arith, spare_round (suc x / 2) (y / 2) n (omega arith))

  own_fuel : (n x y : ℕ) → x ≤ n → digits tail op n x y ≡ bitwise tail op x y
  own_fuel zero zero y le = refl
  own_fuel zero (suc x) y le = absurd (omega arith)
  own_fuel (suc n) x y le = elim (dec_le x n) [
    | yes lower ↦ spare_round x y n lower ∙ own_fuel n x y lower
    | no top ↦ let same : x ≡ suc n = omega arith in rw same
  ]

  last_digit :
      (x y : ℕ)
      → bitwise tail op (suc x) y ≡ bitwise tail op (suc x / 2) (y / 2) * 2 + op (suc x % 2) (y % 2)
  last_digit x y = omega (arith, own_fuel x (suc x / 2) (y / 2) (omega arith))

bit_xor_digit : (x y : ℕ) → bit_xor x y ≡ bit_xor (x / 2) (y / 2) * 2 + differ (x % 2) (y % 2)
bit_xor_digit zero y = simp bit_xor-bitwise (omega arith)
bit_xor_digit (suc x) y = simp bit_xor-bitwise (last_digit (λ d. d) differ x y)

differ_bit : (a b : ℕ) → a < 2 → b < 2 → differ a b ≡ (a + b) % 2
differ_bit zero b ha hb = omega arith
differ_bit (suc zero) zero ha hb = refl
differ_bit (suc zero) (suc zero) ha hb = refl
differ_bit (suc zero) (suc (suc b)) ha hb = absurd (omega arith)
differ_bit (suc (suc a)) b ha hb = absurd (omega arith)

pub bit_xor_step : (x y : ℕ) → bit_xor x y ≡ bit_xor (x / 2) (y / 2) * 2 + (x % 2 + y % 2) % 2
bit_xor_step x y =
    omega (arith, bit_xor_digit x y, differ_bit (x % 2) (y % 2) (omega arith) (omega arith))

pub bit_or_step : (x y : ℕ) → bit_or x y ≡ bit_or (x / 2) (y / 2) * 2 + max (x % 2) (y % 2)
bit_or_step zero y = simp bit_or-bitwise (omega arith)
bit_or_step (suc x) y = simp bit_or-bitwise (last_digit (λ d. d) max x y)

pub bit_and_step : (x y : ℕ) → bit_and x y ≡ bit_and (x / 2) (y / 2) * 2 + min (x % 2) (y % 2)
bit_and_step zero y = simp bit_and-bitwise (omega arith)
bit_and_step (suc x) y = simp bit_and-bitwise (last_digit (λ d. 0) min x y)
