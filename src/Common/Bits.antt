-- ===== src/Common/Bits.antt =====
-- Laws of `&`, `|` and `^` at every width, from the equation for the lowest digit.
mod Step
mod Tables
unfoldable pub use Tables.{passes}
pub use Tables.{passes-at}
pub use Step.{bit_and_step, bit_or_step, bit_xor_step}
use Prim.Native.Nat.{
  ℕ, zero, suc, ◌+◌, ◌-◌, ◌*◌, ◌/◌, ◌%◌, ◌^◌, ◌≤◌, ◌<◌, min, max, bit_and, bit_or, bit_xor,
}
use mathlib.Core.Path.{◌≡◌, refl, sym, ap, ◌∙◌}
use native.Mathlib.Nat.{
  suc-mul, pow-suc, one-le-pow, mul_comm, div-div-eq-div-mul, div-add-mod', mod-lt, mod-eq_of_lt,
  mul-add-mod_self_right,
}
use native.Mathlib.Decide.{dec_lt}
use native.Mathlib.Omega.{arith}

-- Both words below `2 ^ k` give a word below `2 ^ k`.
pub bit_xor-lt : (k a b : ℕ) → a < 2 ^ k → b < 2 ^ k → bit_xor a b < 2 ^ k
bit_xor-lt zero a b ha hb =
    let ea : a ≡ 0 = omega arith in let eb : b ≡ 0 = omega arith in rw (ea, eb) (omega arith)
bit_xor-lt (suc k) a b ha hb = omega (
  arith,
  bit_xor_step a b,
  pow-suc 2 k,
  bit_xor-lt k (a / 2) (b / 2) (omega (arith, pow-suc 2 k)) (omega (arith, pow-suc 2 k)),
)

pub bit_or-lt : (k a b : ℕ) → a < 2 ^ k → b < 2 ^ k → bit_or a b < 2 ^ k
bit_or-lt zero a b ha hb =
    let ea : a ≡ 0 = omega arith in let eb : b ≡ 0 = omega arith in rw (ea, eb) (omega arith)
bit_or-lt (suc k) a b ha hb = omega (
  arith,
  bit_or_step a b,
  pow-suc 2 k,
  bit_or-lt k (a / 2) (b / 2) (omega (arith, pow-suc 2 k)) (omega (arith, pow-suc 2 k)),
)

bit_and-zero_below : (bound x : ℕ) → x < bound → bit_and x 0 ≡ 0
bit_and-zero_below (suc bound) x lt = elim (dec_lt 0 x) [
  | yes pos ↦ omega (arith, bit_and_step x 0, bit_and-zero_below bound (x / 2) (omega arith))
  | no none ↦ let e : x ≡ 0 = omega arith in rw e refl
]
bit_and-zero_below zero x lt = elim lt [ ]

pub bit_and-zero : (x : ℕ) → bit_and x 0 ≡ 0
bit_and-zero x = bit_and-zero_below (suc x) x (omega arith)

-- A masked word is at most its mask.
bit_and-le_fuel : (n a b : ℕ) → b ≤ n → bit_and a b ≤ b
bit_and-le_fuel n a zero h = omega (arith, bit_and-zero a)
bit_and-le_fuel zero a (suc b) h = elim h [ ]
bit_and-le_fuel (suc n) a (suc b) h =
    omega (arith, bit_and_step a (suc b), bit_and-le_fuel n (a / 2) (suc b / 2) (omega arith))

pub bit_and-le : (a b : ℕ) → bit_and a b ≤ b
bit_and-le a b = bit_and-le_fuel b a b (omega arith)

mul-two-pow : (m k : ℕ) → m * 2 ^ suc k ≡ 2 * (m * 2 ^ k)
mul-two-pow m k = omega (arith, ap (λ (t : ℕ). m * t) (pow-suc 2 k))

-- `x / 2 ^ (k + 1)` halves first.
div-two-pow : (a k : ℕ) → a / 2 ^ suc k ≡ a / 2 / 2 ^ k
div-two-pow a k = rw (pow-suc 2 k, mul_comm (2 ^ k) 2) (sym (div-div-eq-div-mul a 2 (2 ^ k)))

mod-two-pow : (a k : ℕ) → a % 2 ^ suc k ≡ a / 2 % 2 ^ k * 2 + a % 2
mod-two-pow a k = omega (
  arith,
  pow-suc 2 k,
  div-two-pow a k,
  div-add-mod' a (2 ^ suc k),
  div-add-mod' (a / 2) (2 ^ k),
  mul-two-pow (a / 2 ^ suc k) k,
  ap (λ (t : ℕ). t * 2 ^ k) (div-two-pow a k),
)

-- A field of `m` at bit `k`.
pub bit_and_field : (k a m : ℕ) → bit_and a (m * 2 ^ k) ≡ bit_and (a / 2 ^ k) m * 2 ^ k
bit_and_field zero a m = ground (arith)
bit_and_field (suc k) a m =
    rw (mul-two-pow m k, mul-two-pow (bit_and (a / 2 ^ suc k) m) k, div-two-pow a k)
      (omega (arith, bit_and_step a (2 * (m * 2 ^ k)), bit_and_field k (a / 2) m, half))
  where
    half : bit_and (a / 2) (2 * (m * 2 ^ k) / 2) ≡ bit_and (a / 2) (m * 2 ^ k)
    half = ap (bit_and (a / 2)) (omega arith)

-- The `k` low bits.
pub bit_and_mask : (k a : ℕ) → bit_and a (2 ^ k - 1) ≡ a % 2 ^ k
bit_and_mask zero a = omega (arith, bit_and-zero a)
bit_and_mask (suc k) a = ground (
  arith,
  pow-suc 2 k,
  one-le-pow k 2,
  bit_and_step a (2 ^ suc k - 1),
  bit_and_mask k (a / 2),
  mod-two-pow a k,
)

-- Shifting right commutes with the operations.
pub bit_and-div : (k a b : ℕ) → bit_and a b / 2 ^ k ≡ bit_and (a / 2 ^ k) (b / 2 ^ k)
bit_and-div zero a b = ground arith
bit_and-div (suc k) a b =
    rw (div-two-pow (bit_and a b) k, div-two-pow a k, div-two-pow b k, halves)
      (bit_and-div k (a / 2) (b / 2))
  where
    halves : bit_and a b / 2 ≡ bit_and (a / 2) (b / 2)
    halves = omega (arith, bit_and_step a b)

pub bit_or-div : (k a b : ℕ) → bit_or a b / 2 ^ k ≡ bit_or (a / 2 ^ k) (b / 2 ^ k)
bit_or-div zero a b = ground arith
bit_or-div (suc k) a b =
    rw (div-two-pow (bit_or a b) k, div-two-pow a k, div-two-pow b k, halves)
      (bit_or-div k (a / 2) (b / 2))
  where
    halves : bit_or a b / 2 ≡ bit_or (a / 2) (b / 2)
    halves = omega (arith, bit_or_step a b)

-- A digit of a conjunction or a disjunction.
pub bit_and-digit : (k a b : ℕ) → bit_and a b / 2 ^ k % 2 ≡ min (a / 2 ^ k % 2) (b / 2 ^ k % 2)
bit_and-digit k a b = omega (arith, bit_and-div k a b, bit_and_step (a / 2 ^ k) (b / 2 ^ k))

pub bit_or-digit : (k a b : ℕ) → bit_or a b / 2 ^ k % 2 ≡ max (a / 2 ^ k % 2) (b / 2 ^ k % 2)
bit_or-digit k a b = omega (arith, bit_or-div k a b, bit_or_step (a / 2 ^ k) (b / 2 ^ k))

-- If the highest digit below `n` is 0, the remainder by `n` stays in the lower half.
pub mod-lt-half : (k n a : ℕ) → n ≡ 2 * 2 ^ k → a / 2 ^ k % 2 ≡ 0 → a % n * 2 < n
mod-lt-half k n a e even = omega (arith, low, pos, mod-lt a pos)
  where
    pos : 0 < 2 ^ k
    pos = one-le-pow k 2 (omega arith)

    twice : a / 2 ^ k ≡ a / 2 ^ k / 2 * 2
    twice = omega arith

    split : a ≡ a / 2 ^ k / 2 * n + a % 2 ^ k
    split = omega (
      arith,
      div-add-mod' a (2 ^ k),
      ap (λ (t : ℕ). a / 2 ^ k / 2 * t) e,
      ap (λ (t : ℕ). t * 2 ^ k) twice,
    )

    low : a % n ≡ a % 2 ^ k
    low =
        ap (λ (t : ℕ). t % n) split
        ∙ mul-add-mod_self_right (a / 2 ^ k / 2) n (a % 2 ^ k)
        ∙ mod-eq_of_lt (omega (arith, mod-lt a pos))

pub eq-zero_of_mul : (a b : ℕ) → 0 < b → a * b ≡ 0 → a ≡ 0
eq-zero_of_mul zero b pos h = refl
eq-zero_of_mul (suc a) b pos h = absurd (omega (arith, suc-mul a b))

-- A test of one byte.
pub byte_of_bit_and : (k a mask : ℕ) → mask ≡ 255 * 2 ^ k → bit_and a mask ≡ 0 → a / 2 ^ k % 256 ≡ 0
byte_of_bit_and k a mask e h =
    sym (bit_and_mask 8 (a / 2 ^ k))
    ∙ eq-zero_of_mul (bit_and (a / 2 ^ k) 255) (2 ^ k) (one-le-pow k 2 (omega arith))
        (sym (bit_and_field k a 255) ∙ ap (bit_and a) (sym e) ∙ h)
