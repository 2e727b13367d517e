-- ===== src/Superscalar/Rounding.antt =====
-- The result of `randomx_reciprocal` of src/superscalar.cpp as a quotient.
use native.Mathlib.Nat.{
  div-add-mod, mul-add-div, div-lt_iff_lt-mul, le-div_iff_mul-le, mul-le-mul, pow-zero,
  pow-le-pow_right, pow-succ', mod-lt,
}
use armrx_aarch64_random_x_v.Common.{
  ℕ, zero, suc, ◌+◌, ◌*◌, ◌/◌, ◌%◌, ◌^◌, ◌≡◌, ◌≢◌, ◌<◌, ◌≤◌, ◌∙◌, arith, refl, ap, sym, dec_lt,
  lt→ltb, ge→ltb,
}
use armrx_aarch64_random_x_v.Superscalar.Reciprocal.{bit_length, reciprocal}

-- The place of the highest bit of a positive number below `2 ^ n`.
pub record HighestBit (d place : ℕ) : Type 0 where
  pub m : ℕ
  pub is_place : place ≡ suc m
  pub low : 2 ^ m ≤ d
  pub high : d < 2 * 2 ^ m

bit_length-HighestBit : (n d : ℕ) → 0 < d → d < 2 ^ n → HighestBit d (bit_length n d)
unfolding bit_length
bit_length-HighestBit zero d positive lt = absurd (omega arith)
bit_length-HighestBit (suc n) d positive lt = elim (dec_lt d (2 ^ n)) [
  | yes small ↦ rw (lt→ltb d (2 ^ n) small) (bit_length-HighestBit n d positive small)
  | no large ↦
      let double = pow-succ' 2 n in
      rw (ge→ltb d (2 ^ n) (omega arith))
        (record { m = n; is_place = refl; low = omega arith; high = omega arith })
]

div-scaled : (x d p : ℕ) → 0 < d → x * p / d ≡ x / d * p + x % d * p / d
div-scaled x d p positive =
    let split : x * p ≡ d * (x / d * p) + x % d * p =
      ap (λ (y : ℕ). y * p) (sym (div-add-mod x d)) ∙ grind arith in
    rw split (mul-add-div positive (x / d * p) (x % d * p))

power_add : (a b : ℕ) → 2 ^ (a + b) ≡ 2 ^ a * 2 ^ b
power_add a zero = let same : a + 0 ≡ a = omega arith in rw (same, pow-zero 2) (omega arith)
power_add a (suc b) =
    let shift : a + suc b ≡ suc (a + b) = omega arith in
    rw (shift, pow-succ' 2 (a + b), pow-succ' 2 b, power_add a b) (grind arith)

half-le : (m d : ℕ) → 2 ^ m ≤ d → d < 2 ^ 32 → 2 ^ m ≤ 2 ^ 31
half-le m d low small = elim (dec_lt m 32) [
  | yes few ↦ pow-le-pow_right (omega arith) {j = 31} (omega arith)
  | no many ↦
      let wide : 2 ^ 32 ≤ 2 ^ m = pow-le-pow_right (omega arith) {i = 32} (omega arith) in
      absurd (omega arith)
]

-- The same sum on 64-bit words, for `d` between `h` and `2 * h`.
scaled-words :
    (x d h : ℕ)
    → x ≡ 2 ^ 63
    → h < d
    → d < 2 * h
    → d < 2 ^ 32
    → h ≤ 2 ^ 31
    → ((x / d * (2 * h) % 2 ^ 64 + x % d * (2 * h) % 2 ^ 64 / d) % 2 ^ 64 ≡ x * (2 * h) / d)
      × (x * (2 * h) / d < 2 ^ 64)
      × (2 ^ 63 ≤ x * (2 * h) / d)
scaled-words x d h is63 low high small fits =
    let positive : 0 < d = omega arith in
    let split = div-scaled x d (2 * h) positive in
    let below : x * (2 * h) / d < 2 ^ 64 = (div-lt_iff_lt-mul positive).1 (rw is63 (omega arith)) in
    let above : 2 ^ 63 ≤ x * (2 * h) / d = (le-div_iff_mul-le positive).1 (rw is63 (omega arith)) in
    let remainder : x % d < d = mod-lt x positive in
    let rest : x % d ≤ 4294967295 = omega arith in
    let product : x % d * (2 * h) ≤ 4294967295 * 2 ^ 32 =
      mul-le-mul {m₂ = 2 ^ 32} rest (omega arith) in
    let no_wrap : x % d * (2 * h) % 2 ^ 64 ≡ x % d * (2 * h) = omega arith in
    (rw no_wrap (omega arith), below, above)

-- For a divisor of 32 bits that is not a power of two, the result is `2 ^ (63 + s) / divisor` for the
-- number `s` of bits of the divisor, and it is a 64-bit number whose highest bit is set: no
-- operation of the function wraps.
pub reciprocal-exact :
    (divisor : ℕ)
    → 0 < divisor
    → divisor < 2 ^ 32
    → ((m : ℕ) → divisor ≢ 2 ^ m)
    → (reciprocal divisor ≡ 2 ^ (63 + bit_length 64 divisor) / divisor)
      × (reciprocal divisor < 2 ^ 64)
      × (2 ^ 63 ≤ reciprocal divisor)
unfolding reciprocal
reciprocal-exact divisor positive small odd =
    let top = bit_length-HighestBit 64 divisor positive (omega arith) in
    let ne = odd top.m in
    let low = top.low in
    let high = top.high in
    let double : 2 ^ suc top.m ≡ 2 * 2 ^ top.m = pow-succ' 2 top.m in
    let scale : 2 ^ (63 + suc top.m) ≡ 2 ^ 63 * 2 ^ suc top.m = power_add 63 (suc top.m) in
    let (sum, below, above) =
      scaled-words (2 ^ 63) divisor (2 ^ top.m) refl (omega arith) high small
        (half-le top.m divisor low small) in
    rw (top.is_place, scale, double) (sum, rw sum below, rw sum above)
