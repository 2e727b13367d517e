-- ===== src/Mining/Value.antt =====
-- Hashes and targets as numbers, and `meets_target` of include/armrx/mining_common.hpp on them.
use native.Mathlib.Nat.{mul-le-mul, pow-succ'}
use armrx_aarch64_random_x_v.Common.{
  ℕ, zero, suc, ◌+◌, ◌*◌, ◌/◌, ◌^◌, ◌≡◌, ◌<◌, ◌≤◌, arith, refl, false, leb, dec_lt, lt→ltb, ge→ltb,
  le→leb, bit_or,
}
use armrx_aarch64_random_x_v.Common.Bits.{bit_or_step}
use armrx_aarch64_random_x_v.Mining.Target.{Bytes32, meets_from, meets_target}

-- The little-endian value of the lowest `n` bytes.
unfoldable pub value : ℕ → Bytes32 → ℕ
value zero f = 0
value (suc n) f = value n f + 256 ^ n * f n

abbrev pub AreBytes : Bytes32 → Type 0
AreBytes f = (i : ℕ) → f i < 256

value-bound : (n : ℕ) (f : Bytes32) → AreBytes f → value n f < 256 ^ n
unfolding value
value-bound zero f bytes = omega arith
value-bound (suc n) f bytes =
    let power = pow-succ' 256 n in
    let top : 256 ^ n * f n ≤ 256 ^ n * 255 =
      mul-le-mul {n₁ = 256 ^ n} (omega arith) (omega (arith, bytes n)) in
    omega (arith, value-bound n f bytes)

step-down : (p v w a b : ℕ) → v < p → a < b → v + p * a < w + p * b
step-down p v w a b small less =
    let next : p * suc a ≤ p * b = mul-le-mul {n₁ = p} (omega arith) less in
    let open_next : p * suc a ≡ p * a + p = grind arith in omega arith

pub gt→leb : (a b : ℕ) → b < a → leb a b ≡ false
gt→leb a b h = ground arith

leb-shift : (a b c : ℕ) → leb a b ≡ leb (a + c) (b + c)
leb-shift a b c = ground arith

meets_from-leb :
    (n : ℕ) (hash target : Bytes32)
    → AreBytes hash
    → AreBytes target
    → meets_from n hash target ≡ leb (value n hash) (value n target)
unfolding meets_from value
meets_from-leb zero hash target hb tb = refl
meets_from-leb (suc n) hash target hb tb =
    let low_hash = value-bound n hash hb in
    let low_target = value-bound n target tb in
    elim (dec_lt (hash n) (target n)) [
      | yes less ↦
          let below =
            step-down (256 ^ n) (value n hash) (value n target) (hash n) (target n) low_hash less in
          rw
            (
              lt→ltb (hash n) (target n) less,
              le→leb (value n hash + 256 ^ n * hash n) (value n target + 256 ^ n * target n)
                  (omega arith),
            )
            refl
      | no above ↦ elim (dec_lt (target n) (hash n)) [
        | yes more ↦
            let below =
              step-down (256 ^ n) (value n target) (value n hash) (target n) (hash n) low_target
                more in
            rw
              (
                ge→ltb (hash n) (target n) (omega arith),
                lt→ltb (target n) (hash n) more,
                gt→leb (value n hash + 256 ^ n * hash n) (value n target + 256 ^ n * target n)
                    below,
              )
              refl
        | no equal ↦
            let same : target n ≡ hash n = omega arith in
            rw (same, ge→ltb (hash n) (hash n) (omega arith), meets_from-leb n hash target hb tb)
              (leb-shift (value n hash) (value n target) (256 ^ n * hash n))
      ]
    ]

-- For a hash and a target of 32 bytes: `meets_target` holds if and only if the hash, read as a
-- little-endian number, is at most the target.
pub meets_target-leb :
    (hash target : Bytes32)
    → AreBytes hash
    → AreBytes target
    → meets_target hash target ≡ leb (value 32 hash) (value 32 target)
unfolding meets_target
meets_target-leb hash target hb tb = meets_from-leb 32 hash target hb tb

pub bit_or-zero : (n x : ℕ) → x < n → bit_or x 0 ≡ x
bit_or-zero zero x lt = absurd (omega arith)
bit_or-zero (suc n) zero lt = refl
bit_or-zero (suc n) (suc x) lt =
    omega (arith, bit_or_step (suc x) 0, bit_or-zero n (suc x / 2) (omega arith))

or_ones : (x y : ℕ) → bit_or (2 * x) (2 * y + 1) ≡ 2 * bit_or x y + 1
or_ones x y =
    let left : 2 * x / 2 ≡ x = omega arith in
    let right : (2 * y + 1) / 2 ≡ y = omega arith in
    rw (bit_or_step (2 * x) (2 * y + 1), left, right) (omega arith)

-- The eight bits below a remainder.
pub append_ones : (r : ℕ) → bit_or (r * 256) 255 ≡ r * 256 + 255
append_ones r =
    let eight : r * 256 ≡ 2 * (2 * (2 * (2 * (2 * (2 * (2 * (2 * r))))))) = omega arith in
    rw
      (
        eight,
        or_ones (2 * (2 * (2 * (2 * (2 * (2 * (2 * r))))))) 127,
        or_ones (2 * (2 * (2 * (2 * (2 * (2 * r)))))) 63,
        or_ones (2 * (2 * (2 * (2 * (2 * r))))) 31,
        or_ones (2 * (2 * (2 * (2 * r)))) 15,
        or_ones (2 * (2 * (2 * r))) 7,
        or_ones (2 * (2 * r)) 3,
        or_ones (2 * r) 1,
        or_ones r 0,
        bit_or-zero (suc r) r (omega arith),
      )
      (omega arith)
