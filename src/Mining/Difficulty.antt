-- ===== src/Mining/Difficulty.antt =====
-- The long division of `difficulty_to_target` in src/stratum_client.cpp.
use native.Mathlib.Nat.{mul-le-mul, pow-succ', div-add-mod, mod-lt, div-lt_iff_lt-mul}
use armrx_aarch64_random_x_v.Common.{
  ℕ, zero, suc, ◌+◌, ◌*◌, ◌/◌, ◌%◌, ◌^◌, ◌≡◌, ◌<◌, ◌≤◌, ◌∙◌, arith, refl, update, update_self,
  update_ne, dec_lt, ltb, lt→ltb, ge→ltb, le→leb, bit_or, shl64, false, ◌==◌, leb,
}
use armrx_aarch64_random_x_v.Mining.Target.{
  Bytes32, meets_target, divide_from, difficulty_to_target,
}
use armrx_aarch64_random_x_v.Mining.Value.{value, AreBytes, append_ones, gt→leb, meets_target-leb}

divide-kept : (n d r : ℕ) (t : Bytes32) (i : ℕ) → n ≤ i → divide_from n d r t i ≡ t i
unfolding divide_from
divide-kept zero d r t i le = refl
divide-kept (suc n) d r t i le =
    divide-kept n d _ (update t n _) i (omega arith) ∙ update_ne t n _ i (omega arith)

divide-top :
    (n d r : ℕ) (t : Bytes32) → divide_from (suc n) d r t n ≡ bit_or (shl64 r 8) 255 / d % 256
unfolding divide_from
divide-top n d r t = divide-kept n d _ (update t n _) n (omega arith) ∙ update_self t n _

recombine :
    (d v p q left rest r : ℕ)
    → d * v + suc rest ≡ suc left * p
    → d * q + left ≡ r * 256 + 255
    → d * (v + p * q) + suc rest ≡ suc r * (256 * p)
recombine d v p q left rest r sum split =
    let regroup : d * (v + p * q) + suc rest ≡ d * v + suc rest + p * (d * q) = grind arith in
    let collect : suc left * p + p * (d * q) ≡ p * suc (d * q + left) = grind arith in
    let scale : p * suc (r * 256 + 255) ≡ suc r * (256 * p) = grind arith in
    rw (regroup, sum, collect, split) scale

divide-AreBytes : (n d r : ℕ) (t : Bytes32) → AreBytes t → AreBytes (divide_from n d r t)
unfolding divide_from
divide-AreBytes zero d r t bytes = bytes
divide-AreBytes (suc n) d r t bytes =
    divide-AreBytes n d _ _
      (λ i. ground (arith, bytes i, mod-lt (bit_or (shl64 r 8) 255 / d) {m = 256} (omega arith)))

-- What the division leaves: `r` is the remainder that it starts with.
Divides : ℕ → ℕ → ℕ → Bytes32 → Type 0
Divides n d r t =
    (rest : ℕ) × (rest < d) × (d * value n (divide_from n d r t) + suc rest ≡ suc r * 256 ^ n)

divide_from-Divides : (n d r : ℕ) (t : Bytes32) → d ≤ 2 ^ 56 → r < d → Divides n d r t
unfolding divide_from value Divides
divide_from-Divides zero d r t few less = (r, less, omega arith)
divide_from-Divides (suc n) d r t few less =
    let small : r * 256 % 2 ^ 64 ≡ r * 256 = omega arith in
    let val = r * 256 + 255 in
    let split = div-add-mod val d in
    let below : val / d < 256 =
      (div-lt_iff_lt-mul {k = d} {x = val} {y = 256} (omega arith)).1 (omega arith) in
    let byte : val / d % 256 ≡ val / d = omega arith in
    let left : val % d < d = mod-lt val (omega arith) in
    let t' = update t n (val / d) in
    let (rest, under, sum) = divide_from-Divides n d (val % d) t' few left in
    let power = pow-succ' 256 n in
    let top : divide_from (suc n) d r t n ≡ val / d =
      divide-top n d r t ∙ rw (small, append_ones r, byte) refl in
    rw (small, append_ones r, byte, top)
      (
        rest,
        under,
        rw power (
            recombine d (value n (divide_from n d (val % d) t')) (256 ^ n) (val / d) (val % d) rest
              r sum split),
      )

zeros-AreBytes : AreBytes (λ i. 0)
zeros-AreBytes i = omega arith

quotient-leb :
    (h v d rest : ℕ) → rest < d → d * v + suc rest ≡ 1 * 256 ^ 32 → leb h v ≡ ltb (h * d) (2 ^ 256)
quotient-leb h v d rest under sum = elim (dec_lt v h) [
  | yes above ↦
      let more : suc v * d ≤ h * d = mul-le-mul {n₁ = suc v} above (omega arith) in
      let next : suc v * d ≡ d * v + d = grind arith in
      rw (gt→leb h v above, ge→ltb (h * d) (2 ^ 256) (omega arith)) refl
  | no within ↦
      let less : h * d ≤ v * d = mul-le-mul {n₁ = h} (omega arith) (omega arith) in
      let swap : v * d ≡ d * v = grind arith in
      rw (le→leb h v (omega arith), lt→ltb (h * d) (2 ^ 256) (omega arith)) refl
]

-- For a difficulty from 1 to 2 ^ 56 and a hash of 32 bytes: the hash meets the target of the
-- difficulty if and only if their product is below 2 ^ 256.
pub difficulty_to_target-meets :
    (difficulty : ℕ) (hash : Bytes32)
    → 0 < difficulty
    → difficulty ≤ 2 ^ 56
    → AreBytes hash
    → meets_target hash (difficulty_to_target difficulty)
      ≡ ltb (value 32 hash * difficulty) (2 ^ 256)
unfolding difficulty_to_target Divides
difficulty_to_target-meets difficulty hash positive few bytes =
    let nonzero : (difficulty == 0) ≡ false = ground arith in
    let (rest, under, sum) = divide_from-Divides 32 difficulty 0 (λ i. 0) few positive in
    rw
      (
        nonzero,
        meets_target-leb hash (divide_from 32 difficulty 0 (λ i. 0)) bytes
            (divide-AreBytes 32 difficulty 0 (λ i. 0) zeros-AreBytes),
      )
      (quotient-leb (value 32 hash) (value 32 (divide_from 32 difficulty 0 (λ i. 0))) difficulty
        rest under sum)
