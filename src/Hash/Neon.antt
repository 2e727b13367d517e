-- ===== src/Hash/Neon.antt =====
-- The NEON form of `compress` of src/blake2b.cpp, with its intrinsics written out lane by lane.
use armrx_aarch64_random_x_v.Common.{
  ℕ, ◌+◌, ◌-◌, ◌*◌, ◌%◌, ◌^◌, Bool, ltb, bit_or, bit_xor, add64, not64, shr, shl64, update,
  if◌then◌else◌, List, [], ◌∷◌, get_or,
}
use armrx_aarch64_random_x_v.Vm.Memory.{Bytes, load_le}
use armrx_aarch64_random_x_v.Hash.Blake.{Words, iv, sigma}

-- `uint64x2_t`.
pub record Lanes : Type 0 where
  pub lane0 : ℕ
  pub lane1 : ℕ

abbrev pub vaddq : Lanes → Lanes → Lanes
vaddq a b = record { lane0 = add64 a.lane0 b.lane0; lane1 = add64 a.lane1 b.lane1 }

abbrev pub veorq : Lanes → Lanes → Lanes
veorq a b = record { lane0 = bit_xor a.lane0 b.lane0; lane1 = bit_xor a.lane1 b.lane1 }

abbrev pub vshlq_n : Lanes → ℕ → Lanes
vshlq_n a n = record { lane0 = shl64 a.lane0 n; lane1 = shl64 a.lane1 n }

-- The highest `n` bits of `a`, and `b` shifted right below them.
abbrev pub sri : ℕ → ℕ → ℕ → ℕ
sri a b n = bit_or (shr b n) (a - a % 2 ^ (64 - n))

abbrev pub vsriq_n : Lanes → Lanes → ℕ → Lanes
vsriq_n a b n = record { lane0 = sri a.lane0 b.lane0 n; lane1 = sri a.lane1 b.lane1 n }

-- A row: the indices of the lanes of `va`, `vb`, `vc` and `vd`, then `mx` and `my`.
unfoldable pub neon_row : ℕ → ℕ → ℕ → ℕ → ℕ → ℕ → ℕ → ℕ → Lanes → Lanes → Words → Words
neon_row a0 a1 b0 b1 c0 c1 d0 d1 mx my v =
    let va : Lanes = record { lane0 = v a0; lane1 = v a1 } in
    let vb : Lanes = record { lane0 = v b0; lane1 = v b1 } in
    let vc : Lanes = record { lane0 = v c0; lane1 = v c1 } in
    let vd : Lanes = record { lane0 = v d0; lane1 = v d1 } in
    let va1 = vaddq va (vaddq vb mx) in
    let vd1 = vsriq_n (vshlq_n (veorq vd va1) 32) (veorq vd va1) 32 in
    let vc1 = vaddq vc vd1 in
    let vb1 = vsriq_n (vshlq_n (veorq vb vc1) 40) (veorq vb vc1) 24 in
    let va2 = vaddq va1 (vaddq vb1 my) in
    let vd2 = vsriq_n (vshlq_n (veorq vd1 va2) 48) (veorq vd1 va2) 16 in
    let vc2 = vaddq vc1 vd2 in
    let vb2 = vsriq_n (vshlq_n (veorq vb1 vc2) 1) (veorq vb1 vc2) 63 in
    let w1 = update (update v a0 va2.lane0) a1 va2.lane1 in
    let w2 = update (update w1 b0 vb2.lane0) b1 vb2.lane1 in
    let w3 = update (update w2 c0 vc2.lane0) c1 vc2.lane1 in
    update (update w3 d0 vd2.lane0) d1 vd2.lane1

unfoldable pub neon_round : Words → List ℕ → Words → Words
neon_round m s v =
    let pair : ℕ → ℕ → Lanes =
      λ i j. record { lane0 = m (get_or s i 0); lane1 = m (get_or s j 0) } in
    let v1 = neon_row 0 1 4 5 8 9 12 13 (pair 0 2) (pair 1 3) v in
    let v2 = neon_row 2 3 6 7 10 11 14 15 (pair 4 6) (pair 5 7) v1 in
    let v3 = neon_row 0 1 5 6 10 11 15 12 (pair 8 10) (pair 9 11) v2 in
    neon_row 2 3 7 4 8 9 13 14 (pair 12 14) (pair 13 15) v3

unfoldable pub neon_rounds : Words → List (List ℕ) → Words → Words
neon_rounds m [] v = v
neon_rounds m (s ∷ rest) v = neon_rounds m rest (neon_round m s v)

unfoldable pub compress_neon : Words → Bytes → ℕ → Bool → Words
compress_neon h block bytes last =
    let m : Words = λ i. load_le 8 block (8 * i) in
    let v1 : Words = λ i. if ltb i 8 then h i else get_or iv (i - 8) 0 in
    let v2 = update v1 12 (bit_xor (v1 12) bytes) in
    let v3 = if last then update v2 14 (not64 (v2 14)) else v2 in
    let v = neon_rounds m sigma v3 in λ i. bit_xor (h i) (bit_xor (v i) (v (i + 8)))
