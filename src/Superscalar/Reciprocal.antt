-- ===== src/Superscalar/Reciprocal.antt =====
-- `randomx_reciprocal` of src/superscalar.cpp.
use armrx_aarch64_random_x_v.Common.{ℕ, zero, suc, ◌/◌, ◌%◌, ◌^◌, if◌then◌else◌, ltb, add64, shl64}

-- The place of the highest set bit among the lowest `n`, from 1: for `n = 64` this is
-- `64 - __builtin_clzll(d)`.
unfoldable pub bit_length : ℕ → ℕ → ℕ
bit_length zero d = 0
bit_length (suc n) d = if ltb d (2 ^ n) then bit_length n d else suc n

unfoldable pub reciprocal : ℕ → ℕ
unfolding bit_length
reciprocal divisor =
    let q = 2 ^ 63 / divisor in
    let r = 2 ^ 63 % divisor in
    let shift = bit_length 64 divisor in add64 (shl64 q shift) (shl64 r shift / divisor)
