-- ===== src/Vm/Words.antt =====
-- The word helpers of src/vm.cpp: sign extension, rotations, high products, float masks.
use armrx_aarch64_random_x_v.Common.{
  ℕ, ◌+◌, ◌-◌, ◌*◌, ◌/◌, ◌%◌, ◌^◌, bit_and, bit_or, Bool, if◌then◌else◌, ltb, ◌==◌, u64, shl64, shr,
  sub64,
}

-- `signExtend2sCompl`: int32_t to int64_t, as bit patterns.
unfoldable pub sign_extend : ℕ → ℕ
sign_extend x = if ltb x (2 ^ 31) then x else x + (2 ^ 64 - 2 ^ 32)

-- `std::rotr` and `std::rotl` on `uint64_t`, by less than 64 places.
unfoldable pub rotr : ℕ → ℕ → ℕ
rotr value shift = bit_or (shr value shift) (shl64 value (64 - shift))

unfoldable pub rotl : ℕ → ℕ → ℕ
rotl value shift = bit_or (shl64 value shift) (shr value (64 - shift))

unfoldable pub mulh : ℕ → ℕ → ℕ
mulh a b = a * b / 2 ^ 64

-- An int64_t widened to __int128, as bit patterns.
unfoldable pub widen : ℕ → ℕ
widen a = if ltb a (2 ^ 63) then a else a + (2 ^ 128 - 2 ^ 64)

-- The high half of the __int128 product.
unfoldable pub smulh : ℕ → ℕ → ℕ
smulh a b = widen a * widen b % 2 ^ 128 / 2 ^ 64

-- `isZeroOrPowerOf2` on `uint64_t`.
unfoldable pub is_zero_or_power_of_2 : ℕ → Bool
is_zero_or_power_of_2 x = bit_and x (sub64 x 1) == 0

abbrev pub mantissa_size : ℕ
mantissa_size = 52

abbrev pub mantissa_mask : ℕ
mantissa_mask = 2 ^ 52 - 1

abbrev pub exponent_mask : ℕ
exponent_mask = 2 ^ 11 - 1

abbrev pub exponent_bias : ℕ
exponent_bias = 1023

abbrev pub dynamic_mantissa_mask : ℕ
dynamic_mantissa_mask = 2 ^ 56 - 1

-- `getSmallPositiveFloatBits`.
unfoldable pub get_small_positive_float_bits : ℕ → ℕ
get_small_positive_float_bits entropy =
    let exponent = bit_and (u64 (shr entropy 59 + exponent_bias)) exponent_mask in
    bit_or (shl64 exponent mantissa_size) (bit_and entropy mantissa_mask)

-- `getStaticExponent`.
unfoldable pub get_static_exponent : ℕ → ℕ
get_static_exponent entropy = shl64 (bit_or 0x300 (shl64 (shr entropy (64 - 4)) 4)) mantissa_size

-- `getFloatMask`.
unfoldable pub get_float_mask : ℕ → ℕ
unfolding get_static_exponent
get_float_mask entropy = bit_or (bit_and entropy (2 ^ 22 - 1)) (get_static_exponent entropy)

-- `(bits & dynamicMantissaMask) | e_mask`, the form in which memory enters the group E registers.
unfoldable pub mask_e : ℕ → ℕ → ℕ
mask_e e_mask bits = bit_or (bit_and bits dynamic_mantissa_mask) e_mask
