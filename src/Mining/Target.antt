-- ===== src/Mining/Target.antt =====
-- `meets_target` and the loop of `difficulty_to_target`. The 32 bytes of a hash and of a target are
-- functions of the index.
use armrx_aarch64_random_x_v.Common.{
  ℕ, zero, suc, ◌/◌, ◌%◌, bit_or, Bool, true, false, if◌then◌else◌, ltb, ◌==◌, update, shl64,
}

abbrev pub Bytes32 : Type 0
Bytes32 = ℕ → ℕ

-- The loop from index `n - 1` down to 0.
unfoldable pub meets_from : ℕ → Bytes32 → Bytes32 → Bool
meets_from zero hash target = true
meets_from (suc n) hash target =
    let rest = meets_from n hash target in
    if ltb (hash n) (target n) then true else if ltb (target n) (hash n) then false else rest

unfoldable pub meets_target : Bytes32 → Bytes32 → Bool
unfolding meets_from
meets_target hash target = meets_from 32 hash target

-- The long division of 2 ^ 256 - 1, byte by byte from index `n - 1` down.
unfoldable pub divide_from : ℕ → ℕ → ℕ → Bytes32 → Bytes32
divide_from zero d remainder t = t
divide_from (suc n) d remainder t =
    let val = bit_or (shl64 remainder 8) 255 in
    divide_from n d (val % d) (update t n (val / d % 256))

-- From the integer difficulty on; 0 counts as 1.
unfoldable pub difficulty_to_target : ℕ → Bytes32
unfolding divide_from
difficulty_to_target difficulty =
    divide_from 32 (if difficulty == 0 then 1 else difficulty) 0 (λ i. 0)
