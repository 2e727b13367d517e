-- ===== src/Mining/Nonce.antt =====
-- `update_nonce_in_template` of src/mining_engine.cpp. The template is `length` bytes. The shift of the
-- nonce, a `uint64_t`, is undefined from byte 8 on.
use armrx_aarch64_random_x_v.Common.{
  ℕ, zero, suc, ◌+◌, ◌*◌, bit_and, Option, none, some, ◌>>=◌, if◌then◌else◌, ltb, update, shr64,
  u64,
}

-- The loop from `i` on, with `left` bytes to go.
unfoldable pub write_nonce : ℕ → ℕ → ℕ → ℕ → (ℕ → ℕ) → Option (ℕ → ℕ)
write_nonce zero i nonce offset block = some block
write_nonce (suc left) i nonce offset block = do
  shifted ← shr64 nonce (8 * i)
  write_nonce left (i + 1) nonce offset (update block (offset + i) (bit_and shifted 255))

-- `rejected` is the result `false`, which leaves the template as it is; `undefined` is a shift by
-- 64 bits or more.
pub data NonceUpdate : Type 0 where
  rejected undefined : NonceUpdate
  written : (ℕ → ℕ) → NonceUpdate

abbrev pub of_writes : Option (ℕ → ℕ) → NonceUpdate
of_writes none = undefined
of_writes (some block) = written block

unfoldable pub update_nonce_in_template : ℕ → (ℕ → ℕ) → ℕ → ℕ → ℕ → NonceUpdate
unfolding write_nonce
update_nonce_in_template length block nonce offset size =
    if ltb length (u64 (offset + size))
    then rejected
    else of_writes (write_nonce size 0 nonce offset block)
