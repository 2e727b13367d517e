-- ===== src/Mining/Frame.antt =====
-- What `update_nonce_in_template` of src/mining_engine.cpp writes.
use armrx_aarch64_random_x_v.Common.{
  ℕ, zero, suc, ◌+◌, ◌*◌, ◌/◌, ◌%◌, ◌^◌, ◌≡◌, ◌<◌, ◌≤◌, ◌∙◌, arith, refl, some, shr64-defined,
  bit_and, ◌⊎◌, inl, inr, Bool-cases, ltb, ltb→lt, ltb→ge, update, update_self, update_ne,
  ℕ_discrete, ge→ltb,
}
use armrx_aarch64_random_x_v.Common.Bits.{bit_and_mask}
use armrx_aarch64_random_x_v.Mining.Nonce.{write_nonce, rejected, written, update_nonce_in_template}

-- Byte `k` of the nonce stands at `offset + k` for each `k` from `i` up to `last`, and the template is
-- otherwise as before.
pub record IsWritten (i last nonce offset : ℕ) (before after : ℕ → ℕ) : Type 0 where
  pub byte : (k : ℕ) → i ≤ k → k < last → after (offset + k) ≡ nonce / 2 ^ (8 * k) % 256
  pub below : (a : ℕ) → a < offset + i → after a ≡ before a
  pub above : (a : ℕ) → offset + last ≤ a → after a ≡ before a

write_nonce-IsWritten :
    (left i nonce offset : ℕ) (block : ℕ → ℕ)
    → i + left ≤ 8
    → (after : ℕ → ℕ) × (write_nonce left i nonce offset block ≡ some after)
      × IsWritten i (i + left) nonce offset block after
unfolding write_nonce
write_nonce-IsWritten zero i nonce offset block few = (
  block,
  refl,
  record { byte = λ k from to. absurd (omega arith); below = λ a lt. refl; above = λ a le. refl },
)
write_nonce-IsWritten (suc left) i nonce offset block few =
    let now = update block (offset + i) (bit_and (nonce / 2 ^ (8 * i)) 255) in
    let (after, ran, rest) = write_nonce-IsWritten left (i + 1) nonce offset now (omega arith) in
    let mask = bit_and_mask 8 (nonce / 2 ^ (8 * i)) in
    (
      after,
      rw (shr64-defined nonce (8 * i) (omega arith)) ran,
      record {
        byte = λ k from to. elim (ℕ_discrete i k) [
          | yes e ↦
              rw (← e)
                (rest.below (offset + i) (omega arith) ∙ update_self block (offset + i) _ ∙ mask)
          | no ne ↦ rest.byte k (omega arith) (omega arith)
        ];
        below = λ a lt. rest.below a (omega arith) ∙ update_ne block (offset + i) _ a (omega arith);
        above = λ a le. rest.above a (omega arith) ∙ update_ne block (offset + i) _ a (omega arith);
      },
    )

-- For a field of at most 8 bytes and a template of less than 2 ^ 64 bytes: `update_nonce_in_template` rejects a
-- field that ends beyond the template, if its end does not wrap. If the field fits, byte `k` of the nonce is then at
-- `offset + k` for every `k` below `size`, and no other byte of the template changes.
pub update_nonce_in_template-IsWritten :
    (length : ℕ) (block : ℕ → ℕ) (nonce offset size : ℕ)
    → length < 2 ^ 64
    → offset + size < 2 ^ 64
    → size ≤ 8
    → ((length < offset + size)
        × (update_nonce_in_template length block nonce offset size ≡ rejected))
      ⊎ ((offset + size ≤ length)
          × ((after : ℕ → ℕ) × (update_nonce_in_template length block nonce offset size
                ≡ written after)
              × IsWritten 0 size nonce offset block after))
unfolding update_nonce_in_template
update_nonce_in_template-IsWritten length block nonce offset size small no_wrap few =
    let end : (offset + size) % 2 ^ 64 ≡ offset + size = omega arith in
    let (after, ran, held) = write_nonce-IsWritten size 0 nonce offset block (omega arith) in
    elim (Bool-cases (ltb length (offset + size))) [
      | inl beyond ↦ inl (ltb→lt _ _ beyond, rw (end, beyond) refl)
      | inr inside ↦ inr (
        ltb→ge length (offset + size) inside,
        (
          after,
          fits-IsWritten (ltb→ge length (offset + size) inside) ran,
          record {
            byte = λ k from to. held.byte k from (omega arith);
            below = held.below;
            above = λ a le. held.above a (omega arith);
          },
        ),
      )
    ]
  where
    fits-IsWritten :
        {after : ℕ → ℕ}
        → offset + size ≤ length
        → write_nonce size 0 nonce offset block ≡ some after
        → update_nonce_in_template length block nonce offset size ≡ written after
    fits-IsWritten fits ran = rw (ge→ltb length ((offset + size) % 2 ^ 64) (omega arith), ran) refl
