-- ===== src/Partial/Calls.antt =====
-- The calls of `initialize_dataset` by the workers of src/partial_dataset.cpp.
use armrx_aarch64_random_x_v.Common.{
  ℕ, ◌+◌, ◌-◌, ◌*◌, ◌/◌, ◌^◌, ◌≡◌, ◌<◌, ◌≤◌, ◌⊎◌, inl, inr, arith, refl, sym, ap, ◌∙◌, ◌&&◌, leb,
  ltb, none, some, Bool-cases, ltb→lt, ge→ltb, le→leb, leb→le,
}
use armrx_aarch64_random_x_v.Dataset.Cache.{Cache, item_bytes}
use armrx_aarch64_random_x_v.Dataset.Items.{generate_dataset_item}
use armrx_aarch64_random_x_v.Dataset.Fill.{
  Buffer, filled, check_request, dataset_range_is_valid, dataset_item_count,
  initialize_dataset_neon,
}
use armrx_aarch64_random_x_v.Dataset.Filled.{IsReady, initialize_dataset_neon-Holds}
use armrx_aarch64_random_x_v.Partial.Worker.{Layout, Shared, chunk_end, sub_items, put_items}
use armrx_aarch64_random_x_v.Partial.Cursor.{and_true}
use armrx_aarch64_random_x_v.Partial.Invariant.{IsLayout, Correct}

module _ (l : Layout) (cache : Cache) (layout : IsLayout l) (ready : IsReady cache) where
  pub put-Correct :
      (s : Shared) (first count : ℕ) (after : Buffer)
      → ((j : ℕ) → j < count → generate_dataset_item cache (first + j) ≡ some (after j))
      → (j : ℕ) → (Correct l cache s.items j ⊎ ((first ≤ j) × (j < first + count)))
      → generate_dataset_item cache j ≡ some (put_items first count after s.items j)
  put-Correct s first count after made j at =
      elim (Bool-cases (leb first j && ltb j (first + count))) [
        | inl inside ↦
            let (from, to) = and_true _ _ inside in
            let le = leb→le first j from in
            let lt = ltb→lt j (first + count) to in
            let same : first + (j - first) ≡ j = omega arith in
            rw inside (ap (generate_dataset_item cache) (sym same) ∙ made (j - first) (omega arith))
        | inr outside ↦
            rw outside (elim at [ inl kept ↦ kept | inr (le, lt) ↦ absurd (ground arith) ])
      ]

  pub accepted :
      (first count : ℕ)
      → first + count ≤ l.allocated
      → check_request (count * item_bytes) first count ≡ none
  unfolding check_request dataset_range_is_valid
  accepted first count le =
      let small = layout.small in
      rw
        (
          le→leb first dataset_item_count (omega arith),
          le→leb count (dataset_item_count - first) (omega arith),
          ge→ltb ((2 ^ 64 - 1) / item_bytes) count (omega arith),
          ge→ltb (count * item_bytes) (count * item_bytes) (omega arith),
        )
        refl

  -- A call of `initialize_dataset` for items below the end succeeds.
  pub call-filled :
      (items : Buffer) (first count : ℕ)
      → first + count ≤ l.allocated
      → (after : Buffer) × (initialize_dataset_neon items (count * item_bytes) cache first count
          ≡ filled after)
        × ((j : ℕ) → j < count → generate_dataset_item cache (first + j) ≡ some (after j))
  call-filled items first count le =
      let (after, ran, holds) =
        initialize_dataset_neon-Holds cache items (count * item_bytes) first count ready
          (accepted first count le) in
      (after, ran, λ j lt. holds.item j (omega arith) lt)

  pub sub_items-le :
      (c sub_start : ℕ)
      → sub_start < chunk_end l c
      → sub_start + sub_items l c sub_start ≤ chunk_end l c
  sub_items-le c sub_start lt = ground arith

  pub chunk_end-allocated : (c : ℕ) → chunk_end l c ≤ l.allocated
  chunk_end-allocated c = ground arith
