-- ===== src/Dataset/Filled.antt =====
-- What the buffer holds after `initialize_dataset`.
use armrx_aarch64_random_x_v.Common.{
  ℕ, zero, suc, ◌+◌, ◌≡◌, ◌<◌, ◌≤◌, ◌%◌, bit_xor, refl, arith, ◌∙◌, some, none, false, ◌==◌, update,
  ℕ_discrete, update_self, update_ne,
}
use armrx_aarch64_random_x_v.Superscalar.Scalar.{Registers}
use armrx_aarch64_random_x_v.Superscalar.Total.{IsRunnable, execute_superscalar-Runs}
use armrx_aarch64_random_x_v.Dataset.Cache.{Cache, Item, cache_line_count}
use armrx_aarch64_random_x_v.Dataset.Items.{item_rounds, generate_dataset_item}
use armrx_aarch64_random_x_v.Dataset.Lanes.{load-some, the_line, initialize_dataset_neon-portable}
use armrx_aarch64_random_x_v.Dataset.Fill.{
  Buffer, fill_single, check_request, filled, initialize_dataset_neon, initialize_dataset_portable,
}

-- A cache with lines, and with programs that execute with its table of reciprocals.
pub record IsReady (cache : Cache) : Type 0 where
  pub lines : 0 < cache_line_count cache
  pub runnable : (p : ℕ) → p < 8 → IsRunnable (some cache.reciprocal_cache) (cache.programs p)

rounds-total :
    (cache : Cache) (left p : ℕ) (r : Registers) (v : ℕ)
    → IsReady cache
    → p + left ≡ 8
    → (r' : Registers) × (item_rounds cache left p r v ≡ some r')
unfolding item_rounds
rounds-total cache zero p r v ready e = (r, refl)
rounds-total cache (suc left) p r v ready e =
    let positive = ready.lines in
    let nonempty : (cache_line_count cache == 0) ≡ false = ground arith in
    let (mixed, ran) =
      execute_superscalar-Runs (some cache.reciprocal_cache) (cache.programs p) r
        (ready.runnable p (omega arith)) in
    let line = the_line cache nonempty (v % cache_line_count cache) in
    let rl' = λ (q : ℕ). bit_xor (mixed q) (line q) in
    let (r', rest) =
      rounds-total cache left (p + 1) rl' (rl' (cache.programs p).address_register) ready
        (omega arith) in
    (r', rw (load-some cache nonempty (v % cache_line_count cache), ran) rest)

-- On a ready cache every item can be derived.
pub generate_dataset_item-total :
    (cache : Cache) (item_number : ℕ)
    → IsReady cache
    → (item : Item) × (generate_dataset_item cache item_number ≡ some item)
unfolding generate_dataset_item
generate_dataset_item-total cache item_number ready =
    let positive = ready.lines in
    let nonempty : (cache_line_count cache == 0) ≡ false = ground arith in
    rw nonempty (rounds-total cache 8 0 _ item_number ready refl)

-- The slots from `first` up to `last` hold the items from `start + first` on, and the others are
-- those of the buffer before.
pub record Holds (cache : Cache) (start first last : ℕ) (before after : Buffer) : Type 0 where
  pub item :
      (j : ℕ) → first ≤ j → j < last → generate_dataset_item cache (start + j) ≡ some (after j)
  pub below : (j : ℕ) → j < first → after j ≡ before j
  pub above : (j : ℕ) → last ≤ j → after j ≡ before j

fill_single-Holds :
    (cache : Cache) (start left offset : ℕ) (before : Buffer)
    → IsReady cache
    → (after : Buffer) × (fill_single cache start left offset before ≡ some after)
      × Holds cache start offset (offset + left) before after
unfolding fill_single
fill_single-Holds cache start zero offset before ready = (
  before,
  refl,
  record { item = λ j from to. absurd (omega arith); below = λ j lt. refl; above = λ j le. refl },
)
fill_single-Holds cache start (suc left) offset before ready =
    let (item, made) = generate_dataset_item-total cache (start + offset) ready in
    let (after, ran, holds) =
      fill_single-Holds cache start left (offset + 1) (update before offset item) ready in
    (
      after,
      rw made ran,
      record {
        item = λ j from to. elim (ℕ_discrete offset j) [
          | yes e ↦
              let kept : after offset ≡ item =
                holds.below offset (omega arith) ∙ update_self before offset item in
              rw (← e, kept) made
          | no ne ↦ holds.item j (omega arith) (omega arith)
        ];
        below = λ j lt. holds.below j (omega arith) ∙ update_ne before offset item j (omega arith);
        above = λ j le. holds.above j (omega arith) ∙ update_ne before offset item j (omega arith);
      },
    )

-- On a ready cache and for a request that passes the checks, `initialize_dataset` in its form for
-- AArch64 ends without an error: slot `j` below `item_count` then holds item `start_item + j` as
-- `generate_dataset_item` derives it, and the buffer is unchanged above.
pub initialize_dataset_neon-Holds :
    (cache : Cache) (output : Buffer) (output_size start_item item_count : ℕ)
    → IsReady cache
    → check_request output_size start_item item_count ≡ none
    → (after : Buffer) × (initialize_dataset_neon output output_size cache start_item item_count
        ≡ filled after)
      × Holds cache start_item 0 item_count output after
unfolding initialize_dataset_portable
initialize_dataset_neon-Holds cache output output_size start_item item_count ready accepted =
    let (after, ran, holds) = fill_single-Holds cache start_item item_count 0 output ready in
    (
      after,
      rw
          (
            initialize_dataset_neon-portable cache output output_size start_item item_count
                ready.lines,
            accepted,
            ran,
          )
          refl,
      record {
        item = λ j from to. holds.item j from (omega arith);
        below = holds.below;
        above = λ j le. holds.above j (omega arith);
      },
    )
