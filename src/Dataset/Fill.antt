-- ===== src/Dataset/Fill.antt =====
-- `initialize_dataset`, in the form for AArch64 and in the portable form.
use armrx_aarch64_random_x_v.Common.{
  ℕ, zero, suc, ◌+◌, ◌-◌, ◌*◌, ◌/◌, ◌^◌, Bool, Option, none, some, if◌then◌else◌, ◌==◌, ◌&&◌, not,
  ltb, leb, update, ◌>>=◌,
}
use armrx_aarch64_random_x_v.Dataset.Cache.{Cache, Item, item_bytes, cache_line_count}
use armrx_aarch64_random_x_v.Dataset.Items.{generate_dataset_item, generate_pair}

-- The output buffer by 64-byte slots.
abbrev pub Buffer : Type 0
Buffer = ℕ → Item

abbrev pub dataset_bytes : ℕ
dataset_bytes = 2 * 1024 * 1024 * 1024 + 32 * 1024 * 1024

abbrev pub dataset_item_count : ℕ
dataset_item_count = dataset_bytes / item_bytes

unfoldable pub dataset_range_is_valid : ℕ → ℕ → Bool
dataset_range_is_valid start_item item_count =
    leb start_item dataset_item_count && leb item_count (dataset_item_count - start_item)

module _ (cache : Cache) (start_item : ℕ) where
  -- The loop over single items, `left` of them from `offset` on.
  unfoldable pub fill_single : ℕ → ℕ → Buffer → Option Buffer
  fill_single zero offset output = some output
  fill_single (suc left) offset output = do
    item ← generate_dataset_item cache (start_item + offset)
    fill_single left (offset + 1) (update output offset item)

  -- The loop over pairs and then the leftover item.
  unfoldable pub fill_pairs : ℕ → ℕ → Buffer → Option Buffer
  fill_pairs zero offset output = some output
  fill_pairs (suc zero) offset output = do
    item ← generate_dataset_item cache (start_item + offset)
    some (update output offset item)
  fill_pairs (suc (suc left)) offset output = do
    vr ← generate_pair cache (start_item + offset) (start_item + offset + 1)
    fill_pairs left (offset + 2)
        (update (update output offset (λ q. (vr q).lane0)) (offset + 1) (λ q. (vr q).lane1))

pub data FillError : Type 0 where
  invalid_range too_many_items small_buffer no_lines item_failed : FillError

pub data FillResult : Type 0 where
  filled : Buffer → FillResult
  failed : FillError → FillResult

abbrev pub of_loop : Option Buffer → FillResult
of_loop none = failed item_failed
of_loop (some output) = filled output

-- The checks that both forms begin with.
unfoldable pub check_request : ℕ → ℕ → ℕ → Option FillError
unfolding dataset_range_is_valid
check_request output_size start_item item_count =
    if not (dataset_range_is_valid start_item item_count)
    then some invalid_range
    else if ltb ((2 ^ 64 - 1) / item_bytes) item_count
    then some too_many_items
    else if ltb output_size (item_count * item_bytes)
    then some small_buffer
    else none

abbrev pub after_checks : Option FillError → FillResult → FillResult
after_checks none result = result
after_checks (some e) result = failed e

unfoldable pub initialize_dataset_neon : Buffer → ℕ → Cache → ℕ → ℕ → FillResult
unfolding check_request fill_pairs
initialize_dataset_neon output output_size cache start_item item_count =
    after_checks (check_request output_size start_item item_count) (
      if cache_line_count cache == 0
      then failed no_lines
      else of_loop (fill_pairs cache start_item item_count 0 output))

unfoldable pub initialize_dataset_portable : Buffer → ℕ → Cache → ℕ → ℕ → FillResult
unfolding check_request fill_single
initialize_dataset_portable output output_size cache start_item item_count =
    after_checks (check_request output_size start_item item_count)
      (of_loop (fill_single cache start_item item_count 0 output))
