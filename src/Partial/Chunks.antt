-- ===== src/Partial/Chunks.antt =====
-- The chunks that `start_fill` of src/partial_dataset.cpp cuts the items into.
use native.Mathlib.Nat.{
  mul-zero, suc-mul, div-add-mod, mul-le-mul, mod-lt, mul-le-mul_right, mul-div-le,
}
use armrx_aarch64_random_x_v.Common.{
  ℕ, zero, suc, ◌+◌, ◌-◌, ◌*◌, ◌/◌, ◌≡◌, ◌<◌, ◌≤◌, arith, List, leb, Bool-cases, leb→le, leb→gt,
  inl, inr,
}
use armrx_aarch64_random_x_v.Dataset.Fill.{dataset_item_count}
use armrx_aarch64_random_x_v.Partial.Start.{num_workers, layout_of}
use armrx_aarch64_random_x_v.Partial.Invariant.{IsLayout}

num_workers-bounds :
    (total : ℕ) (cores : List ℕ)
    → 0 < total
    → total ≤ dataset_item_count
    → (0 < num_workers total cores)
      × (num_workers total cores ≤ 33)
      × ((num_workers total cores - 1) * 1048576 < total)
unfolding num_workers
num_workers-bounds total cores some_items small = (ground arith, ground arith, ground arith)

factor_positive : (w p : ℕ) → 0 < w * p → 0 < p
factor_positive w zero lt = absurd (omega (arith, mul-zero w))
factor_positive w (suc p) lt = omega arith

shares-cover : (total w : ℕ) → 0 < w → total ≤ w * ((total + w - 1) / w)
shares-cover total w positive =
    let split = div-add-mod (total + w - 1) w in
    let rest = mod-lt (total + w - 1) positive in omega arith

shares-nonempty :
    (total w : ℕ)
    → 0 < w
    → w ≤ 33
    → (w - 1) * 1048576 < total
    → (c : ℕ) → c < w
    → c * ((total + w - 1) / w) < total
shares-nonempty total zero positive small wide c lt = absurd (omega arith)
shares-nonempty total (suc v) positive small wide c lt =
    let p = (total + suc v - 1) / suc v in
    let most : suc v * p ≤ total + suc v - 1 = mul-div-le (total + suc v - 1) (suc v) in
    let cover : total ≤ suc v * p = shares-cover total (suc v) positive in
    let one_more : suc v * p ≡ v * p + p = suc-mul v p in
    let below : c * p ≤ v * p = mul-le-mul_right p (omega arith) in
    elim (Bool-cases (leb (suc v) p)) [
      | inl large ↦ let le = leb→le (suc v) p large in omega arith
      | inr little ↦
          let lt' = leb→gt (suc v) p little in
          let product : suc v * p ≤ 33 * 32 = mul-le-mul {m₂ = 32} small (omega arith) in
          let alone : c ≡ 0 = omega arith in rw alone (omega arith)
    ]

-- For every number of items in the dataset and every list of cores, the chunks of `start_fill` cover the
-- items and none of them is empty.
pub layout_of-IsLayout :
    (total : ℕ) (cores : List ℕ)
    → 0 < total
    → total ≤ dataset_item_count
    → IsLayout (layout_of total cores)
unfolding layout_of
layout_of-IsLayout total cores some_items small =
    let (positive, few, wide) = num_workers-bounds total cores some_items small in
    let w = num_workers total cores in
    let cover = shares-cover total w positive in
    let nonempty = shares-nonempty total w positive few wide in
    record {
      positive = factor_positive w ((total + w - 1) / w) (omega arith);
      some_chunk = positive;
      cover = cover;
      nonempty = nonempty;
      small = small;
    }
