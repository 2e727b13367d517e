-- ===== src/Dataset/Lanes.antt =====
-- The vector loop of `initialize_dataset` in src/dataset.cpp against `generate_dataset_item`.
use mathlib.Core.Option
use armrx_aarch64_random_x_v.Common.{
  ℕ, zero, suc, ◌+◌, ◌≡◌, ◌<◌, refl, arith, false, some, inl, inr, Option-cases, ◌==◌, ◌%◌, ◌/◌,
  ◌*◌,
}
use armrx_aarch64_random_x_v.Superscalar.Neon.{Vectors, execute_superscalar_neon}
use armrx_aarch64_random_x_v.Superscalar.Lanes.{Lane, low, high, lane, neon-lane}
use armrx_aarch64_random_x_v.Dataset.Cache.{
  Cache, Item, cache_line_count, load_cache_line, lines_per_block,
}
use armrx_aarch64_random_x_v.Dataset.Items.{
  item_rounds, generate_dataset_item, pair_rounds, generate_pair,
}
use armrx_aarch64_random_x_v.Dataset.Fill.{
  Buffer, fill_single, fill_pairs, initialize_dataset_neon, initialize_dataset_portable,
}

module _ (cache : Cache) (nonempty : (cache_line_count cache == 0) ≡ false) where
  abbrev pub the_line : ℕ → Item
  the_line index q =
      let line = index % cache_line_count cache in
      cache.block (line / lines_per_block) (line % lines_per_block * 8 + q)

  pub load-some : (index : ℕ) → load_cache_line cache index ≡ some (the_line index)
  unfolding load_cache_line
  load-some index = rw nonempty refl

  abbrev pick : Lane → ℕ → ℕ → ℕ
  pick low x y = x
  pick high x y = y

  rounds-lane :
      (k : Lane) (left p : ℕ) (vr : Vectors) (v0 v1 : ℕ)
      → Option.map (lane k) (pair_rounds cache left p vr v0 v1)
        ≡ item_rounds cache left p (lane k vr) (pick k v0 v1)
  unfolding pair_rounds item_rounds
  rounds-lane k zero p vr v0 v1 = refl
  rounds-lane low (suc left) p vr v0 v1 =
      rw (load-some (v0 % cache_line_count cache), load-some (v1 % cache_line_count cache))
        (elim (Option-cases
          (execute_superscalar_neon (some cache.reciprocal_cache) (cache.programs p) vr)) [
            | inl fails ↦
                rw (← neon-lane (some cache.reciprocal_cache) low (cache.programs p) vr, fails) refl
            | inr (mixed, ran) ↦
                rw (← neon-lane (some cache.reciprocal_cache) low (cache.programs p) vr, ran)
                  (rounds-lane low left (p + 1) _ _ _)
          ])
  rounds-lane high (suc left) p vr v0 v1 =
      rw (load-some (v0 % cache_line_count cache), load-some (v1 % cache_line_count cache))
        (elim (Option-cases
          (execute_superscalar_neon (some cache.reciprocal_cache) (cache.programs p) vr)) [
            | inl fails ↦
                rw (← neon-lane (some cache.reciprocal_cache) high (cache.programs p) vr, fails)
                  refl
            | inr (mixed, ran) ↦
                rw (← neon-lane (some cache.reciprocal_cache) high (cache.programs p) vr, ran)
                  (rounds-lane high left (p + 1) _ _ _)
          ])

  -- A lane of a derived pair is the item of that lane.
  pub pair-lane :
      (k : Lane) (item0 item1 : ℕ)
      → Option.map (lane k) (generate_pair cache item0 item1)
        ≡ generate_dataset_item cache (pick k item0 item1)
  unfolding generate_pair generate_dataset_item
  pair-lane low item0 item1 = rw nonempty (rounds-lane low 8 0 _ item0 item1)
  pair-lane high item0 item1 = rw nonempty (rounds-lane high 8 0 _ item0 item1)

  fill-agrees :
      (start left offset : ℕ) (output : Buffer)
      → fill_pairs cache start left offset output ≡ fill_single cache start left offset output
  unfolding fill_pairs fill_single
  fill-agrees start zero offset output = refl
  fill-agrees start (suc zero) offset output = refl
  fill-agrees start (suc (suc left)) offset output =
      let next : start + (offset + 1) ≡ start + offset + 1 = omega arith in
      let after : offset + 1 + 1 ≡ offset + 2 = omega arith in
      rw (next, after)
        (elim (Option-cases (generate_pair cache (start + offset) (start + offset + 1))) [
          | inl fails ↦ rw (← pair-lane low (start + offset) (start + offset + 1), fails) refl
          | inr (vr, ran) ↦
              rw
                (
                  ← pair-lane low (start + offset) (start + offset + 1),
                  ← pair-lane high (start + offset) (start + offset + 1),
                  ran,
                )
                (fill-agrees start left (offset + 2) _)
        ])

-- On a cache with at least one line, the form for AArch64 and the portable form of
-- `initialize_dataset` give the same result, for every request: the same buffer or the same error.
pub initialize_dataset_neon-portable :
    (cache : Cache) (output : Buffer) (output_size start_item item_count : ℕ)
    → 0 < cache_line_count cache
    → initialize_dataset_neon output output_size cache start_item item_count
      ≡ initialize_dataset_portable output output_size cache start_item item_count
unfolding initialize_dataset_neon initialize_dataset_portable
initialize_dataset_neon-portable cache output output_size start_item item_count positive =
    let nonempty : (cache_line_count cache == 0) ≡ false = ground arith in
    rw (nonempty, fill-agrees cache nonempty start_item item_count 0 output) refl
