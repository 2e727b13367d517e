-- ===== src/Partial/Errors.antt =====
-- What the constructor of `PartialDataset` and `start_fill` of src/partial_dataset.cpp answer to requests.
use armrx_aarch64_random_x_v.Common.{
  ℕ, zero, suc, ◌/◌, ◌-◌, ◌^◌, ◌≡◌, ◌<◌, ◌≤◌, ◌⊎◌, inl, inr, arith, refl, Bool, true, false, not,
  Bool-cases, List, [], ◌∷◌, length, ◌==◌, ltb, ltb→lt, ltb→ge,
}
use armrx_aarch64_random_x_v.Dataset.Cache.{item_bytes}
use armrx_aarch64_random_x_v.Dataset.Fill.{dataset_item_count}
use armrx_aarch64_random_x_v.Partial.Worker.{Layout}
use armrx_aarch64_random_x_v.Partial.Start.{
  PartialDataset, construct, constructed, refused, exceeds_dataset, bad_alloc, no_cache, no_cores,
  start_fill, ignored, rejected, started, reset, layout_of, avail_cores, waits_for_fill, unfilled,
  empty_items,
}
use armrx_aarch64_random_x_v.Partial.Started.{initial_fill}
use armrx_aarch64_random_x_v.Partial.Invariant.{IsLayout}
use armrx_aarch64_random_x_v.Partial.Chunks.{layout_of-IsLayout}

-- The constructor refuses more items than the dataset has, and otherwise items for which no memory can be mapped,
-- and nothing else: without items, or with as many as the dataset has at most and mapped memory, it makes an
-- object with the items asked for, which waits for a fill unless it has none. The three cases exclude one another.
pub construct-answers :
    (mapped : Bool) (item_count : ℕ)
    → ((dataset_item_count < item_count) × (construct mapped item_count ≡ refused exceeds_dataset))
      ⊎ (((0 < item_count)
            × (item_count ≤ dataset_item_count)
            × (mapped ≡ false)
            × (construct mapped item_count ≡ refused bad_alloc))
          ⊎ ((pd : PartialDataset) × (construct mapped item_count ≡ constructed pd)
              × (pd.allocated_items ≡ item_count)
              × (item_count ≤ dataset_item_count)
              × ((item_count ≡ 0) ⊎ (mapped ≡ true))
              × (pd.shared.shutdown ≡ false)
              × (waits_for_fill pd.shared ≡ not (item_count == 0))))
unfolding construct waits_for_fill
construct-answers mapped zero = inr (inr (_, refl, refl, omega arith, inl refl, refl, refl))
construct-answers mapped (suc n) =
    let some_items : (suc n == 0) ≡ false = ground arith in
    elim (Bool-cases (ltb dataset_item_count (suc n))) [
      | inl large ↦ inl (ltb→lt _ _ large, rw (some_items, large) refl)
      | inr small ↦
          let le : suc n ≤ dataset_item_count = ltb→ge dataset_item_count (suc n) small in
          let fits : ltb ((2 ^ 64 - 1) / item_bytes) (suc n) ≡ false = ground arith in
          elim (Bool-cases mapped) [
            | inl yes_it ↦ inr (
                inr (
                  record {
                    allocated_items = suc n;
                    shared = unfilled false empty_items;
                    generation = 0;
                  },
                  rw (some_items, small, fits, yes_it) refl,
                  refl,
                  le,
                  inr yes_it,
                  refl,
                  rw some_items refl,
                ))
            | inr not_it ↦
                inr (inl (omega arith, le, not_it, rw (some_items, small, fits, not_it) refl))
          ]
    ]

length_positive : (c : ℕ) (cs : List ℕ) → (length (c ∷ cs) == 0) ≡ false
length_positive c cs = ground arith

-- On an object that the constructor made, `start_fill` does nothing if there are no items; with items it rejects
-- a missing cache, with a cache it rejects an empty list of cores, and with items, a cache and a core it starts
-- workers on chunks that cover the items, none of them empty. The four cases exclude one another.
pub start_fill-answers :
    (pd : PartialDataset) (has_cache : Bool) (core_order exclude : List ℕ)
    → pd.allocated_items ≤ dataset_item_count
    → pd.shared.shutdown ≡ false
    → ((pd.allocated_items ≡ 0) × (start_fill pd has_cache core_order exclude ≡ ignored))
      ⊎ (((0 < pd.allocated_items)
            × (has_cache ≡ false)
            × (start_fill pd has_cache core_order exclude ≡ rejected no_cache))
          ⊎ (((0 < pd.allocated_items)
                × (has_cache ≡ true)
                × (length core_order ≡ 0)
                × (start_fill pd has_cache core_order exclude ≡ rejected no_cores))
              ⊎ ((0 < pd.allocated_items)
                  × (has_cache ≡ true)
                  × (0 < length core_order)
                  × ((l : Layout) × (start_fill pd has_cache core_order exclude
                        ≡ started (reset pd) l (initial_fill pd l))
                      × (l.allocated ≡ pd.allocated_items)
                      × IsLayout l))))
unfolding start_fill layout_of
start_fill-answers pd has_cache core_order exclude small running =
    elim (Bool-cases (pd.allocated_items == 0)) [
      | inl none_left ↦ inl (ground arith, rw none_left refl)
      | inr some_items ↦
          let positive : 0 < pd.allocated_items = ground arith in
          inr (elim (Bool-cases has_cache) [
            | inr missing ↦ inl (positive, missing, rw (some_items, running, missing) refl)
            | inl cached ↦ inr (cores_answer core_order positive some_items cached)
          ])
    ]
  where
    cores_answer :
        (cores : List ℕ)
        → 0 < pd.allocated_items
        → (pd.allocated_items == 0) ≡ false
        → has_cache ≡ true
        → ((0 < pd.allocated_items)
            × (has_cache ≡ true)
            × (length cores ≡ 0)
            × (start_fill pd has_cache cores exclude ≡ rejected no_cores))
          ⊎ ((0 < pd.allocated_items)
              × (has_cache ≡ true)
              × (0 < length cores)
              × ((l : Layout) × (start_fill pd has_cache cores exclude
                    ≡ started (reset pd) l (initial_fill pd l))
                  × (l.allocated ≡ pd.allocated_items)
                  × IsLayout l))
    cores_answer [] positive some_items cached =
        inl (positive, cached, refl, rw (some_items, running, cached) refl)
    cores_answer (c ∷ cores) positive some_items cached =
        let l = layout_of pd.allocated_items (avail_cores (c ∷ cores) exclude) in
        inr (
          positive,
          cached,
          omega arith,
          (
            l,
            rw (some_items, running, cached) (rw (length_positive c cores) refl),
            refl,
            layout_of-IsLayout pd.allocated_items (avail_cores (c ∷ cores) exclude) positive small,
          ),
        )
