-- ===== src/Partial/Tests.antt =====
-- A fill of three million items by two workers.
use armrx_aarch64_random_x_v.Common.{
  List, length, Bool, ℕ, ◌≡◌, ◌<◌, ◌≤◌, ◌⊎◌, not, ◌==◌, refl, arith, true, false, [], ◌∷◌, some,
}
use armrx_aarch64_random_x_v.Dataset.Fill.{dataset_item_count}
use armrx_aarch64_random_x_v.Dataset.Items.{generate_dataset_item}
use armrx_aarch64_random_x_v.Dataset.Tests.{cache, cache-IsReady}
use armrx_aarch64_random_x_v.Partial.Worker.{Layout, Fill, Reach, here, ended, is_stopped}
use armrx_aarch64_random_x_v.Partial.Start.{
  PartialDataset, unfilled, empty_items, construct, constructed, refused, exceeds_dataset,
  bad_alloc, no_cache, no_cores, ignored, rejected, waits_for_fill, waits_until_published, started,
  start_fill, reset, layout_of, avail_cores, num_workers,
}
use armrx_aarch64_random_x_v.Partial.Started.{initial_fill, start_fill-Safe}
use armrx_aarch64_random_x_v.Partial.Completed.{start_fill-IsComplete}
use armrx_aarch64_random_x_v.Partial.Finishes.{start_fill-finishes}
use armrx_aarch64_random_x_v.Partial.Invariant.{IsLayout}
use armrx_aarch64_random_x_v.Partial.Errors.{construct-answers, start_fill-answers}

abbrev three : PartialDataset
three = record { allocated_items = 3000000; shared = unfilled false empty_items; generation = 0 }

abbrev layout : Layout
layout = record { allocated = 3000000; per_chunk = 1500000; chunks = 2 }

starts :
    start_fill three true (0 ∷ 4 ∷ 5 ∷ []) (4 ∷ [])
    ≡ started (reset three) layout (initial_fill three layout)
unfolding start_fill layout_of avail_cores num_workers
starts = refl

first_core : avail_cores (0 ∷ 4 ∷ 5 ∷ []) (4 ∷ []) ≡ 0 ∷ 5 ∷ []
unfolding avail_cores
first_core = refl

start_fill-finishes_example :
    (h : Fill) × Reach layout cache (initial_fill three layout) h
    × ((w : ℕ) → w < 2 → h.at w ≡ ended)
    × (h.shared.item_count ≡ 3000000)
    × (h.shared.fill_complete ≡ true)
    × (is_stopped h.shared ≡ false)
unfolding reset
start_fill-finishes_example =
    start_fill-finishes three (reset three) true (0 ∷ 4 ∷ 5 ∷ []) (4 ∷ []) cache layout
      (initial_fill three layout) (initial_fill three layout) cache-IsReady (omega arith) starts
      here refl

finished :
    (h : Fill) × Reach layout cache (initial_fill three layout) h
    × ((w : ℕ) → w < 2 → h.at w ≡ ended)
    × (h.shared.item_count ≡ 3000000)
    × (h.shared.fill_complete ≡ true)
    × (is_stopped h.shared ≡ false)
unfolding reset
finished =
    start_fill-finishes three (reset three) true (0 ∷ 4 ∷ 5 ∷ []) (4 ∷ []) cache layout
      (initial_fill three layout) (initial_fill three layout) cache-IsReady (omega arith) starts
      here refl

-- The state at the end, in which all items are published.
abbrev last : Fill
last = finished.0

start_fill-Safe_example :
    (last.shared.item_count ≤ 3000000)
    × ((j : ℕ)
        → j < last.shared.item_count
        → generate_dataset_item cache j ≡ some (last.shared.items j))
    × (last.shared.fill_complete ≡ true
        → (j : ℕ) → j < 3000000
        → generate_dataset_item cache j ≡ some (last.shared.items j))
start_fill-Safe_example =
    start_fill-Safe three (reset three) true (0 ∷ 4 ∷ 5 ∷ []) (4 ∷ []) cache layout
      (initial_fill three layout) last cache-IsReady (omega arith) starts finished.1

start_fill-IsComplete_example :
    (last.shared.item_count ≡ 3000000)
    × (last.shared.fill_complete ≡ true)
    × ((j : ℕ) → j < 3000000 → generate_dataset_item cache j ≡ some (last.shared.items j))
    × (waits_for_fill last.shared ≡ false)
    × (waits_until_published 3000000 last.shared ≡ false)
start_fill-IsComplete_example =
    start_fill-IsComplete three (reset three) true (0 ∷ 4 ∷ 5 ∷ []) (4 ∷ []) cache layout
      (initial_fill three layout) last cache-IsReady (omega arith) starts finished.1 finished.2
      finished.5

abbrev asked : ℕ
asked = 3000000

abbrev mapped : Bool
mapped = true

construct-answers_example :
    ((dataset_item_count < asked) × (construct mapped asked ≡ refused exceeds_dataset))
    ⊎ (((0 < asked)
          × (asked ≤ dataset_item_count)
          × (mapped ≡ false)
          × (construct mapped asked ≡ refused bad_alloc))
        ⊎ ((pd : PartialDataset) × (construct mapped asked ≡ constructed pd)
            × (pd.allocated_items ≡ asked)
            × (asked ≤ dataset_item_count)
            × ((asked ≡ 0) ⊎ (mapped ≡ true))
            × (pd.shared.shutdown ≡ false)
            × (waits_for_fill pd.shared ≡ not (asked == 0))))
construct-answers_example = construct-answers mapped asked

abbrev has_cache : Bool
has_cache = true

abbrev one_core : List ℕ
one_core = 0 ∷ []

start_fill-answers_example :
    ((three.allocated_items ≡ 0) × (start_fill three has_cache one_core [] ≡ ignored))
    ⊎ (((0 < three.allocated_items)
          × (has_cache ≡ false)
          × (start_fill three has_cache one_core [] ≡ rejected no_cache))
        ⊎ (((0 < three.allocated_items)
              × (has_cache ≡ true)
              × (length one_core ≡ 0)
              × (start_fill three has_cache one_core [] ≡ rejected no_cores))
            ⊎ ((0 < three.allocated_items)
                × (has_cache ≡ true)
                × (0 < length one_core)
                × ((l : Layout) × (start_fill three has_cache one_core []
                      ≡ started (reset three) l (initial_fill three l))
                    × (l.allocated ≡ three.allocated_items)
                    × IsLayout l))))
start_fill-answers_example = start_fill-answers three has_cache one_core [] (omega arith) refl
