-- ===== src/Partial/Completed.antt =====
-- A fill that `start_fill` of src/partial_dataset.cpp started and whose workers have ended.
use armrx_aarch64_random_x_v.Common.{ℕ, ◌≡◌, ◌<◌, ◌≤◌, arith, refl, Bool, true, false, List, some}
use armrx_aarch64_random_x_v.Dataset.Cache.{Cache}
use armrx_aarch64_random_x_v.Dataset.Fill.{dataset_item_count}
use armrx_aarch64_random_x_v.Dataset.Items.{generate_dataset_item}
use armrx_aarch64_random_x_v.Dataset.Filled.{IsReady}
use armrx_aarch64_random_x_v.Partial.Worker.{Layout, Fill, Reach, ended, is_stopped}
use armrx_aarch64_random_x_v.Partial.Start.{
  PartialDataset, started, start_fill, waits_for_fill, waits_until_published,
}
use armrx_aarch64_random_x_v.Partial.Started.{
  initial_fill, initial_fill-IsFill, start_fill-IsRunning, start_fill-Safe,
}
use armrx_aarch64_random_x_v.Partial.Progress.{
  Reach-IsProgress, initial_fill-IsProgress, quiet-IsComplete,
}

-- However the atomic operations of the workers of a started fill interleave: once all workers have ended
-- and no flag was set, no bound was lost. All items are published, each as the cache derives it, the fill
-- is complete, and neither wait goes on.
pub start_fill-IsComplete :
    (pd pd' : PartialDataset) (has_cache : Bool) (core_order exclude : List ℕ) (cache : Cache)
    (l : Layout) (f g : Fill)
    → IsReady cache
    → pd.allocated_items ≤ dataset_item_count
    → start_fill pd has_cache core_order exclude ≡ started pd' l f
    → Reach l cache f g
    → ((w : ℕ) → w < l.chunks → g.at w ≡ ended)
    → is_stopped g.shared ≡ false
    → (g.shared.item_count ≡ pd.allocated_items)
      × (g.shared.fill_complete ≡ true)
      × ((j : ℕ) → j < pd.allocated_items → generate_dataset_item cache j ≡ some (g.shared.items j))
      × (waits_for_fill g.shared ≡ false)
      × (waits_until_published pd.allocated_items g.shared ≡ false)
unfolding waits_for_fill waits_until_published
start_fill-IsComplete pd pd' has_cache core_order exclude cache l f g ready small e reach quiet
      runs =
    let run = start_fill-IsRunning pd pd' has_cache core_order exclude cache l f g small e reach in
    let progress =
      Reach-IsProgress l cache run.layout ready (initial_fill pd l) g
        (initial_fill-IsFill pd l cache run.layout ready)
        (initial_fill-IsProgress l cache run.layout ready pd run.some_items) run.reach in
    let (most, complete) = quiet-IsComplete l cache run.layout ready g progress quiet runs in
    let (le, right, all) =
      start_fill-Safe pd pd' has_cache core_order exclude cache l f g ready small e reach in
    let allocated = run.allocated in
    (omega arith, complete, all complete, rw complete refl, ground arith)
