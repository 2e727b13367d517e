-- ===== src/Partial/Started.antt =====
-- A fill from `start_fill` of src/partial_dataset.cpp on.
use armrx_aarch64_random_x_v.Common.{
  ℕ, ◌≡◌, ◌<◌, ◌≤◌, ◌==◌, arith, refl, ap, sym, subst, Bool, true, false, List, length, not,
  if◌then◌else◌, some, inl, lt→ltb,
}
use armrx_aarch64_random_x_v.Dataset.Cache.{Cache}
use armrx_aarch64_random_x_v.Dataset.Fill.{dataset_item_count}
use armrx_aarch64_random_x_v.Dataset.Items.{generate_dataset_item}
use armrx_aarch64_random_x_v.Dataset.Filled.{IsReady}
use armrx_aarch64_random_x_v.Partial.Worker.{Layout, starting, Fill, chunk_start, chunk_end, Reach}
use armrx_aarch64_random_x_v.Partial.Start.{
  PartialDataset, StartResult, started, start_fill, reset, layout_of, avail_cores, worker_start,
}
use armrx_aarch64_random_x_v.Partial.Invariant.{IsLayout, IsPrefix, Knows, IsBefore, prefix-Correct}
use armrx_aarch64_random_x_v.Partial.Chunks.{layout_of-IsLayout}
use armrx_aarch64_random_x_v.Partial.Safe.{IsFill, Reach-IsFill}

past_guard :
    (guard : Bool) {x y z : StartResult}
    → (x ≡ z → ⊥)
    → (if guard then x else y) ≡ z
    → (guard ≡ false) × (y ≡ z)
past_guard true other e = absurd (other e)
past_guard false other e = (refl, e)

-- What `start_fill` starts.
pub start_fill-started :
    (pd pd' : PartialDataset) (has_cache : Bool) (core_order exclude : List ℕ) (l : Layout)
    (f : Fill)
    → start_fill pd has_cache core_order exclude ≡ started pd' l f
    → (0 < pd.allocated_items)
      × (pd.shared.shutdown ≡ false)
      × (layout_of pd.allocated_items (avail_cores core_order exclude) ≡ l)
      × (record { shared = (reset pd).shared; at = worker_start l } ≡ f)
unfolding start_fill
start_fill-started pd pd' has_cache core_order exclude l f e =
    let (some_items, e₁) = past_guard (pd.allocated_items == 0) (λ h. cc) e in
    let (running, e₂) = past_guard pd.shared.shutdown (λ h. cc) e₁ in
    let (cached, e₃) = past_guard (not has_cache) (λ h. cc) e₂ in
    let (cores, e₄) = past_guard (length core_order == 0) (λ h. cc) e₃ in
    (ground arith, running, cc, cc)

pub worker_start-starting :
    (l : Layout) → IsLayout l → (w : ℕ) → w < l.chunks → worker_start l w ≡ starting
unfolding worker_start
worker_start-starting l layout w lt =
    let positive = layout.positive in
    let begins = layout.nonempty w lt in
    rw (lt→ltb (chunk_start l w) (chunk_end l w) (ground arith)) refl

-- The state that the workers start in.
abbrev pub initial_fill : PartialDataset → Layout → Fill
initial_fill pd l = record { shared = (reset pd).shared; at = worker_start l }

pub initial_fill-IsFill :
    (pd : PartialDataset) (l : Layout) (cache : Cache) (layout : IsLayout l) (ready : IsReady cache)
    → IsFill l cache layout ready (initial_fill pd l)
unfolding reset Knows IsBefore
initial_fill-IsFill pd l cache layout ready =
    let some_chunk = layout.some_chunk in
    let nothing : IsPrefix l cache (λ c. false) 0 = record {
      k = 0;
      within = omega arith;
      is_bound = ground arith;
      all_done = λ c lt. absurd (omega arith);
    } in
    record {
      shared = record {
        done = λ c lt e. cc;
        contiguous = nothing;
        item_count = nothing;
        complete = λ e. cc;
      };
      knows = λ w lt. rw (worker_start-starting l layout w lt) tt;
      owns = λ w lt undone. inl (rw (worker_start-starting l layout w lt) tt);
    }

-- A fill that `start_fill` started, and what it has reached.
pub record IsRunning (pd : PartialDataset) (cache : Cache) (l : Layout) (g : Fill) : Type 0 where
  pub allocated : l.allocated ≡ pd.allocated_items
  pub some_items : 0 < l.allocated
  pub running : pd.shared.shutdown ≡ false
  pub layout : IsLayout l
  pub reach : Reach l cache (initial_fill pd l) g

pub start_fill-IsRunning :
    (pd pd' : PartialDataset) (has_cache : Bool) (core_order exclude : List ℕ) (cache : Cache)
    (l : Layout) (f g : Fill)
    → pd.allocated_items ≤ dataset_item_count
    → start_fill pd has_cache core_order exclude ≡ started pd' l f
    → Reach l cache f g
    → IsRunning pd cache l g
unfolding layout_of
start_fill-IsRunning pd pd' has_cache core_order exclude cache l f g small e reach =
    let (some_items, running, is_l, is_f) =
      start_fill-started pd pd' has_cache core_order exclude l f e in
    let layout =
      subst IsLayout is_l
        (layout_of-IsLayout pd.allocated_items (avail_cores core_order exclude) some_items small) in
    let allocated : l.allocated ≡ pd.allocated_items = ap (λ l'. l'.allocated) (sym is_l) in
    record {
      allocated = allocated;
      some_items = omega arith;
      running = running;
      layout = layout;
      reach = subst (λ from. Reach l cache from g) (sym is_f) reach;
    }

-- While the workers of a started fill run, in any order of their atomic operations and with any
-- cancellation: the published count is at most the items of the dataset, every item below it is the one
-- that the cache derives, and once the fill is complete all items are.
pub start_fill-Safe :
    (pd pd' : PartialDataset) (has_cache : Bool) (core_order exclude : List ℕ) (cache : Cache)
    (l : Layout) (f g : Fill)
    → IsReady cache
    → pd.allocated_items ≤ dataset_item_count
    → start_fill pd has_cache core_order exclude ≡ started pd' l f
    → Reach l cache f g
    → (g.shared.item_count ≤ pd.allocated_items)
      × ((j : ℕ)
          → j < g.shared.item_count
          → generate_dataset_item cache j ≡ some (g.shared.items j))
      × (g.shared.fill_complete ≡ true
          → (j : ℕ) → j < pd.allocated_items
          → generate_dataset_item cache j ≡ some (g.shared.items j))
start_fill-Safe pd pd' has_cache core_order exclude cache l f g ready small e reach =
    let run = start_fill-IsRunning pd pd' has_cache core_order exclude cache l f g small e reach in
    let inv =
      Reach-IsFill l cache run.layout ready (initial_fill pd l) g
        (initial_fill-IsFill pd l cache run.layout ready) run.reach in
    let (le, right) =
      prefix-Correct l cache g.shared g.shared.item_count run.layout inv.shared.done
        inv.shared.item_count in
    let allocated = run.allocated in
    (omega arith, right, λ complete j lt. inv.shared.complete complete j (omega arith))
