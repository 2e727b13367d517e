-- ===== src/Partial/Start.antt =====
-- The constructor of `PartialDataset`, `start_fill`, `cancel` and the conditions of the waits, of
-- src/partial_dataset.cpp. The threads are stepped elsewhere; cores are numbers.
use armrx_aarch64_random_x_v.Common.{
  ℕ, ◌+◌, ◌-◌, ◌/◌, ◌%◌, ◌^◌, Bool, true, false, ◌&&◌, ◌||◌, not, if◌then◌else◌, ◌==◌, ltb, leb,
  List, [], ◌∷◌, length, get_or,
}
use armrx_aarch64_random_x_v.Dataset.Cache.{item_bytes}
use armrx_aarch64_random_x_v.Dataset.Fill.{Buffer, dataset_item_count}
use armrx_aarch64_random_x_v.Partial.Worker.{
  Layout, Shared, Pc, starting, ended, Fill, fill_chunk_items, chunk_start, chunk_end, min_of,
}

pub record PartialDataset : Type 0 where
  pub allocated_items : ℕ
  pub shared : Shared
  pub generation : ℕ

pub data PartialError : Type 0 where
  exceeds_dataset overflows bad_alloc no_cache no_cores : PartialError

pub data Construction : Type 0 where
  constructed : PartialDataset → Construction
  refused : PartialError → Construction

-- The members' initial values.
abbrev pub unfilled : Bool → Buffer → Shared
unfilled complete items = record {
  chunk_done = λ c. false;
  contiguous = 0;
  item_count = 0;
  fill_complete = complete;
  fill_failed = false;
  stop = false;
  shutdown = false;
  items = items;
}

abbrev pub empty_items : Buffer
empty_items j q = 0

-- `mapped` tells whether `mmap` succeeds; its memory is zero.
unfoldable pub construct : Bool → ℕ → Construction
construct mapped item_count =
    if item_count == 0
    then constructed
        (record { allocated_items = 0; shared = unfilled true empty_items; generation = 0 })
    else if ltb dataset_item_count item_count
    then refused exceeds_dataset
    else if ltb ((2 ^ 64 - 1) / item_bytes) item_count
    then refused overflows
    else if not mapped
    then refused bad_alloc
    else constructed (record {
      allocated_items = item_count;
      shared = unfilled false empty_items;
      generation = 0;
    })

abbrev pub is_in : ℕ → List ℕ → Bool
is_in c [] = false
is_in c (d ∷ ds) = c == d || is_in c ds

abbrev pub not_excluded : List ℕ → List ℕ → List ℕ
not_excluded exclude [] = []
not_excluded exclude (c ∷ cs) =
    if is_in c exclude then not_excluded exclude cs else c ∷ not_excluded exclude cs

abbrev pub or_all : List ℕ → List ℕ → List ℕ
or_all [] cs = cs
or_all (c ∷ some_cores) cs = c ∷ some_cores

-- The cores of the fill: those not excluded, or all if none is left.
unfoldable pub avail_cores : List ℕ → List ℕ → List ℕ
avail_cores core_order exclude = or_all (not_excluded exclude core_order) core_order

abbrev pub max_of : ℕ → ℕ → ℕ
max_of a b = if leb a b then b else a

-- `num_workers`, the cast to 32 bits included.
unfoldable pub num_workers : ℕ → List ℕ → ℕ
num_workers total cores =
    min_of ((total + fill_chunk_items - 1) / fill_chunk_items) (max_of 1 (length cores)) % 2 ^ 32

-- `num_workers` chunks of as many items as they need.
unfoldable pub layout_of : ℕ → List ℕ → Layout
unfolding num_workers
layout_of total cores =
    let workers = num_workers total cores in
    record { allocated = total; per_chunk = (total + workers - 1) / workers; chunks = workers }

-- The core that worker `i` is pinned to.
abbrev pub worker_core : List ℕ → ℕ → ℕ
worker_core cores i = get_or cores (i % length cores) 0

-- A worker whose chunk is empty is not started.
unfoldable pub worker_start : Layout → ℕ → Pc
worker_start l c = if ltb (chunk_start l c) (chunk_end l c) then starting else ended

pub data StartResult : Type 0 where
  ignored : StartResult
  rejected : PartialError → StartResult
  started : PartialDataset → Layout → Fill → StartResult

-- The reset under the exclusive lock: a new token, not stopped, and the next generation.
unfoldable pub reset : PartialDataset → PartialDataset
reset pd = record pd {
  shared = record (unfilled false pd.shared.items) { shutdown = pd.shared.shutdown };
  generation = pd.generation + 1;
}

unfoldable pub start_fill : PartialDataset → Bool → List ℕ → List ℕ → StartResult
unfolding reset avail_cores layout_of worker_start
start_fill pd has_cache core_order exclude =
    if pd.allocated_items == 0
    then ignored
    else if pd.shared.shutdown
    then ignored
    else if not has_cache
    then rejected no_cache
    else if length core_order == 0
    then rejected no_cores
    else (let l = layout_of pd.allocated_items (avail_cores core_order exclude) in
        started (reset pd) l (record { shared = (reset pd).shared; at = worker_start l }))

-- The loops of `wait_for_fill` and `wait_until_published` go on while these hold.
unfoldable pub waits_for_fill : Shared → Bool
waits_for_fill s = not s.fill_complete && not s.stop && not s.shutdown

unfoldable pub waits_until_published : ℕ → Shared → Bool
waits_until_published count s = ltb s.item_count count && not s.stop && not s.shutdown
