-- ===== src/Partial/Worker.antt =====
-- `fill_worker` of src/partial_dataset.cpp as a step per atomic operation, and the threads together.
-- Atomic operations are taken in one order for all threads; memory orders are not modelled.
use armrx_aarch64_random_x_v.Common.{
  ℕ, ◌+◌, ◌-◌, ◌*◌, ◌/◌, ◌<◌, Bool, true, ◌&&◌, ◌||◌, not, if◌then◌else◌, ◌==◌, ltb, leb, update,
}
use armrx_aarch64_random_x_v.Dataset.Cache.{Cache, item_bytes}
use armrx_aarch64_random_x_v.Dataset.Fill.{
  Buffer, FillResult, filled, failed, initialize_dataset_neon,
}

abbrev pub fill_chunk_items : ℕ
fill_chunk_items = 64 * 1024 * 1024 / item_bytes

-- `allocated_items_`, `items_per_chunk_` and the size of `chunk_done_`, which do not change in a fill.
pub record Layout : Type 0 where
  pub allocated : ℕ
  pub per_chunk : ℕ
  pub chunks : ℕ

abbrev pub min_of : ℕ → ℕ → ℕ
min_of a b = if leb a b then a else b

abbrev pub chunk_start : Layout → ℕ → ℕ
chunk_start l c = c * l.per_chunk

abbrev pub chunk_end : Layout → ℕ → ℕ
chunk_end l c = min_of (chunk_start l c + l.per_chunk) l.allocated

-- What the threads share: the atomics and the buffer. `stop` is the token of this fill.
pub record Shared : Type 0 where
  pub chunk_done : ℕ → Bool
  pub contiguous : ℕ
  pub item_count : ℕ
  pub fill_complete : Bool
  pub fill_failed : Bool
  pub stop : Bool
  pub shutdown : Bool
  pub items : Buffer

-- Where a worker is, with its local variables.
pub data Pc : Type 0 where
  starting : Pc
  filling : (sub_start : ℕ) → Pc
  writing : (sub_start : ℕ) → Pc
  failing : Pc
  stopping : Pc
  marking : Pc
  loading : Pc
  advancing : (cursor : ℕ) → Pc
  exchanging : (cursor : ℕ) → Pc
  counting : (cursor prev : ℕ) → Pc
  raising : (cursor prev item_prev : ℕ) → Pc
  deciding : (cursor prev : ℕ) → Pc
  checking : Pc
  checking_end : Pc
  completing : Pc
  ended : Pc

-- The loads of both flags, which are never cleared in a fill, are one step.
abbrev pub is_stopped : Shared → Bool
is_stopped s = s.stop || s.shutdown

abbrev pub put_items : ℕ → ℕ → Buffer → Buffer → Buffer
put_items first count after items k =
    if leb first k && ltb k (first + count) then after (k - first) else items k

-- After `initialize_dataset`. The items that a call writes before it fails are left out; they are
-- unpublished, and no different from those that the call would have written.
unfoldable pub after_write : ℕ → ℕ → Shared → FillResult → Shared × Pc
after_write first count s (filled after) =
    (record s { items = put_items first count after s.items }, filling (first + count))
after_write first count s (failed e) = (s, failing)

abbrev pub sub_items : Layout → ℕ → ℕ → ℕ
sub_items l c sub_start = min_of (sub_start + fill_chunk_items) (chunk_end l c) - sub_start

unfoldable pub write_sub_chunk : Layout → Cache → ℕ → ℕ → Shared → Shared × Pc
unfolding after_write
write_sub_chunk l cache c sub_start s =
    let count = sub_items l c sub_start in
    after_write sub_start count s (
      initialize_dataset_neon (λ j. s.items (sub_start + j)) (count * item_bytes) cache sub_start
        count)

-- The items of the chunk that the cursor has passed.
abbrev pub chunk_span : Layout → ℕ → ℕ
chunk_span l owning =
    if ltb (owning + 1) l.chunks then l.per_chunk else l.allocated - owning * l.per_chunk

abbrev pub next_is_done : Layout → Shared → ℕ → Bool
next_is_done l s cursor =
    ltb cursor l.allocated
    && ltb (cursor / l.per_chunk) l.chunks
    && s.chunk_done (cursor / l.per_chunk)

-- One step of the worker of chunk `c`. A weak compare-and-exchange may fail though the values agree:
-- then `spurious` is true.
unfoldable pub worker_step : Layout → Cache → ℕ → Bool → Shared → Pc → Shared × Pc
unfolding write_sub_chunk
worker_step l cache c spurious s starting =
    if is_stopped s then (s, ended) else (s, filling (chunk_start l c))
worker_step l cache c spurious s (filling sub_start) =
    if ltb sub_start (chunk_end l c)
    then if is_stopped s then (s, ended) else (s, writing sub_start)
    else (s, marking)
worker_step l cache c spurious s (writing sub_start) = write_sub_chunk l cache c sub_start s
worker_step l cache c spurious s failing = (record s { fill_failed = true }, stopping)
worker_step l cache c spurious s stopping = (record s { stop = true }, ended)
worker_step l cache c spurious s marking =
    (record s { chunk_done = update s.chunk_done c true }, loading)
worker_step l cache c spurious s loading = (s, advancing s.contiguous)
worker_step l cache c spurious s (advancing cursor) =
    if next_is_done l s cursor
    then (s, advancing (cursor + chunk_span l (cursor / l.per_chunk)))
    else (s, exchanging cursor)
worker_step l cache c spurious s (exchanging cursor) =
    (record s { contiguous = cursor }, counting cursor s.contiguous)
worker_step l cache c spurious s (counting cursor prev) = (s, raising cursor prev s.item_count)
worker_step l cache c spurious s (raising cursor prev item_prev) =
    if ltb item_prev cursor
    then if s.item_count == item_prev && not spurious
      then (record s { item_count = cursor }, deciding cursor prev)
      else (s, raising cursor prev s.item_count)
    else (s, deciding cursor prev)
worker_step l cache c spurious s (deciding cursor prev) =
    if cursor == prev then (s, checking) else (s, loading)
worker_step l cache c spurious s checking = if is_stopped s then (s, ended) else (s, checking_end)
worker_step l cache c spurious s checking_end =
    if leb l.allocated s.contiguous then (s, completing) else (s, ended)
worker_step l cache c spurious s completing = (record s { fill_complete = true }, ended)
worker_step l cache c spurious s ended = (s, ended)

-- All threads of a fill.
pub record Fill : Type 0 where
  pub shared : Shared
  pub at : ℕ → Pc

unfoldable pub work : Layout → Cache → ℕ → Bool → Fill → Fill
unfolding worker_step
work l cache w spurious f =
    let next = worker_step l cache w spurious f.shared (f.at w) in
    record { shared = next.0; at = update f.at w next.1 }

-- A step of a worker, or one of the two stores of `cancel` in another thread.
pub data Step (l : Layout) (cache : Cache) : Fill → Fill → Type 0 where
  worker :
      (w : ℕ) (spurious : Bool) (f : Fill)
      → w < l.chunks
      → Step l cache f (work l cache w spurious f)
  shut_down :
      (f : Fill) → Step l cache f (record f { shared = record f.shared { shutdown = true } })
  signal_stop : (f : Fill) → Step l cache f (record f { shared = record f.shared { stop = true } })

pub data Reach (l : Layout) (cache : Cache) (from : Fill) : Fill → Type 0 where
  here : Reach l cache from from
  next : (f g : Fill) → Reach l cache from f → Step l cache f g → Reach l cache from g
