-- ===== src/Partial/Invariant.antt =====
-- What holds while the workers of src/partial_dataset.cpp fill and publish.
use native.Mathlib.Nat.{suc-mul, div-mul-le_self, div-lt_iff_lt-mul}
use armrx_aarch64_random_x_v.Common.{
  ℕ, suc, ◌+◌, ◌*◌, ◌/◌, ◌≡◌, ◌<◌, ◌≤◌, ◌⊎◌, inl, inr, arith, Bool, true, false, if◌then◌else◌, ltb,
  some, Bool-cases, ltb→lt,
}
use armrx_aarch64_random_x_v.Dataset.Cache.{Cache}
use armrx_aarch64_random_x_v.Dataset.Fill.{Buffer, dataset_item_count}
use armrx_aarch64_random_x_v.Dataset.Items.{generate_dataset_item}
use armrx_aarch64_random_x_v.Partial.Worker.{
  Layout, Shared, Pc, starting, filling, writing, failing, stopping, marking, advancing, exchanging,
  counting, raising, completing, chunk_start, chunk_end, min_of, is_stopped,
}

-- No chunk is empty, the chunks reach to the end, and the end is in the dataset.
pub record IsLayout (l : Layout) : Type 0 where
  pub positive : 0 < l.per_chunk
  pub some_chunk : 0 < l.chunks
  pub cover : l.allocated ≤ l.chunks * l.per_chunk
  pub nonempty : (c : ℕ) → c < l.chunks → c * l.per_chunk < l.allocated
  pub small : l.allocated ≤ dataset_item_count

min_of-gt : (a b j : ℕ) → j < a → j < b → j < min_of a b
min_of-gt a b j lt lt' = ground arith

-- Where the first `k` chunks end.
abbrev pub bound : Layout → ℕ → ℕ
bound l k = if ltb k l.chunks then k * l.per_chunk else l.allocated

module _ (l : Layout) (cache : Cache) where
  abbrev pub Correct : Buffer → ℕ → Type 0
  Correct items j = generate_dataset_item cache j ≡ some (items j)

  abbrev pub ChunkCorrect : Buffer → ℕ → Type 0
  ChunkCorrect items c = (j : ℕ) → chunk_start l c ≤ j → j < chunk_end l c → Correct items j

  -- `n` is where some chunks end, all of which are done.
  pub record IsPrefix (done : ℕ → Bool) (n : ℕ) : Type 0 where
    pub k : ℕ
    pub within : k ≤ l.chunks
    pub is_bound : n ≡ bound l k
    pub all_done : (c : ℕ) → c < k → done c ≡ true

  abbrev pub Stopped : Shared → Type 0
  Stopped s = is_stopped s ≡ true

  -- What a worker that has not yet marked its chunk is at.
  unfoldable pub IsBefore : Pc → Type 0
  IsBefore starting = Unit
  IsBefore (filling sub_start) = Unit
  IsBefore (writing sub_start) = Unit
  IsBefore failing = Unit
  IsBefore stopping = Unit
  IsBefore marking = Unit
  IsBefore _ = ⊥

  abbrev pub FilledTo : Shared → ℕ → ℕ → Type 0
  FilledTo s c n =
      (chunk_start l c ≤ n)
      × (n ≤ chunk_end l c)
      × ((j : ℕ) → chunk_start l c ≤ j → j < n → Correct s.items j)

  abbrev pub AllCorrect : Buffer → Type 0
  AllCorrect items = (j : ℕ) → j < l.allocated → Correct items j

  -- What the worker of chunk `c` knows where it is.
  unfoldable pub Knows : Shared → ℕ → Pc → Type 0
  Knows s c (filling sub_start) = FilledTo s c sub_start
  Knows s c (writing sub_start) = FilledTo s c sub_start × (sub_start < chunk_end l c)
  Knows s c failing = ⊥
  Knows s c stopping = ⊥
  Knows s c marking = ChunkCorrect s.items c
  Knows s c (advancing cursor) = IsPrefix s.chunk_done cursor
  Knows s c (exchanging cursor) = IsPrefix s.chunk_done cursor
  Knows s c (counting cursor prev) = IsPrefix s.chunk_done cursor
  Knows s c (raising cursor prev item_prev) =
      IsPrefix s.chunk_done cursor × (item_prev ≤ s.item_count)
  Knows s c completing = AllCorrect s.items
  Knows s c _ = Unit

  -- The owner of a chunk that is not done is before its mark, or the fill is stopped.
  abbrev pub Owns : Shared → ℕ → Pc → Type 0
  Owns s c pc = s.chunk_done c ≡ false → IsBefore pc ⊎ Stopped s

  pub record IsShared (s : Shared) : Type 0 where
    pub done : (c : ℕ) → c < l.chunks → s.chunk_done c ≡ true → ChunkCorrect s.items c
    pub contiguous : IsPrefix s.chunk_done s.contiguous
    pub item_count : IsPrefix s.chunk_done s.item_count
    pub complete : s.fill_complete ≡ true → AllCorrect s.items

  -- `t` is later than `s`.
  pub record Later (s t : Shared) : Type 0 where
    pub done : (c : ℕ) → s.chunk_done c ≡ true → t.chunk_done c ≡ true
    pub correct : (j : ℕ) → Correct s.items j → Correct t.items j
    pub stopped : Stopped s → Stopped t
    pub complete : s.fill_complete ≡ true → t.fill_complete ≡ true
    pub count : s.item_count ≤ t.item_count

  pub Later-prefix :
      (s t : Shared) (n : ℕ) → Later s t → IsPrefix s.chunk_done n → IsPrefix t.chunk_done n
  Later-prefix s t n later p = record {
    k = p.k;
    within = p.within;
    is_bound = p.is_bound;
    all_done = λ c lt. later.done c (p.all_done c lt);
  }

  pub Later-Knows : (s t : Shared) (c : ℕ) (pc : Pc) → Later s t → Knows s c pc → Knows t c pc
  unfolding Knows
  Later-Knows s t c (filling sub_start) later (from, to, all) =
      (from, to, λ j a b. later.correct j (all j a b))
  Later-Knows s t c (writing sub_start) later ((from, to, all), lt) =
      ((from, to, λ j a b. later.correct j (all j a b)), lt)
  Later-Knows s t c failing later p = p
  Later-Knows s t c stopping later p = p
  Later-Knows s t c marking later all = λ j a b. later.correct j (all j a b)
  Later-Knows s t c (advancing cursor) later p = Later-prefix s t cursor later p
  Later-Knows s t c (exchanging cursor) later p = Later-prefix s t cursor later p
  Later-Knows s t c (counting cursor prev) later p = Later-prefix s t cursor later p
  Later-Knows s t c (raising cursor prev item_prev) later (p, le) =
      let count = later.count in (Later-prefix s t cursor later p, omega arith)
  Later-Knows s t c completing later all = λ j lt. later.correct j (all j lt)
  Later-Knows s t c _ later p = tt

  pub bound-le :
      (k : ℕ)
      → IsLayout l
      → k ≤ l.chunks
      → (bound l k ≤ l.allocated) × (bound l k ≤ k * l.per_chunk)
  bound-le k layout within = elim (Bool-cases (ltb k l.chunks)) [
    | inl lt ↦
        let start = layout.nonempty k (ltb→lt k l.chunks lt) in rw lt (omega arith, omega arith)
    | inr ge ↦
        let last : k ≡ l.chunks = ground arith in
        let cover = layout.cover in rw ge (omega arith, rw last cover)
  ]

  -- Items below the end of done chunks are right.
  pub prefix-Correct :
      (s : Shared) (n : ℕ)
      → IsLayout l
      → ((c : ℕ) → c < l.chunks → s.chunk_done c ≡ true → ChunkCorrect s.items c)
      → IsPrefix s.chunk_done n
      → (n ≤ l.allocated) × ((j : ℕ) → j < n → Correct s.items j)
  prefix-Correct s n layout done p =
      let (below, reach) = bound-le p.k layout p.within in
      let is_bound = p.is_bound in
      let within = p.within in
      (
        omega arith,
        λ j lt.
            let c = j / l.per_chunk in
            let in_prefix : c < p.k = (div-lt_iff_lt-mul layout.positive).1 (omega arith) in
            let start : c * l.per_chunk ≤ j = div-mul-le_self j l.per_chunk in
            let end : j < suc c * l.per_chunk =
              (div-lt_iff_lt-mul layout.positive).0 (omega arith) in
            done c (omega arith) (p.all_done c in_prefix) j start (
              min_of-gt (chunk_start l c + l.per_chunk) l.allocated j
                (omega (arith, suc-mul c l.per_chunk)) (omega arith)),
      )
