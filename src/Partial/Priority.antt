-- ===== src/Partial/Priority.antt =====
-- Who holds the lock of include/armrx/partial_dataset.hpp, and who gets it.
use armrx_aarch64_random_x_v.Common.{
  ℕ, ◌+◌, ◌-◌, ◌≡◌, ◌≢◌, ◌<◌, ◌≤◌, ◌⊎◌, inl, inr, arith, refl, ap, ◌∙◌, true, false, none, some,
  Bool-cases, ◌==◌, update, update_ne,
}
use armrx_aarch64_random_x_v.Partial.Lock.{
  RotationLock, Phase, outside, reading, waiting_to_write, writing, Threads, may_read, may_write,
  lock_shared, unlock_shared, announce, acquire, unlock, LockStep, enter_read, leave_read,
  ask_write, enter_write, leave_write, LockReach,
}
use armrx_aarch64_random_x_v.Partial.Exclusion.{
  count, count-update, counted, some_counted, one_if, one_if-le, is_reading, is_waiting, is_writing,
  reach-IsCounted, entered_read, entered_write,
}

-- For any number of threads and any order of their steps: while one thread writes, no other thread reads or
-- writes.
pub lock-excludes :
    (n : ℕ) (s : Threads) (w v : ℕ)
    → LockReach n s
    → w < n
    → v < n
    → w ≢ v
    → s.phase w ≡ writing
    → (s.phase v ≢ reading) × (s.phase v ≢ writing)
lock-excludes n s w v reach w_lt v_lt other w_writes =
    let inv = reach-IsCounted n s reach in
    let writer = inv.writer in
    let at_most = one_if-le s.lock.writer_active in
    let w_counts : is_writing (s.phase w) ≡ true = ap is_writing w_writes in
    let some_writer = counted n is_writing s.phase w w_lt w_counts in
    let active : s.lock.writer_active ≡ true = elim (Bool-cases s.lock.writer_active) [
      | inl yes_it ↦ yes_it
      | inr not_it ↦
          let none_active : one_if s.lock.writer_active ≡ 0 = ap one_if not_it in
          absurd (omega arith)
    ] in
    let no_readers = inv.exclusive active in
    let readers = inv.readers in
    let without : count n is_writing (update s.phase w outside) + one_if (is_writing (s.phase w))
        ≡ count n is_writing s.phase + 0 =
      count-update n is_writing s.phase w outside w_lt in
    let one_off : one_if (is_writing (s.phase w)) ≡ 1 = ap one_if w_counts in
    (
      λ v_reads.
          (let some_reader = counted n is_reading s.phase v v_lt (ap is_reading v_reads) in
            absurd (omega arith)),
      λ v_writes.
          (let still : is_writing (update s.phase w outside v) ≡ true =
              ap is_writing (update_ne s.phase w outside v other ∙ v_writes) in
            let another = counted n is_writing (update s.phase w outside) v v_lt still in
            absurd (omega arith)),
    )

reads : (p : Phase) → is_reading p ≡ true → p ≡ reading
reads outside e = cc
reads reading e = refl
reads waiting_to_write e = cc
reads writing e = cc

writes : (p : Phase) → is_writing p ≡ true → p ≡ writing
writes outside e = cc
writes reading e = cc
writes waiting_to_write e = cc
writes writing e = refl

readers_step :
    (n : ℕ) (s s' : Threads)
    → 0 < s.lock.waiting_writers
    → LockStep n s s'
    → s'.lock.active_readers ≤ s.lock.active_readers
unfolding unlock_shared announce unlock
readers_step n s s' some_waits (enter_read _ t lk lt e entered) =
    let (idle, none_waiting, same) = entered_read s.lock lk entered in absurd (omega arith)
readers_step n s s' some_waits (leave_read _ t lt e) = omega arith
readers_step n s s' some_waits (ask_write _ t lt e) = omega arith
readers_step n s s' some_waits (enter_write _ t lk lt e entered) =
    let (idle, none_reading, same) = entered_write s.lock lk entered in rw same (omega arith)
readers_step n s s' some_waits (leave_write _ t lt e) = omega arith

-- While a thread waits to write, in whatever state the threads have reached: no reader is let in, no step
-- raises the number of readers, and either a waiting writer can enter at once or some thread holds the lock.
pub waiting_writer-served :
    (n : ℕ) (s : Threads) (t : ℕ)
    → LockReach n s
    → t < n
    → s.phase t ≡ waiting_to_write
    → (lock_shared s.lock ≡ none)
      × ((s' : Threads) → LockStep n s s' → s'.lock.active_readers ≤ s.lock.active_readers)
      × (((lk : RotationLock) × (acquire s.lock ≡ some lk))
          ⊎ ((v : ℕ) × (v < n) × ((s.phase v ≡ reading) ⊎ (s.phase v ≡ writing))))
unfolding lock_shared acquire
waiting_writer-served n s t reach lt waits =
    let inv = reach-IsCounted n s reach in
    let readers = inv.readers in
    let waiting = inv.waiting in
    let writer = inv.writer in
    let some_waits : 0 < s.lock.waiting_writers =
      (let at_least = counted n is_waiting s.phase t lt (ap is_waiting waits) in omega arith) in
    let busy : may_read s.lock ≡ false = ground arith in
    (
      rw busy refl,
      λ s' step. readers_step n s s' some_waits step,
      elim (Bool-cases s.lock.writer_active) [
        | inl active ↦
            let one_writes : one_if s.lock.writer_active ≡ 1 = ap one_if active in
            let (v, v_lt, h) = some_counted n is_writing s.phase (omega arith) in
            inr (v, v_lt, inr (writes (s.phase v) h))
        | inr idle ↦ elim (Bool-cases (s.lock.active_readers == 0)) [
          | inl nobody ↦
              let free : may_write s.lock ≡ true = rw idle nobody in
              inl (
                record s.lock {
                  waiting_writers = s.lock.waiting_writers - 1;
                  writer_active = true;
                },
                rw free refl,
              )
          | inr somebody ↦
              let (v, v_lt, h) = some_counted n is_reading s.phase (ground arith) in
              inr (v, v_lt, inl (reads (s.phase v) h))
        ]
      ],
    )
