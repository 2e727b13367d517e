-- ===== src/Partial/LockTests.antt =====
-- Two threads and the lock: one reads while the other waits to write, or one writes.
use armrx_aarch64_random_x_v.Common.{
  ℕ, ◌≡◌, ◌≢◌, ◌<◌, ◌≤◌, ◌⊎◌, refl, arith, true, false, none, some,
}
use armrx_aarch64_random_x_v.Partial.Lock.{
  RotationLock, unlocked, outside, reading, waiting_to_write, writing, Threads, move, lock_shared,
  announce, acquire, LockStep, enter_read, ask_write, enter_write, LockReach, begin, then_step,
}
use armrx_aarch64_random_x_v.Partial.Priority.{lock-excludes, waiting_writer-served}

abbrev all_outside : Threads
all_outside = record { lock = unlocked; phase = λ t. outside }

abbrev one_reads : Threads
one_reads = move all_outside 0 reading (record unlocked { active_readers = 1 })

abbrev one_waits : Threads
one_waits =
    move one_reads 1 waiting_to_write
      (record { active_readers = 1; waiting_writers = 1; writer_active = false })

waits-LockReach : LockReach 2 one_waits
unfolding lock_shared announce
waits-LockReach =
    then_step one_reads one_waits
      (then_step all_outside one_reads begin
        (enter_read all_outside 0 (record unlocked { active_readers = 1 }) (omega arith) refl refl))
      (ask_write one_reads 1 (omega arith) refl)

waiting_writer-served_example :
    (lock_shared one_waits.lock ≡ none)
    × ((s' : Threads) → LockStep 2 one_waits s' → s'.lock.active_readers ≤ 1)
    × (((lk : RotationLock) × (acquire one_waits.lock ≡ some lk))
        ⊎ ((v : ℕ) × (v < 2) × ((one_waits.phase v ≡ reading) ⊎ (one_waits.phase v ≡ writing))))
waiting_writer-served_example =
    waiting_writer-served 2 one_waits 1 waits-LockReach (omega arith) refl

abbrev asked : Threads
asked = move all_outside 1 waiting_to_write (record unlocked { waiting_writers = 1 })

abbrev one_writes : Threads
one_writes = move asked 1 writing (record unlocked { writer_active = true })

writes-LockReach : LockReach 2 one_writes
unfolding announce acquire
writes-LockReach =
    then_step asked one_writes
      (then_step all_outside asked begin (ask_write all_outside 1 (omega arith) refl))
      (enter_write asked 1 (record unlocked { writer_active = true }) (omega arith) refl refl)

lock-excludes_example : (one_writes.phase 0 ≢ reading) × (one_writes.phase 0 ≢ writing)
lock-excludes_example =
    lock-excludes 2 one_writes 1 0 writes-LockReach (omega arith) (omega arith)
      (λ e. absurd (omega arith)) refl
