-- ===== src/Partial/Lock.antt =====
-- `PartialDataset::RotationLock` of include/armrx/partial_dataset.hpp, and threads that use it. Each step is
-- what a function does while it holds the mutex; a wait is a step that is not possible yet.
use armrx_aarch64_random_x_v.Common.{
  ℕ, ◌+◌, ◌-◌, ◌≡◌, ◌<◌, Bool, true, false, not, ◌&&◌, Option, none, some, if◌then◌else◌, ◌==◌,
  update,
}

pub record RotationLock : Type 0 where
  pub active_readers : ℕ
  pub waiting_writers : ℕ
  pub writer_active : Bool

abbrev pub unlocked : RotationLock
unlocked = record { active_readers = 0; waiting_writers = 0; writer_active = false }

-- The predicates of the two waits.
abbrev pub may_read : RotationLock → Bool
may_read lk = not lk.writer_active && lk.waiting_writers == 0

abbrev pub may_write : RotationLock → Bool
may_write lk = not lk.writer_active && lk.active_readers == 0

unfoldable pub lock_shared : RotationLock → Option RotationLock
lock_shared lk =
    if may_read lk then some (record lk { active_readers = lk.active_readers + 1 }) else none

unfoldable pub unlock_shared : RotationLock → RotationLock
unlock_shared lk = record lk { active_readers = lk.active_readers - 1 }

-- `lock` up to its wait, and from there on.
unfoldable pub announce : RotationLock → RotationLock
announce lk = record lk { waiting_writers = lk.waiting_writers + 1 }

unfoldable pub acquire : RotationLock → Option RotationLock
acquire lk =
    if may_write lk
    then some (record lk { waiting_writers = lk.waiting_writers - 1; writer_active = true })
    else none

unfoldable pub unlock : RotationLock → RotationLock
unlock lk = record lk { writer_active = false }

-- Where a thread is: a reader that waits is still outside.
pub data Phase : Type 0 where
  outside reading waiting_to_write writing : Phase

pub record Threads : Type 0 where
  pub lock : RotationLock
  pub phase : ℕ → Phase

abbrev pub move : Threads → ℕ → Phase → RotationLock → Threads
move s t phase lk = record { lock = lk; phase = update s.phase t phase }

-- The steps of `n` threads.
pub data LockStep (n : ℕ) : Threads → Threads → Type 0 where
  enter_read :
      (s : Threads) (t : ℕ) (lk : RotationLock)
      → t < n
      → s.phase t ≡ outside
      → lock_shared s.lock ≡ some lk
      → LockStep n s (move s t reading lk)
  leave_read :
      (s : Threads) (t : ℕ)
      → t < n
      → s.phase t ≡ reading
      → LockStep n s (move s t outside (unlock_shared s.lock))
  ask_write :
      (s : Threads) (t : ℕ)
      → t < n
      → s.phase t ≡ outside
      → LockStep n s (move s t waiting_to_write (announce s.lock))
  enter_write :
      (s : Threads) (t : ℕ) (lk : RotationLock)
      → t < n
      → s.phase t ≡ waiting_to_write
      → acquire s.lock ≡ some lk
      → LockStep n s (move s t writing lk)
  leave_write :
      (s : Threads) (t : ℕ)
      → t < n
      → s.phase t ≡ writing
      → LockStep n s (move s t outside (unlock s.lock))

pub data LockReach (n : ℕ) : Threads → Type 0 where
  begin : LockReach n (record { lock = unlocked; phase = λ t. outside })
  then_step : (s s' : Threads) → LockReach n s → LockStep n s s' → LockReach n s'
