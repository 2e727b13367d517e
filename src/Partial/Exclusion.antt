-- ===== src/Partial/Exclusion.antt =====
-- The lock of include/armrx/partial_dataset.hpp counts the threads that use it.
use armrx_aarch64_random_x_v.Common.{
  ℕ, zero, suc, ◌+◌, ◌-◌, ◌≡◌, ◌<◌, ◌≤◌, inl, inr, arith, refl, sym, ap, subst, ◌∙◌, Bool, true,
  false, not, ◌&&◌, none, some, Bool-cases, if◌then◌else◌, update, update_self, update_ne,
  ℕ_discrete,
}
use armrx_aarch64_random_x_v.Partial.Lock.{
  RotationLock, Phase, outside, reading, waiting_to_write, writing, Threads, may_read, may_write,
  lock_shared, unlock_shared, announce, acquire, unlock, LockStep, enter_read, leave_read,
  ask_write, enter_write, leave_write, LockReach, begin, then_step,
}

abbrev pub one_if : Bool → ℕ
one_if b = if b then 1 else 0

unfoldable pub count : ℕ → (Phase → Bool) → (ℕ → Phase) → ℕ
count zero test phase = 0
count (suc n) test phase = one_if (test (phase n)) + count n test phase

count_above :
    (n : ℕ) (test : Phase → Bool) (phase : ℕ → Phase) (t : ℕ) (p : Phase)
    → n ≤ t
    → count n test (update phase t p) ≡ count n test phase
unfolding count
count_above zero test phase t p le = refl
count_above (suc n) test phase t p le =
    rw (update_ne phase t p n (omega arith), count_above n test phase t p (omega arith)) refl

pub count-update :
    (n : ℕ) (test : Phase → Bool) (phase : ℕ → Phase) (t : ℕ) (p : Phase)
    → t < n
    → count n test (update phase t p) + one_if (test (phase t))
      ≡ count n test phase + one_if (test p)
unfolding count
count-update zero test phase t p lt = absurd (omega arith)
count-update (suc n) test phase t p lt = elim (ℕ_discrete t n) [
  | yes same ↦
      rw (same, update_self phase n p, count_above n test phase n p (omega arith)) (omega arith)
  | no other ↦
      let rest = count-update n test phase t p (omega arith) in
      rw (update_ne phase t p n other) (omega arith)
]

pub counted :
    (n : ℕ) (test : Phase → Bool) (phase : ℕ → Phase) (t : ℕ)
    → t < n
    → test (phase t) ≡ true
    → 0 < count n test phase
unfolding count
counted zero test phase t lt h = absurd (omega arith)
counted (suc n) test phase t lt h = elim (ℕ_discrete t n) [
  | yes same ↦
      let here : test (phase n) ≡ true = subst (λ u. test (phase u) ≡ true) same h in
      rw here (omega arith)
  | no other ↦ let rest = counted n test phase t (omega arith) h in omega arith
]

pub some_counted :
    (n : ℕ) (test : Phase → Bool) (phase : ℕ → Phase)
    → 0 < count n test phase
    → (t : ℕ) × (t < n) × (test (phase t) ≡ true)
unfolding count
some_counted zero test phase lt = absurd (omega arith)
some_counted (suc n) test phase lt = elim (Bool-cases (test (phase n))) [
  | inl yes_it ↦ (n, omega arith, yes_it)
  | inr not_it ↦
      let below : 0 < one_if false + count n test phase =
        subst (λ b. 0 < one_if b + count n test phase) not_it lt in
      let (t, t_lt, h) = some_counted n test phase (omega arith) in (t, omega arith, h)
]

abbrev pub is_reading : Phase → Bool
is_reading reading = true
is_reading _ = false

abbrev pub is_waiting : Phase → Bool
is_waiting waiting_to_write = true
is_waiting _ = false

abbrev pub is_writing : Phase → Bool
is_writing writing = true
is_writing _ = false

pub one_if-le : (b : Bool) → one_if b ≤ 1
one_if-le true = omega arith
one_if-le false = omega arith

empty_count : (n : ℕ) (test : Phase → Bool) → test outside ≡ false → 0 ≡ count n test (λ t. outside)
unfolding count
empty_count zero test e = refl
empty_count (suc n) test e = let rest = empty_count n test e in rw e (omega arith)

pub record IsCounted (n : ℕ) (s : Threads) : Type 0 where
  pub readers : s.lock.active_readers ≡ count n is_reading s.phase
  pub waiting : s.lock.waiting_writers ≡ count n is_waiting s.phase
  pub writer : one_if s.lock.writer_active ≡ count n is_writing s.phase
  pub exclusive : s.lock.writer_active ≡ true → s.lock.active_readers ≡ 0

-- What a move does to the three counts.
moved_counts :
    (n : ℕ) (phase : ℕ → Phase) (t : ℕ) (from to : Phase)
    → t < n
    → phase t ≡ from
    → (count n is_reading (update phase t to) + one_if (is_reading from)
        ≡ count n is_reading phase + one_if (is_reading to))
      × (count n is_waiting (update phase t to) + one_if (is_waiting from)
          ≡ count n is_waiting phase + one_if (is_waiting to))
      × (count n is_writing (update phase t to) + one_if (is_writing from)
          ≡ count n is_writing phase + one_if (is_writing to))
moved_counts n phase t from to lt e = rw⁻¹ e (
  count-update n is_reading phase t to lt,
  count-update n is_waiting phase t to lt,
  count-update n is_writing phase t to lt,
)

taken {ℓ} :
    {A : Type ℓ} (test : Bool) (a b : A)
    → (if test then some a else none) ≡ some b
    → (test ≡ true) × (b ≡ a)
taken true a b e = (refl, cc)
taken false a b e = cc

both : {a b : Bool} → (not a && b) ≡ true → (a ≡ false) × (b ≡ true)
both {a = true} e = cc
both {a = false} e = (refl, e)

pub entered_read :
    (lk lk' : RotationLock)
    → lock_shared lk ≡ some lk'
    → (lk.writer_active ≡ false)
      × (lk.waiting_writers ≡ 0)
      × (lk' ≡ record lk { active_readers = lk.active_readers + 1 })
unfolding lock_shared
entered_read lk lk' e =
    let (free, same) = taken (may_read lk) _ lk' e in
    let (idle, nobody) = both free in (idle, ground arith, same)

pub entered_write :
    (lk lk' : RotationLock)
    → acquire lk ≡ some lk'
    → (lk.writer_active ≡ false)
      × (lk.active_readers ≡ 0)
      × (lk' ≡ record lk { waiting_writers = lk.waiting_writers - 1; writer_active = true })
unfolding acquire
entered_write lk lk' e =
    let (free, same) = taken (may_write lk) _ lk' e in
    let (idle, nobody) = both free in (idle, ground arith, same)

step-IsCounted : (n : ℕ) (s s' : Threads) → LockStep n s s' → IsCounted n s → IsCounted n s'
unfolding unlock_shared announce unlock
step-IsCounted n s s' (enter_read _ t lk lt e entered) inv =
    let (r, w, x) = moved_counts n s.phase t outside reading lt e in
    let (idle, none_waiting, same) = entered_read s.lock lk entered in
    let readers = inv.readers in
    let waiting = inv.waiting in
    let writer = inv.writer in
    rw same (record {
      readers = omega arith;
      waiting = omega arith;
      writer = omega arith;
      exclusive = λ h. cc;
    })
step-IsCounted n s s' (leave_read _ t lt e) inv =
    let (r, w, x) = moved_counts n s.phase t reading outside lt e in
    let readers = inv.readers in
    let waiting = inv.waiting in
    let writer = inv.writer in
    record {
      readers = omega arith;
      waiting = omega arith;
      writer = omega arith;
      exclusive = λ h. let none_left = inv.exclusive h in omega arith;
    }
step-IsCounted n s s' (ask_write _ t lt e) inv =
    let (r, w, x) = moved_counts n s.phase t outside waiting_to_write lt e in
    let readers = inv.readers in
    let waiting = inv.waiting in
    let writer = inv.writer in
    record {
      readers = omega arith;
      waiting = omega arith;
      writer = omega arith;
      exclusive = inv.exclusive;
    }
step-IsCounted n s s' (enter_write _ t lk lt e entered) inv =
    let (r, w, x) = moved_counts n s.phase t waiting_to_write writing lt e in
    let (idle, none_reading, same) = entered_write s.lock lk entered in
    let readers = inv.readers in
    let waiting = inv.waiting in
    let writer : one_if false ≡ count n is_writing s.phase = ap one_if (sym idle) ∙ inv.writer in
    rw same (record {
      readers = omega arith;
      waiting = omega arith;
      writer = omega arith;
      exclusive = λ h. none_reading;
    })
step-IsCounted n s s' (leave_write _ t lt e) inv =
    let (r, w, x) = moved_counts n s.phase t writing outside lt e in
    let readers = inv.readers in
    let waiting = inv.waiting in
    let writer = inv.writer in
    let at_most : one_if s.lock.writer_active ≤ 1 = one_if-le s.lock.writer_active in
    record {
      readers = omega arith;
      waiting = omega arith;
      writer = omega arith;
      exclusive = λ h. cc;
    }

pub reach-IsCounted : (n : ℕ) (s : Threads) → LockReach n s → IsCounted n s
reach-IsCounted n s begin = record {
  readers = empty_count n is_reading refl;
  waiting = empty_count n is_waiting refl;
  writer = empty_count n is_writing refl;
  exclusive = λ h. refl;
}
reach-IsCounted n s (then_step before _ reach step) =
    step-IsCounted n before s step (reach-IsCounted n before reach)
