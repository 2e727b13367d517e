-- ===== src/Partial/Alone.antt =====
-- A worker of src/partial_dataset.cpp that runs alone comes to its end.
use native.Mathlib.Nat.{div-mul-le_self}
use armrx_aarch64_random_x_v.Common.{
  ℕ, zero, suc, ◌+◌, ◌*◌, ◌/◌, ◌≡◌, ◌<◌, ◌≤◌, inl, inr, arith, refl, sym, subst, true, false, not,
  ◌&&◌, ◌==◌, leb, ltb, Bool-cases, update, ltb→lt,
}
use armrx_aarch64_random_x_v.Dataset.Cache.{Cache}
use armrx_aarch64_random_x_v.Dataset.Filled.{IsReady}
use armrx_aarch64_random_x_v.Partial.Worker.{
  Layout, Shared, Pc, starting, filling, writing, failing, stopping, marking, loading, advancing,
  exchanging, counting, raising, deciding, checking, checking_end, completing, ended, chunk_start,
  chunk_end, chunk_span, sub_items, after_write, write_sub_chunk, next_is_done, is_stopped,
  worker_step,
}
use armrx_aarch64_random_x_v.Partial.Invariant.{IsLayout, Knows}
use armrx_aarch64_random_x_v.Partial.Cursor.{is_done_at}
use armrx_aarch64_random_x_v.Partial.Calls.{call-filled, sub_items-le, chunk_end-allocated}

eq_self : (n : ℕ) → (n == n) ≡ true
eq_self n = ground arith

module _ (l : Layout) (cache : Cache) (layout : IsLayout l) (ready : IsReady cache) (c : ℕ) where
  -- `n` steps of the worker, in which no exchange fails without cause.
  unfoldable pub solo : ℕ → Shared × Pc → Shared × Pc
  solo zero p = p
  solo (suc n) p = solo n (worker_step l cache c false p.0 p.1)

  abbrev pub Ends : Shared × Pc → Type 0
  Ends p = (n : ℕ) × ((solo n p).1 ≡ ended) × (is_stopped (solo n p).0 ≡ false)

  back : (p : Shared × Pc) → Ends (worker_step l cache c false p.0 p.1) → Ends p
  unfolding solo
  back p (n, at, runs) = (suc n, at, runs)

  ended-Ends : (s : Shared) → is_stopped s ≡ false → Ends (s, ended)
  unfolding solo
  ended-Ends s runs = (0, refl, runs)

  checked-Ends : (s : Shared) → is_stopped s ≡ false → Ends (s, checking_end)
  unfolding worker_step
  checked-Ends s runs =
      back (s, checking_end)
        (elim (Bool-cases (leb l.allocated s.contiguous)) [
          | inr less ↦ rw less (ended-Ends s runs)
          | inl all ↦
              rw all (back (s, completing) (ended-Ends (record s { fill_complete = true }) runs))
        ])

  checking-Ends : (s : Shared) → is_stopped s ≡ false → Ends (s, checking)
  unfolding worker_step
  checking-Ends s runs = back (s, checking) (rw runs (checked-Ends s runs))

  -- `next` is reached with the bound and the marks of `s`.
  Leads : Shared → Pc → Type 0
  Leads s pc =
      (t : Shared)
      → is_stopped t ≡ false
      → t.contiguous ≡ s.contiguous
      → t.chunk_done ≡ s.chunk_done
      → Ends (t, pc)

  fresh-Ends :
      (s : Shared) (cursor prev : ℕ)
      → is_stopped s ≡ false
      → Leads s (deciding cursor prev)
      → Ends (s, raising cursor prev s.item_count)
  unfolding worker_step Leads
  fresh-Ends s cursor prev runs leads =
      back (s, raising cursor prev s.item_count)
        (elim (Bool-cases (ltb s.item_count cursor)) [
          | inr high ↦ rw high (leads s runs refl refl)
          | inl low ↦
              let agrees : (s.item_count == s.item_count && not false) ≡ true = ground arith in
              rw (low, agrees) (leads (record s { item_count = cursor }) runs refl refl)
        ])

  raising-Ends :
      (s : Shared) (cursor prev item_prev : ℕ)
      → is_stopped s ≡ false
      → Leads s (deciding cursor prev)
      → Ends (s, raising cursor prev item_prev)
  unfolding worker_step Leads
  raising-Ends s cursor prev item_prev runs leads =
      back (s, raising cursor prev item_prev)
        (elim (Bool-cases (ltb item_prev cursor)) [
          | inr high ↦ rw high (leads s runs refl refl)
          | inl low ↦ rw low (elim (Bool-cases (s.item_count == item_prev && not false)) [
            | inr other ↦ rw other (fresh-Ends s cursor prev runs leads)
            | inl agrees ↦ rw agrees (leads (record s { item_count = cursor }) runs refl refl)
          ])
        ])

  -- The exchange, up to the decision.
  exchange-Ends :
      (s : Shared) (cursor : ℕ)
      → is_stopped s ≡ false
      → Leads (record s { contiguous = cursor }) (deciding cursor s.contiguous)
      → Ends (s, exchanging cursor)
  unfolding worker_step
  exchange-Ends s cursor runs leads =
      let t = record s { contiguous = cursor } in
      back (s, exchanging cursor)
        (back (t, counting cursor s.contiguous) (fresh-Ends t cursor s.contiguous runs leads))

  span-positive : (cursor : ℕ) → cursor < l.allocated → 0 < chunk_span l (cursor / l.per_chunk)
  span-positive cursor before =
      let positive = layout.positive in
      let start : cursor / l.per_chunk * l.per_chunk ≤ cursor =
        div-mul-le_self cursor l.per_chunk in
      ground arith

  -- The cursor goes on to a chunk that is not done, or to the end.
  advancing-Ends :
      (n : ℕ) (s : Shared) (cursor : ℕ)
      → is_stopped s ≡ false
      → l.allocated ≤ cursor + n
      → ((x : ℕ) → next_is_done l s x ≡ false → Ends (s, exchanging x))
      → Ends (s, advancing cursor)
  unfolding worker_step
  advancing-Ends zero s cursor runs near then_ends =
      back (s, advancing cursor)
        (elim (Bool-cases (next_is_done l s cursor)) [
          | inr not_done ↦ rw not_done (then_ends cursor not_done)
          | inl is_done ↦
              let at = is_done_at l cache layout ready s cursor is_done in absurd (omega arith)
        ])
  advancing-Ends (suc n) s cursor runs near then_ends =
      back (s, advancing cursor)
        (elim (Bool-cases (next_is_done l s cursor)) [
          | inr not_done ↦ rw not_done (then_ends cursor not_done)
          | inl is_done ↦
              let (before, in_range, marked) = is_done_at l cache layout ready s cursor is_done in
              let further = span-positive cursor before in
              rw is_done (
                advancing-Ends n s (cursor + chunk_span l (cursor / l.per_chunk)) runs (omega arith)
                  then_ends)
        ])

  -- From the load on, if the bound is already where the cursor will stop.
  settled-Ends :
      (s : Shared)
      → is_stopped s ≡ false
      → next_is_done l s s.contiguous ≡ false
      → Ends (s, loading)
  unfolding worker_step Leads
  settled-Ends s runs not_done =
      back (s, loading)
        (back (s, advancing s.contiguous)
          (rw not_done (
            exchange-Ends s s.contiguous runs (λ t t_runs same_bound same_marks.
              back (t, deciding s.contiguous s.contiguous)
                (rw (eq_self s.contiguous) (checking-Ends t t_runs))))))

  -- After the exchange of a cursor that has stopped, one more round is enough.
  stopped-Ends :
      (s : Shared) (cursor : ℕ)
      → is_stopped s ≡ false
      → next_is_done l s cursor ≡ false
      → Ends (s, exchanging cursor)
  unfolding worker_step Leads
  stopped-Ends s cursor runs not_done =
      exchange-Ends s cursor runs (λ t t_runs same_bound same_marks.
        back (t, deciding cursor s.contiguous)
          (elim (Bool-cases (cursor == s.contiguous)) [
            | inl same ↦ rw same (checking-Ends t t_runs)
            | inr moved ↦ rw moved (settled-Ends t t_runs (rw (same_bound, same_marks) not_done))
          ]))

  loading-Ends : (s : Shared) → is_stopped s ≡ false → Ends (s, loading)
  unfolding worker_step
  loading-Ends s runs =
      back (s, loading)
        (advancing-Ends l.allocated s s.contiguous runs (omega arith)
          (λ x not_done. stopped-Ends s x runs not_done))

  deciding-Ends :
      (s : Shared) (cursor prev : ℕ) → is_stopped s ≡ false → Ends (s, deciding cursor prev)
  unfolding worker_step
  deciding-Ends s cursor prev runs =
      back (s, deciding cursor prev)
        (elim (Bool-cases (cursor == prev)) [
          | inl same ↦ rw same (checking-Ends s runs)
          | inr moved ↦ rw moved (loading-Ends s runs)
        ])

  sub_items-positive : (sub_start : ℕ) → sub_start < chunk_end l c → 0 < sub_items l c sub_start
  sub_items-positive sub_start lt = ground arith

  writing-then :
      (s : Shared) (sub_start : ℕ)
      → is_stopped s ≡ false
      → sub_start < chunk_end l c
      → ((t : Shared)
          → is_stopped t ≡ false
          → Ends (t, filling (sub_start + sub_items l c sub_start)))
      → Ends (s, writing sub_start)
  unfolding worker_step write_sub_chunk after_write
  writing-then s sub_start runs lt then_ends =
      let count = sub_items l c sub_start in
      let le = sub_items-le l cache layout ready c sub_start lt in
      let below = chunk_end-allocated l cache layout ready c in
      let (after, ran, made) =
        call-filled l cache layout ready (λ j. s.items (sub_start + j)) sub_start count
          (omega arith) in
      back (s, writing sub_start)
        (subst (λ r. Ends (after_write sub_start count s r)) (sym ran) (then_ends _ runs))

  -- One sub-chunk after another; each call succeeds.
  filling-Ends :
      (n : ℕ) (s : Shared) (sub_start : ℕ)
      → is_stopped s ≡ false
      → chunk_end l c ≤ sub_start + n
      → Ends (s, filling sub_start)
  unfolding worker_step write_sub_chunk after_write
  filling-Ends zero s sub_start runs near =
      back (s, filling sub_start)
        (elim (Bool-cases (ltb sub_start (chunk_end l c))) [
          | inr full ↦ rw full (
              back (s, marking)
                (loading-Ends (record s { chunk_done = update s.chunk_done c true }) runs))
          | inl more ↦ let lt = ltb→lt _ _ more in absurd (omega arith)
        ])
  filling-Ends (suc n) s sub_start runs near =
      back (s, filling sub_start)
        (elim (Bool-cases (ltb sub_start (chunk_end l c))) [
          | inr full ↦ rw full (
              back (s, marking)
                (loading-Ends (record s { chunk_done = update s.chunk_done c true }) runs))
          | inl more ↦
              let lt = ltb→lt _ _ more in
              rw (more, runs)
                (writing-then s sub_start runs lt (λ t t_runs.
                  filling-Ends n t (sub_start + sub_items l c sub_start) t_runs
                    (let positive = sub_items-positive sub_start lt in omega arith)))
        ])

  -- From every place at which a worker of a ready cache can be.
  pub worker-Ends :
      (s : Shared) (pc : Pc) → Knows l cache s c pc → is_stopped s ≡ false → Ends (s, pc)
  unfolding worker_step Knows Leads
  worker-Ends s starting knows runs =
      back (s, starting)
        (rw runs (filling-Ends (chunk_end l c) s (chunk_start l c) runs (omega arith)))
  worker-Ends s (filling sub_start) knows runs =
      filling-Ends (chunk_end l c) s sub_start runs (omega arith)
  worker-Ends s (writing sub_start) (filled_to, lt) runs =
      writing-then s sub_start runs lt
        (λ t t_runs. filling-Ends (chunk_end l c) t _ t_runs (omega arith))
  worker-Ends s failing knows runs = absurd knows
  worker-Ends s stopping knows runs = absurd knows
  worker-Ends s marking knows runs =
      back (s, marking) (loading-Ends (record s { chunk_done = update s.chunk_done c true }) runs)
  worker-Ends s loading knows runs = loading-Ends s runs
  worker-Ends s (advancing cursor) knows runs =
      advancing-Ends l.allocated s cursor runs (omega arith)
        (λ x not_done. stopped-Ends s x runs not_done)
  worker-Ends s (exchanging cursor) knows runs =
      exchange-Ends s cursor runs
        (λ t t_runs same_bound same_marks. deciding-Ends t cursor s.contiguous t_runs)
  worker-Ends s (counting cursor prev) knows runs =
      back (s, counting cursor prev)
        (fresh-Ends s cursor prev runs
          (λ t t_runs same_bound same_marks. deciding-Ends t cursor prev t_runs))
  worker-Ends s (raising cursor prev item_prev) knows runs =
      raising-Ends s cursor prev item_prev runs
        (λ t t_runs same_bound same_marks. deciding-Ends t cursor prev t_runs)
  worker-Ends s (deciding cursor prev) knows runs = deciding-Ends s cursor prev runs
  worker-Ends s checking knows runs = checking-Ends s runs
  worker-Ends s checking_end knows runs = checked-Ends s runs
  worker-Ends s completing knows runs =
      back (s, completing) (ended-Ends (record s { fill_complete = true }) runs)
  worker-Ends s ended knows runs = ended-Ends s runs
