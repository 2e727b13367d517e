-- ===== src/Partial/Moves.antt =====
-- How a step of a worker of src/partial_dataset.cpp passes on what is still to be done.
use armrx_aarch64_random_x_v.Common.{
  ℕ, ◌+◌, ◌≡◌, ◌≢◌, ◌<◌, ◌≤◌, ◌⊎◌, inl, inr, arith, refl, sym, ◌∙◌, Bool, true, false, not, ◌&&◌,
  ◌==◌, leb, ltb, Bool-cases, ltb→ge, leb→gt, ℕ_discrete,
}
use armrx_aarch64_random_x_v.Dataset.Cache.{Cache}
use armrx_aarch64_random_x_v.Dataset.Fill.{FillResult, filled, failed}
use armrx_aarch64_random_x_v.Dataset.Filled.{IsReady}
use armrx_aarch64_random_x_v.Partial.Worker.{
  Layout, Shared, Pc, starting, filling, writing, failing, stopping, marking, loading, advancing,
  exchanging, counting, raising, deciding, checking, checking_end, completing, ended, chunk_start,
  chunk_end, after_write, write_sub_chunk, next_is_done, is_stopped, worker_step,
}
use armrx_aarch64_random_x_v.Partial.Invariant.{IsLayout, IsPrefix, Stopped, IsBefore, Knows}
use armrx_aarch64_random_x_v.Partial.Cursor.{stopped_at}

-- The worker will look for done chunks again, or it exchanges another cursor than `contiguous`.
unfoldable pub Obliged : ℕ → Pc → Type 0
Obliged contiguous starting = Unit
Obliged contiguous (filling sub_start) = Unit
Obliged contiguous (writing sub_start) = Unit
Obliged contiguous failing = Unit
Obliged contiguous stopping = Unit
Obliged contiguous marking = Unit
Obliged contiguous loading = Unit
Obliged contiguous (advancing cursor) = Unit
Obliged contiguous (exchanging cursor) = cursor ≢ contiguous
Obliged contiguous (counting cursor prev) = cursor ≢ prev
Obliged contiguous (raising cursor prev item_prev) = cursor ≢ prev
Obliged contiguous (deciding cursor prev) = cursor ≢ prev
Obliged contiguous _ = ⊥

-- The worker will raise the count of items to `contiguous`.
unfoldable pub Raises : ℕ → Pc → Type 0
Raises contiguous (counting cursor prev) = contiguous ≤ cursor
Raises contiguous (raising cursor prev item_prev) = contiguous ≤ cursor
Raises contiguous _ = ⊥

unfoldable pub Runs : Pc → Type 0
Runs ended = ⊥
Runs _ = Unit

pub before-Obliged :
    (l : Layout) (cache : Cache) (contiguous : ℕ) (pc : Pc)
    → IsBefore l cache pc
    → Obliged contiguous pc
unfolding IsBefore Obliged
before-Obliged l cache contiguous starting h = tt
before-Obliged l cache contiguous (filling sub_start) h = tt
before-Obliged l cache contiguous (writing sub_start) h = tt
before-Obliged l cache contiguous failing h = tt
before-Obliged l cache contiguous stopping h = tt
before-Obliged l cache contiguous marking h = tt
before-Obliged l cache contiguous _ h = absurd h

module _ (l : Layout) (cache : Cache) (layout : IsLayout l) (ready : IsReady cache) where
  -- Nothing is left to be published, or a worker that has not marked its chunk will look again.
  abbrev pub Resolved : Shared → Type 0
  Resolved t =
      (t.contiguous ≡ l.allocated)
      ⊎ (Stopped l cache t ⊎ ((c : ℕ) × (c < l.chunks) × (t.chunk_done c ≡ false)))

  pub record Moves (s : Shared) (pc : Pc) (t : Shared) (pc' : Pc) : Type 0 where
    pub obliged :
        Obliged t.contiguous pc'
        ⊎ ((t.contiguous ≡ s.contiguous)
            × (Obliged s.contiguous pc → Obliged t.contiguous pc' ⊎ Resolved t))
    pub moved : (t.contiguous ≡ s.contiguous) ⊎ Runs pc'
    pub finishes :
        t.contiguous ≡ l.allocated
        → Runs pc
        → Runs pc' ⊎ ((t.fill_complete ≡ true) ⊎ Stopped l cache t)
    pub raises :
        Raises t.contiguous pc'
        ⊎ ((t.contiguous ≡ s.contiguous)
            × (Raises s.contiguous pc → Raises t.contiguous pc' ⊎ (t.contiguous ≤ t.item_count)))

  abbrev pub MovesTo : Shared → Pc → Shared × Pc → Type 0
  MovesTo s pc result = Moves s pc result.0 result.1

  -- A step that leaves the bound, of a worker that will not raise the count.
  quiet-Moves :
      (s t : Shared) (pc pc' : Pc)
      → t.contiguous ≡ s.contiguous
      → (Obliged s.contiguous pc → Obliged t.contiguous pc' ⊎ Resolved t)
      → (t.contiguous ≡ l.allocated
          → Runs pc
          → Runs pc' ⊎ ((t.fill_complete ≡ true) ⊎ Stopped l cache t))
      → (Raises s.contiguous pc → Raises t.contiguous pc' ⊎ (t.contiguous ≤ t.item_count))
      → Moves s pc t pc'
  quiet-Moves s t pc pc' same obliged finishes raises = record {
    obliged = inr (same, obliged);
    moved = inl same;
    finishes = finishes;
    raises = inr (same, raises);
  }

  write-Moves :
      (s : Shared) (sub_start first count : ℕ) (r : FillResult)
      → MovesTo s (writing sub_start) (after_write first count s r)
  unfolding after_write Obliged Raises Runs
  write-Moves s sub_start first count (filled after) =
      quiet-Moves s _ (writing sub_start) (filling (first + count)) refl (λ h. inl tt)
        (λ e h. inl tt) (λ r. absurd r)
  write-Moves s sub_start first count (failed e) =
      quiet-Moves s s (writing sub_start) failing refl (λ h. inl tt) (λ e h. inl tt) (λ r. absurd r)

  exchanging-Obliged :
      (s : Shared) (cursor : ℕ)
      → IsPrefix l cache s.chunk_done cursor
      → next_is_done l s cursor ≡ false
      → (cursor ≢ s.contiguous) ⊎ Resolved s
  exchanging-Obliged s cursor p not_done = elim (ℕ_discrete cursor s.contiguous) [
    | no other ↦ inl other
    | yes same ↦ elim (stopped_at l cache layout ready s cursor p not_done) [
      | inl end ↦ inr (inl (sym same ∙ end))
      | inr undone ↦ inr (inr (inr undone))
    ]
  ]

  pub step-Moves :
      (c : ℕ) (spurious : Bool) (s : Shared) (pc : Pc)
      → Knows l cache s c pc
      → MovesTo s pc (worker_step l cache c spurious s pc)
  unfolding worker_step write_sub_chunk Knows Obliged Raises Runs
  step-Moves c spurious s starting knows = elim (Bool-cases (is_stopped s)) [
    | inl stopped ↦ rw stopped (
        quiet-Moves s s starting ended refl (λ h. inr (inr (inl stopped)))
          (λ e h. inr (inr stopped)) (λ r. absurd r))
    | inr runs ↦ rw runs (
        quiet-Moves s s starting (filling (chunk_start l c)) refl (λ h. inl tt) (λ e h. inl tt)
          (λ r. absurd r))
  ]
  step-Moves c spurious s (filling sub_start) knows =
      elim (Bool-cases (ltb sub_start (chunk_end l c))) [
        | inr full ↦ rw full (
            quiet-Moves s s (filling sub_start) marking refl (λ h. inl tt) (λ e h. inl tt)
              (λ r. absurd r))
        | inl more ↦ rw more (elim (Bool-cases (is_stopped s)) [
          | inl stopped ↦ rw stopped (
              quiet-Moves s s (filling sub_start) ended refl (λ h. inr (inr (inl stopped)))
                (λ e h. inr (inr stopped)) (λ r. absurd r))
          | inr runs ↦ rw runs (
              quiet-Moves s s (filling sub_start) (writing sub_start) refl (λ h. inl tt)
                (λ e h. inl tt) (λ r. absurd r))
        ])
      ]
  step-Moves c spurious s (writing sub_start) knows = write-Moves s sub_start sub_start _ _
  step-Moves c spurious s failing knows =
      quiet-Moves s _ failing stopping refl (λ h. inl tt) (λ e h. inl tt) (λ r. absurd r)
  step-Moves c spurious s stopping knows =
      quiet-Moves s _ stopping ended refl (λ h. inr (inr (inl refl))) (λ e h. inr (inr refl))
        (λ r. absurd r)
  step-Moves c spurious s marking knows =
      quiet-Moves s _ marking loading refl (λ h. inl tt) (λ e h. inl tt) (λ r. absurd r)
  step-Moves c spurious s loading knows =
      quiet-Moves s s loading (advancing s.contiguous) refl (λ h. inl tt) (λ e h. inl tt)
        (λ r. absurd r)
  step-Moves c spurious s (advancing cursor) knows = elim (Bool-cases (next_is_done l s cursor)) [
    | inl is_done ↦ rw is_done (
        quiet-Moves s s (advancing cursor) (advancing _) refl (λ h. inl tt) (λ e h. inl tt)
          (λ r. absurd r))
    | inr not_done ↦ rw not_done (
        quiet-Moves s s (advancing cursor) (exchanging cursor) refl
          (λ h. exchanging-Obliged s cursor knows not_done) (λ e h. inl tt) (λ r. absurd r))
  ]
  step-Moves c spurious s (exchanging cursor) knows = record {
    obliged = elim (ℕ_discrete cursor s.contiguous) [
      | yes same ↦ inr (same, λ other. absurd (other same))
      | no other ↦ inl other
    ];
    moved = inr tt;
    finishes = λ e h. inl tt;
    raises = inl (omega arith);
  }
  step-Moves c spurious s (counting cursor prev) knows =
      quiet-Moves s s (counting cursor prev) (raising cursor prev s.item_count) refl (λ h. inl h)
        (λ e h. inl tt) (λ r. inl r)
  step-Moves c spurious s (raising cursor prev item_prev) (knows, read) =
      elim (Bool-cases (ltb item_prev cursor)) [
        | inr high ↦ rw high (
            quiet-Moves s s (raising cursor prev item_prev) (deciding cursor prev) refl (λ h. inl h)
              (λ e h. inl tt) (λ r. inr (let ge = ltb→ge item_prev cursor high in omega arith)))
        | inl low ↦ rw low (elim (Bool-cases (s.item_count == item_prev && not spurious)) [
          | inr fails ↦ rw fails (
              quiet-Moves s s (raising cursor prev item_prev) (raising cursor prev s.item_count)
                refl (λ h. inl h) (λ e h. inl tt) (λ r. inl r))
          | inl agrees ↦ rw agrees (
              quiet-Moves s _ (raising cursor prev item_prev) (deciding cursor prev) refl
                (λ h. inl h) (λ e h. inl tt) (λ r. inr r))
        ])
      ]
  step-Moves c spurious s (deciding cursor prev) knows = elim (Bool-cases (cursor == prev)) [
    | inl same ↦ rw same (
        quiet-Moves s s (deciding cursor prev) checking refl (λ h. absurd (h (ground arith)))
          (λ e h. inl tt) (λ r. absurd r))
    | inr moved ↦ rw moved (
        quiet-Moves s s (deciding cursor prev) loading refl (λ h. inl tt) (λ e h. inl tt)
          (λ r. absurd r))
  ]
  step-Moves c spurious s checking knows = elim (Bool-cases (is_stopped s)) [
    | inl stopped ↦ rw stopped (
        quiet-Moves s s checking ended refl (λ h. absurd h) (λ e h. inr (inr stopped))
          (λ r. absurd r))
    | inr runs ↦
        rw runs (
          quiet-Moves s s checking checking_end refl (λ h. absurd h) (λ e h. inl tt)
            (λ r. absurd r))
  ]
  step-Moves c spurious s checking_end knows = elim (Bool-cases (leb l.allocated s.contiguous)) [
    | inl all ↦ rw all (
        quiet-Moves s s checking_end completing refl (λ h. absurd h) (λ e h. inl tt)
          (λ r. absurd r))
    | inr less ↦ rw less (
        quiet-Moves s s checking_end ended refl (λ h. absurd h)
          (λ e h. absurd (let lt = leb→gt l.allocated s.contiguous less in omega arith))
          (λ r. absurd r))
  ]
  step-Moves c spurious s completing knows =
      quiet-Moves s _ completing ended refl (λ h. absurd h) (λ e h. inr (inl refl)) (λ r. absurd r)
  step-Moves c spurious s ended knows =
      quiet-Moves s s ended ended refl (λ h. absurd h) (λ e h. absurd h) (λ r. absurd r)
