-- ===== src/Partial/Progress.antt =====
-- A fill of src/partial_dataset.cpp whose workers have all ended.
use armrx_aarch64_random_x_v.Common.{
  ℕ, ◌≡◌, ◌≢◌, ◌<◌, ◌≤◌, ◌⊎◌, inl, inr, arith, refl, sym, subst, ◌∙◌, true, false, update,
  update_self, update_ne, ℕ_discrete,
}
use armrx_aarch64_random_x_v.Dataset.Cache.{Cache}
use armrx_aarch64_random_x_v.Dataset.Filled.{IsReady}
use armrx_aarch64_random_x_v.Partial.Worker.{
  Layout, Shared, Pc, ended, Fill, worker_step, work, Step, worker, shut_down, signal_stop, Reach,
  here, next, is_stopped,
}
use armrx_aarch64_random_x_v.Partial.Start.{PartialDataset, reset}
use armrx_aarch64_random_x_v.Partial.Invariant.{IsLayout, Stopped, Later}
use armrx_aarch64_random_x_v.Partial.Local.{step-Keeps}
use armrx_aarch64_random_x_v.Partial.Safe.{IsFill, Step-IsFill, Reach-IsFill, or_true}
use armrx_aarch64_random_x_v.Partial.Started.{initial_fill, worker_start-starting}
use armrx_aarch64_random_x_v.Partial.Moves.{
  Obliged, Raises, Runs, before-Obliged, Resolved, Moves, step-Moves,
}

module _ (l : Layout) (cache : Cache) (layout : IsLayout l) (ready : IsReady cache) where
  -- A worker of which `P` holds.
  abbrev SomeWorker : (Pc → Type 0) → Fill → Type 0
  SomeWorker P f = (w : ℕ) × (w < l.chunks) × P (f.at w)

  abbrev Halts : Shared → Type 0
  Halts s = (s.fill_complete ≡ true) ⊎ Stopped l cache s

  -- As long as something is left to publish, some worker will see to it.
  pub record IsProgress (f : Fill) : Type 0 where
    pub obliged :
        (f.shared.contiguous ≡ l.allocated)
        ⊎ (Stopped l cache f.shared ⊎ SomeWorker (Obliged f.shared.contiguous) f)
    pub finishes : f.shared.contiguous ≡ l.allocated → Halts f.shared ⊎ SomeWorker Runs f
    pub raises :
        (f.shared.contiguous ≤ f.shared.item_count) ⊎ SomeWorker (Raises f.shared.contiguous) f

  -- The worker that has moved, or one that has not.
  mover : (P : Pc → Type 0) (at : ℕ → Pc) (w : ℕ) (pc : Pc) → P pc → P (update at w pc w)
  mover P at w pc h = subst P (sym (update_self at w pc)) h

  stayer :
      (P : Pc → Type 0) (at : ℕ → Pc) (w v : ℕ) (pc : Pc) → w ≢ v → P (at v) → P (update at w pc v)
  stayer P at w v pc other h = subst P (sym (update_ne at w pc v other)) h

  -- The fill after a step of worker `w`.
  abbrev after_step : Fill → ℕ → Shared → Pc → Fill
  after_step f w t pc = record { shared = t; at = update f.at w pc }

  abbrev ObligedNow : Fill → Type 0
  ObligedNow f =
      (f.shared.contiguous ≡ l.allocated)
      ⊎ (Stopped l cache f.shared ⊎ SomeWorker (Obliged f.shared.contiguous) f)

  Resolved-obliged :
      (g : Fill)
      → IsFill l cache layout ready g
      → Resolved l cache layout ready g.shared
      → ObligedNow g
  Resolved-obliged g inv (inl end) = inl end
  Resolved-obliged g inv (inr (inl stopped)) = inr (inl stopped)
  Resolved-obliged g inv (inr (inr (c, lt, undone))) = elim (inv.owns c lt undone) [
    | inl before ↦ inr (inr (c, lt, before-Obliged l cache g.shared.contiguous (g.at c) before))
    | inr stopped ↦ inr (inl stopped)
  ]

  module _ (f : Fill) (w : ℕ) (t : Shared) (pc : Pc) (lt : w < l.chunks)
      (moves : Moves l cache layout ready f.shared (f.at w) t pc) (later : Later l cache f.shared t)
      (inv : IsFill l cache layout ready (after_step f w t pc)) (progress : IsProgress f) where
    pass-obliged : ObligedNow (after_step f w t pc)
    pass-obliged = elim moves.obliged [
      | inl now ↦ inr (inr (w, lt, mover (Obliged t.contiguous) f.at w pc now))
      | inr (same, keep) ↦ elim progress.obliged [
        | inl end ↦ inl (same ∙ end)
        | inr (inl stopped) ↦ inr (inl (later.stopped stopped))
        | inr (inr (v, v_lt, h)) ↦ elim (ℕ_discrete w v) [
          | no other ↦ inr (
              inr (
                v,
                v_lt,
                stayer (Obliged t.contiguous) f.at w v pc other
                    (subst (λ n. Obliged n (f.at v)) (sym same) h),
              ))
          | yes is_w ↦
              elim (keep (subst (λ u. Obliged f.shared.contiguous (f.at u)) (sym is_w) h)) [
                | inl now ↦ inr (inr (w, lt, mover (Obliged t.contiguous) f.at w pc now))
                | inr resolved ↦ Resolved-obliged (after_step f w t pc) inv resolved
              ]
        ]
      ]
    ]

    pass-finishes : t.contiguous ≡ l.allocated → Halts t ⊎ SomeWorker Runs (after_step f w t pc)
    pass-finishes end = elim moves.moved [
      | inr runs ↦ inr (w, lt, mover Runs f.at w pc runs)
      | inl same ↦ elim (progress.finishes (sym same ∙ end)) [
        | inl (inl complete) ↦ inl (inl (later.complete complete))
        | inl (inr stopped) ↦ inl (inr (later.stopped stopped))
        | inr (v, v_lt, runs) ↦ elim (ℕ_discrete w v) [
          | no other ↦ inr (v, v_lt, stayer Runs f.at w v pc other runs)
          | yes is_w ↦ elim (moves.finishes end (subst (λ u. Runs (f.at u)) (sym is_w) runs)) [
            | inl still ↦ inr (w, lt, mover Runs f.at w pc still)
            | inr halts ↦ inl halts
          ]
        ]
      ]
    ]

    pass-Raises :
        (t.contiguous ≤ t.item_count) ⊎ SomeWorker (Raises t.contiguous) (after_step f w t pc)
    pass-Raises = elim moves.raises [
      | inl now ↦ inr (w, lt, mover (Raises t.contiguous) f.at w pc now)
      | inr (same, keep) ↦ elim progress.raises [
        | inl le ↦ let count = later.count in inl (omega arith)
        | inr (v, v_lt, h) ↦ elim (ℕ_discrete w v) [
          | no other ↦ inr (
            v,
            v_lt,
            stayer (Raises t.contiguous) f.at w v pc other
                (subst (λ n. Raises n (f.at v)) (sym same) h),
          )
          | yes is_w ↦ elim (keep (subst (λ u. Raises f.shared.contiguous (f.at u)) (sym is_w) h)) [
            | inl now ↦ inr (w, lt, mover (Raises t.contiguous) f.at w pc now)
            | inr raised ↦ inl raised
          ]
        ]
      ]
    ]

  -- A flag is set.
  flag-IsProgress :
      (f : Fill) (t : Shared)
      → t.contiguous ≡ f.shared.contiguous
      → Stopped l cache t
      → Later l cache f.shared t
      → IsProgress f
      → IsProgress (record f { shared = t })
  flag-IsProgress f t same stopped later progress = record {
    obliged = inr (inl stopped);
    finishes = λ end. inl (inr stopped);
    raises = elim progress.raises [
      | inl le ↦ let count = later.count in inl (omega arith)
      | inr (v, lt, h) ↦ inr (v, lt, subst (λ n. Raises n (f.at v)) (sym same) h)
    ];
  }

  Step-IsProgress :
      (f g : Fill) → Step l cache f g → IsFill l cache layout ready f → IsProgress f → IsProgress g
  unfolding work
  Step-IsProgress f g (worker w spurious _ lt) inv progress =
      let after = worker_step l cache w spurious f.shared (f.at w) in
      let kept =
        step-Keeps l cache layout ready w spurious f.shared (f.at w) lt inv.shared (inv.knows w lt)
          (inv.owns w lt) in
      let moves = step-Moves l cache layout ready w spurious f.shared (f.at w) (inv.knows w lt) in
      let inv' = Step-IsFill l cache layout ready f _ (worker w spurious f lt) inv in
      record {
        obliged = pass-obliged f w after.0 after.1 lt moves kept.later inv' progress;
        finishes = pass-finishes f w after.0 after.1 lt moves kept.later inv' progress;
        raises = pass-Raises f w after.0 after.1 lt moves kept.later inv' progress;
      }
  Step-IsProgress f g (shut_down _) inv progress =
      flag-IsProgress f _ refl (or_true f.shared.stop)
        (record {
          done = λ c e. e;
          correct = λ j e. e;
          stopped = λ e. or_true f.shared.stop;
          complete = λ e. e;
          count = omega arith;
        })
        progress
  Step-IsProgress f g (signal_stop _) inv progress =
      flag-IsProgress f _ refl refl
        (record {
          done = λ c e. e;
          correct = λ j e. e;
          stopped = λ e. refl;
          complete = λ e. e;
          count = omega arith;
        })
        progress

  pub Reach-IsProgress :
      (from to : Fill)
      → IsFill l cache layout ready from
      → IsProgress from
      → Reach l cache from to
      → IsProgress to
  Reach-IsProgress from to inv progress here = progress
  Reach-IsProgress from to inv progress (next f g reach step) =
      Step-IsProgress f g step (Reach-IsFill l cache layout ready from f inv reach)
        (Reach-IsProgress from f inv progress reach)

  pub initial_fill-IsProgress :
      (pd : PartialDataset) → 0 < l.allocated → IsProgress (initial_fill pd l)
  unfolding reset Obliged
  initial_fill-IsProgress pd some_items = record {
    obliged =
        inr
          (inr (0, layout.some_chunk, rw (worker_start-starting l layout 0 layout.some_chunk) tt));
    finishes = λ end. absurd (omega arith);
    raises = inl (omega arith);
  }

  nobody :
      (P : Pc → Type 0) (g : Fill)
      → (P ended → ⊥)
      → ((w : ℕ) → w < l.chunks → g.at w ≡ ended)
      → SomeWorker P g
      → ⊥
  nobody P g no_more quiet (w, lt, h) = no_more (subst P (quiet w lt) h)

  -- All workers have ended and nothing has stopped them.
  pub quiet-IsComplete :
      (g : Fill)
      → IsProgress g
      → ((w : ℕ) → w < l.chunks → g.at w ≡ ended)
      → is_stopped g.shared ≡ false
      → (l.allocated ≤ g.shared.item_count) × (g.shared.fill_complete ≡ true)
  unfolding Obliged Raises Runs
  quiet-IsComplete g progress quiet runs =
      let all : g.shared.contiguous ≡ l.allocated = elim progress.obliged [
        | inl end ↦ end
        | inr (inl stopped) ↦ cc
        | inr (inr someone) ↦ absurd (nobody (Obliged g.shared.contiguous) g (λ h. h) quiet someone)
      ] in
      let counted : g.shared.contiguous ≤ g.shared.item_count = elim progress.raises [
        | inl le ↦ le
        | inr someone ↦ absurd (nobody (Raises g.shared.contiguous) g (λ h. h) quiet someone)
      ] in
      (
        omega arith,
        elim (progress.finishes all) [
          | inl (inl complete) ↦ complete
          | inl (inr stopped) ↦ cc
          | inr someone ↦ absurd (nobody Runs g (λ h. h) quiet someone)
        ],
      )
