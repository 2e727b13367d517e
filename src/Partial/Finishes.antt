-- ===== src/Partial/Finishes.antt =====
-- The workers of src/partial_dataset.cpp, one after another, bring any fill to its end.
use armrx_aarch64_random_x_v.Common.{
  ℕ, zero, suc, ◌≡◌, ◌≢◌, ◌<◌, ◌≤◌, arith, refl, ap, subst, ◌∙◌, Bool, true, false, List, update,
  update_self, update_ne, ℕ_discrete,
}
use armrx_aarch64_random_x_v.Dataset.Cache.{Cache}
use armrx_aarch64_random_x_v.Dataset.Fill.{dataset_item_count}
use armrx_aarch64_random_x_v.Dataset.Filled.{IsReady}
use armrx_aarch64_random_x_v.Partial.Worker.{
  Layout, ended, Fill, worker_step, work, worker, Reach, here, next, is_stopped,
}
use armrx_aarch64_random_x_v.Partial.Start.{PartialDataset, started, start_fill}
use armrx_aarch64_random_x_v.Partial.Invariant.{IsLayout}
use armrx_aarch64_random_x_v.Partial.Safe.{IsFill, Reach-IsFill}
use armrx_aarch64_random_x_v.Partial.Started.{
  initial_fill, initial_fill-IsFill, start_fill-IsRunning,
}
use armrx_aarch64_random_x_v.Partial.Alone.{solo, worker-Ends}
use armrx_aarch64_random_x_v.Partial.Completed.{start_fill-IsComplete}

module _ (l : Layout) (cache : Cache) where
  pub Reach-trans : (f g h : Fill) → Reach l cache f g → Reach l cache g h → Reach l cache f h
  Reach-trans f g h first here = first
  Reach-trans f g h first (next k m rest step) = next k m (Reach-trans f g k first rest) step

  -- `n` steps of worker `w`.
  unfoldable works : ℕ → ℕ → Fill → Fill
  works zero w f = f
  works (suc n) w f = works n w (work l cache w false f)

  Reach-works :
      (n w : ℕ) (f g : Fill) → w < l.chunks → Reach l cache f g → Reach l cache f (works n w g)
  unfolding works
  Reach-works zero w f g lt reach = reach
  Reach-works (suc n) w f g lt reach =
      Reach-works n w f (work l cache w false g) lt
        (next g (work l cache w false g) reach (worker w false g lt))

  works-stay : (n w v : ℕ) (f : Fill) → w ≢ v → (works n w f).at v ≡ f.at v
  unfolding works work
  works-stay zero w v f other = refl
  works-stay (suc n) w v f other =
      works-stay n w v (work l cache w false f) other ∙ update_ne f.at w _ v other

  module _ (layout : IsLayout l) (ready : IsReady cache) where
    works-solo :
        (n w : ℕ) (f : Fill)
        → ((works n w f).shared ≡ (solo l cache layout ready w n (f.shared, f.at w)).0)
          × ((works n w f).at w ≡ (solo l cache layout ready w n (f.shared, f.at w)).1)
    unfolding works work solo
    works-solo zero w f = (refl, refl)
    works-solo (suc n) w f =
        let after = worker_step l cache w false f.shared (f.at w) in
        let (shared, at) = works-solo n w (work l cache w false f) in
        let moved : (after.0, update f.at w after.1 w) ≡ after =
          ap (λ pc. (after.0, pc)) (update_self f.at w after.1) in
        (
          shared ∙ ap (λ p. (solo l cache layout ready w n p).0) moved,
          at ∙ ap (λ p. (solo l cache layout ready w n p).1) moved,
        )

    -- The first `n` workers come to their end.
    ended-below :
        (n : ℕ) (f : Fill)
        → n ≤ l.chunks
        → IsFill l cache layout ready f
        → is_stopped f.shared ≡ false
        → (g : Fill) × Reach l cache f g
          × ((w : ℕ) → w < n → g.at w ≡ ended)
          × (is_stopped g.shared ≡ false)
    ended-below zero f le inv runs = (f, here, (λ w lt. absurd (omega arith)), runs)
    ended-below (suc n) f le inv runs =
        let (g, reach, quiet, g_runs) = ended-below n f (omega arith) inv runs in
        let g_inv = Reach-IsFill l cache layout ready f g inv reach in
        let (steps, at_end, end_runs) =
          worker-Ends l cache layout ready n g.shared (g.at n) (g_inv.knows n (omega arith))
            g_runs in
        let (shared, at) = works-solo steps n g in
        (
          works steps n g,
          Reach-works steps n f g (omega arith) reach,
          (λ w lt. elim (ℕ_discrete n w) [
            | yes same ↦ subst (λ v. (works steps n g).at v ≡ ended) same (at ∙ at_end)
            | no other ↦ works-stay steps n w g other ∙ quiet w (omega arith)
          ]),
          ap is_stopped shared ∙ end_runs,
        )

-- From every state that the workers of a started fill have reached, and that no flag has stopped, they
-- can go on to a state in which all of them have ended, all items are published, the fill is
-- complete and still no flag is set.
pub start_fill-finishes :
    (pd pd' : PartialDataset) (has_cache : Bool) (core_order exclude : List ℕ) (cache : Cache)
    (l : Layout) (f g : Fill)
    → IsReady cache
    → pd.allocated_items ≤ dataset_item_count
    → start_fill pd has_cache core_order exclude ≡ started pd' l f
    → Reach l cache f g
    → is_stopped g.shared ≡ false
    → (h : Fill) × Reach l cache g h
      × ((w : ℕ) → w < l.chunks → h.at w ≡ ended)
      × (h.shared.item_count ≡ pd.allocated_items)
      × (h.shared.fill_complete ≡ true)
      × (is_stopped h.shared ≡ false)
start_fill-finishes pd pd' has_cache core_order exclude cache l f g ready small e reach runs =
    let run = start_fill-IsRunning pd pd' has_cache core_order exclude cache l f g small e reach in
    let inv =
      Reach-IsFill l cache run.layout ready (initial_fill pd l) g
        (initial_fill-IsFill pd l cache run.layout ready) run.reach in
    let (h, onward, quiet, h_runs) =
      ended-below l cache run.layout ready l.chunks g (omega arith) inv runs in
    let (all, complete, right, no_wait, none_awaited) =
      start_fill-IsComplete pd pd' has_cache core_order exclude cache l f h ready small e
        (Reach-trans l cache f g h reach onward) quiet h_runs in
    (h, onward, quiet, all, complete, h_runs)
