-- ===== src/Partial/Safe.antt =====
-- Every state of a fill of src/partial_dataset.cpp that its workers can reach.
use armrx_aarch64_random_x_v.Common.{
  ℕ, ◌≡◌, ◌<◌, ◌==◌, arith, refl, subst, Bool, true, false, Bool-cases, ◌||◌, update, inl, inr,
}
use armrx_aarch64_random_x_v.Dataset.Cache.{Cache}
use armrx_aarch64_random_x_v.Dataset.Filled.{IsReady}
use armrx_aarch64_random_x_v.Partial.Worker.{
  Layout, Shared, Pc, Fill, worker_step, work, Step, worker, shut_down, signal_stop, Reach, here,
  next,
}
use armrx_aarch64_random_x_v.Partial.Invariant.{IsLayout, Knows, Owns, IsShared, Later, Later-Knows}
use armrx_aarch64_random_x_v.Partial.Local.{step-Keeps}

pub or_true : (b : Bool) → (b || true) ≡ true
or_true true = refl
or_true false = refl

module _ (l : Layout) (cache : Cache) (layout : IsLayout l) (ready : IsReady cache) where
  -- What holds of the shared state and of each worker.
  pub record IsFill (f : Fill) : Type 0 where
    pub shared : IsShared l cache f.shared
    pub knows : (w : ℕ) → w < l.chunks → Knows l cache f.shared w (f.at w)
    pub owns : (w : ℕ) → w < l.chunks → Owns l cache f.shared w (f.at w)

  Later-Owns :
      (s t : Shared) (w : ℕ) (pc : Pc)
      → Later l cache s t
      → Owns l cache s w pc
      → Owns l cache t w pc
  Later-Owns s t w pc later owns undone = elim (Bool-cases (s.chunk_done w)) [
    | inl marked ↦ let still = later.done w marked in cc
    | inr unmarked ↦ elim (owns unmarked) [
      | inl before ↦ inl before
      | inr stopped ↦ inr (later.stopped stopped)
    ]
  ]

  -- The other workers are where they were.
  at-update {κ} :
      (P : ℕ → Pc → Type κ) (at : ℕ → Pc) (w : ℕ) (pc : Pc)
      → P w pc
      → ((v : ℕ) → v < l.chunks → P v (at v))
      → (v : ℕ) → v < l.chunks
      → P v (update at w pc v)
  at-update P at w pc now before v lt = elim (Bool-cases (w == v)) [
    | inl same ↦ rw same (subst (λ u. P u pc) (ground arith) now)
    | inr away ↦ rw away (before v lt)
  ]

  -- The shared state changes, and no worker moves.
  flagged-IsFill :
      (f : Fill) (t : Shared)
      → Later l cache f.shared t
      → IsShared l cache t
      → IsFill f
      → IsFill (record f { shared = t })
  flagged-IsFill f t later shared inv = record {
    shared = shared;
    knows = λ w lt. Later-Knows l cache f.shared t w (f.at w) later (inv.knows w lt);
    owns = λ w lt. Later-Owns f.shared t w (f.at w) later (inv.owns w lt);
  }

  pub Step-IsFill : (f g : Fill) → Step l cache f g → IsFill f → IsFill g
  unfolding work
  Step-IsFill f g (worker w spurious _ lt) inv =
      let kept =
        step-Keeps l cache layout ready w spurious f.shared (f.at w) lt inv.shared (inv.knows w lt)
          (inv.owns w lt) in
      let after = worker_step l cache w spurious f.shared (f.at w) in
      record {
        shared = kept.shared;
        knows = at-update (Knows l cache after.0) f.at w after.1 kept.knows (λ v v_lt.
            Later-Knows l cache f.shared after.0 v (f.at v) kept.later (inv.knows v v_lt));
        owns =
            at-update (Owns l cache after.0) f.at w after.1 kept.owns
              (λ v v_lt. Later-Owns f.shared after.0 v (f.at v) kept.later (inv.owns v v_lt));
      }
  Step-IsFill f g (shut_down _) inv =
      flagged-IsFill f _
        (record {
          done = λ c e. e;
          correct = λ j e. e;
          stopped = λ e. or_true f.shared.stop;
          complete = λ e. e;
          count = omega arith;
        })
        (record {
          done = inv.shared.done;
          contiguous = inv.shared.contiguous;
          item_count = inv.shared.item_count;
          complete = inv.shared.complete;
        })
        inv
  Step-IsFill f g (signal_stop _) inv =
      flagged-IsFill f _
        (record {
          done = λ c e. e;
          correct = λ j e. e;
          stopped = λ e. refl;
          complete = λ e. e;
          count = omega arith;
        })
        (record {
          done = inv.shared.done;
          contiguous = inv.shared.contiguous;
          item_count = inv.shared.item_count;
          complete = inv.shared.complete;
        })
        inv

  pub Reach-IsFill : (from to : Fill) → IsFill from → Reach l cache from to → IsFill to
  Reach-IsFill from to inv here = inv
  Reach-IsFill from to inv (next f g reach step) =
      Step-IsFill f g step (Reach-IsFill from f inv reach)
