-- ===== src/Partial/Cursor.antt =====
-- The cursor with which the workers of src/partial_dataset.cpp pass the chunks that are done.
use native.Mathlib.Nat.{suc-mul, mul-div_cancel}
use armrx_aarch64_random_x_v.Common.{
  ℕ, suc, ◌+◌, ◌*◌, ◌/◌, ◌≡◌, ◌<◌, ◌⊎◌, inl, inr, arith, refl, sym, ap, subst, ◌∙◌, Bool, true,
  false, ◌&&◌, ◌==◌, if◌then◌else◌, ltb, Bool-cases, ltb→lt, lt→ltb,
}
use armrx_aarch64_random_x_v.Dataset.Cache.{Cache}
use armrx_aarch64_random_x_v.Dataset.Filled.{IsReady}
use armrx_aarch64_random_x_v.Partial.Worker.{Layout, Shared, chunk_span, next_is_done}
use armrx_aarch64_random_x_v.Partial.Invariant.{IsLayout, bound, bound-le, IsPrefix}

pub and_true : (a b : Bool) → (a && b) ≡ true → (a ≡ true) × (b ≡ true)
and_true true b e = (refl, e)
and_true false b e = cc

and_rest : {a b c : Bool} → a ≡ true → b ≡ true → (a && b && c) ≡ false → c ≡ false
and_rest e e' h = cc

module _ (l : Layout) (cache : Cache) (layout : IsLayout l) (ready : IsReady cache) where
  -- The chunk that a cursor before the end stands at.
  at_chunk :
      (s : Shared) (cursor : ℕ) (p : IsPrefix l cache s.chunk_done cursor)
      → cursor < l.allocated
      → (p.k < l.chunks) × (cursor ≡ p.k * l.per_chunk) × (cursor / l.per_chunk ≡ p.k)
  at_chunk s cursor p before = elim (Bool-cases (ltb p.k l.chunks)) [
    | inl lt ↦
        let at : cursor ≡ p.k * l.per_chunk =
          p.is_bound ∙ ap (λ b. if b then p.k * l.per_chunk else l.allocated) lt in
        (
          ltb→lt p.k l.chunks lt,
          at,
          ap (λ n. n / l.per_chunk) at ∙ mul-div_cancel p.k layout.positive,
        )
    | inr ge ↦
        let at : cursor ≡ l.allocated =
          p.is_bound ∙ ap (λ b. if b then p.k * l.per_chunk else l.allocated) ge in
        absurd (omega arith)
  ]

  span-bound : (k : ℕ) → k < l.chunks → k * l.per_chunk + chunk_span l k ≡ bound l (suc k)
  span-bound k lt = let start = layout.nonempty k lt in ground (arith, suc-mul k l.per_chunk)

  pub is_done_at :
      (s : Shared) (cursor : ℕ)
      → next_is_done l s cursor ≡ true
      → (cursor < l.allocated)
        × (cursor / l.per_chunk < l.chunks)
        × (s.chunk_done (cursor / l.per_chunk) ≡ true)
  is_done_at s cursor is_done =
      let (first, marked) = and_true _ _ is_done in
      let (before, in_range) = and_true _ _ first in
      (ltb→lt _ _ before, ltb→lt _ _ in_range, marked)

  pub advanced-IsPrefix :
      (s : Shared) (cursor : ℕ)
      → IsPrefix l cache s.chunk_done cursor
      → next_is_done l s cursor ≡ true
      → IsPrefix l cache s.chunk_done (cursor + chunk_span l (cursor / l.per_chunk))
  advanced-IsPrefix s cursor p is_done =
      let (before, in_range, marked) = is_done_at s cursor is_done in
      let (lt, at, owning) = at_chunk s cursor p before in
      record {
        k = suc p.k;
        within = omega arith;
        is_bound = rw owning (ap (λ n. n + chunk_span l p.k) at ∙ span-bound p.k lt);
        all_done = λ c le. elim (Bool-cases (c == p.k)) [
          | inl here ↦ let is_k : c ≡ p.k = ground arith in rw (is_k, ← owning) marked
          | inr away ↦ p.all_done c (ground arith)
        ];
      }

  -- The chunk that a cursor stops at is not done.
  pub stopped_at :
      (s : Shared) (cursor : ℕ)
      → IsPrefix l cache s.chunk_done cursor
      → next_is_done l s cursor ≡ false
      → (cursor ≡ l.allocated) ⊎ ((c : ℕ) × (c < l.chunks) × (s.chunk_done c ≡ false))
  stopped_at s cursor p not_done = elim (Bool-cases (ltb cursor l.allocated)) [
    | inr ge ↦
        let (le, reach) = bound-le l cache p.k layout p.within in
        let is_bound = p.is_bound in inl (ground arith)
    | inl before ↦
        let (lt, at, owning) = at_chunk s cursor p (ltb→lt cursor l.allocated before) in
        inr (
          p.k,
          lt,
          ap s.chunk_done (sym owning)
              ∙ and_rest (lt→ltb _ _ (ltb→lt cursor l.allocated before))
                  (lt→ltb _ _ (subst (λ n. n < l.chunks) (sym owning) lt)) not_done,
        )
  ]
