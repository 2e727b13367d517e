-- ===== src/Partial/Local.antt =====
-- A step of one worker of src/partial_dataset.cpp keeps what holds of the shared state and of the worker.
use armrx_aarch64_random_x_v.Common.{
  ℕ, ◌+◌, ◌≡◌, ◌<◌, ◌≤◌, inl, inr, arith, refl, sym, subst, Bool, true, not, ◌&&◌, ◌==◌, leb, ltb,
  some, Bool-cases, ltb→lt, ltb→ge, leb→le, update,
}
use armrx_aarch64_random_x_v.Dataset.Cache.{Cache}
use armrx_aarch64_random_x_v.Dataset.Items.{generate_dataset_item}
use armrx_aarch64_random_x_v.Dataset.Fill.{Buffer, filled}
use armrx_aarch64_random_x_v.Dataset.Filled.{IsReady}
use armrx_aarch64_random_x_v.Partial.Worker.{
  Layout, Shared, Pc, starting, filling, writing, failing, stopping, marking, loading, advancing,
  exchanging, counting, raising, deciding, checking, checking_end, completing, ended, chunk_start,
  chunk_end, sub_items, after_write, write_sub_chunk, next_is_done, is_stopped, worker_step,
}
use armrx_aarch64_random_x_v.Partial.Invariant.{
  IsLayout, Correct, ChunkCorrect, IsBefore, FilledTo, Knows, Owns, IsShared, Later, Later-prefix,
  prefix-Correct,
}
use armrx_aarch64_random_x_v.Partial.Cursor.{and_true, advanced-IsPrefix}
use armrx_aarch64_random_x_v.Partial.Calls.{
  put-Correct, call-filled, sub_items-le, chunk_end-allocated,
}

raised : (count prev cursor : ℕ) → (count == prev) ≡ true → ltb prev cursor ≡ true → count ≤ cursor
raised count prev cursor same less = ground arith

update-true : (done : ℕ → Bool) (c i : ℕ) → done i ≡ true → update done c true i ≡ true
update-true done c i e = elim (Bool-cases (c == i)) [
  | inl here ↦ rw here refl
  | inr away ↦ rw away e
]

module _ (l : Layout) (cache : Cache) (layout : IsLayout l) (ready : IsReady cache) where
  -- After a step of the worker of chunk `c`.
  pub record Keeps (s : Shared) (c : ℕ) (t : Shared) (pc : Pc) : Type 0 where
    pub shared : IsShared l cache t
    pub knows : Knows l cache t c pc
    pub owns : Owns l cache t c pc
    pub later : Later l cache s t

  abbrev pub KeepsAll : Shared → ℕ → Shared × Pc → Type 0
  KeepsAll s c result = Keeps s c result.0 result.1

  same-Later : (s : Shared) → Later l cache s s
  same-Later s = record {
    done = λ c e. e;
    correct = λ j e. e;
    stopped = λ e. e;
    complete = λ e. e;
    count = omega arith;
  }

  -- A step that leaves the shared state.
  local-Keeps :
      (s : Shared) (c : ℕ) (pc : Pc)
      → IsShared l cache s
      → Knows l cache s c pc
      → Owns l cache s c pc
      → Keeps s c s pc
  local-Keeps s c pc shared knows owns = record {
    shared = shared;
    knows = knows;
    owns = owns;
    later = same-Later s;
  }

  chunk_end-le : (c : ℕ) → c < l.chunks → chunk_start l c ≤ chunk_end l c
  chunk_end-le c lt = let start = layout.nonempty c lt in ground arith

  written-Keeps :
      (s : Shared) (c first count : ℕ) (after : Buffer)
      → IsShared l cache s
      → FilledTo l cache s c first
      → first + count ≤ chunk_end l c
      → ((j : ℕ) → j < count → generate_dataset_item cache (first + j) ≡ some (after j))
      → KeepsAll s c (after_write first count s (filled after))
  unfolding after_write Knows IsBefore
  written-Keeps s c first count after shared (from, to, all) le made =
      let correct = λ (j : ℕ) (e : Correct l cache s.items j).
        put-Correct l cache layout ready s first count after made j (inl e) in
      record {
        shared = record {
          done = λ i i_lt e j a b. correct j (shared.done i i_lt e j a b);
          contiguous = shared.contiguous;
          item_count = shared.item_count;
          complete = λ e j lt. correct j (shared.complete e j lt);
        };
        knows = (
          omega arith,
          le,
          λ j a b. elim (Bool-cases (ltb j first)) [
            | inl before ↦ correct j (all j a (ltb→lt j first before))
            | inr new ↦
                put-Correct l cache layout ready s first count after made j
                  (inr (ltb→ge j first new, b))
          ],
        );
        owns = λ undone. inl tt;
        later = record {
          done = λ c e. e;
          correct = correct;
          stopped = λ e. e;
          complete = λ e. e;
          count = omega arith;
        };
      }

  write-Keeps :
      (s : Shared) (c sub_start : ℕ)
      → IsShared l cache s
      → FilledTo l cache s c sub_start × (sub_start < chunk_end l c)
      → KeepsAll s c (write_sub_chunk l cache c sub_start s)
  unfolding write_sub_chunk
  write-Keeps s c sub_start shared (filled_to, lt) =
      let count = sub_items l c sub_start in
      let le = sub_items-le l cache layout ready c sub_start lt in
      let below = chunk_end-allocated l cache layout ready c in
      let (after, ran, made) =
        call-filled l cache layout ready (λ j. s.items (sub_start + j)) sub_start count
          (omega arith) in
      subst (λ r. KeepsAll s c (after_write sub_start count s r)) (sym ran)
        (written-Keeps s c sub_start count after shared filled_to le made)

  pub step-Keeps :
      (c : ℕ) (spurious : Bool) (s : Shared) (pc : Pc)
      → c < l.chunks
      → IsShared l cache s
      → Knows l cache s c pc
      → Owns l cache s c pc
      → KeepsAll s c (worker_step l cache c spurious s pc)
  unfolding worker_step Knows IsBefore
  step-Keeps c spurious s starting lt shared knows owns = elim (Bool-cases (is_stopped s)) [
    | inl stopped ↦ rw stopped (local-Keeps s c ended shared tt (λ undone. inr stopped))
    | inr runs ↦ rw runs (
        local-Keeps s c (filling (chunk_start l c)) shared
          (omega arith, chunk_end-le c lt, λ j from to. absurd (omega arith)) (λ undone. inl tt))
  ]
  step-Keeps c spurious s (filling sub_start) lt shared (from, to, all) owns =
      elim (Bool-cases (ltb sub_start (chunk_end l c))) [
        | inr full ↦ rw full (
            local-Keeps s c marking shared
              (λ j from' to'. all j from' (omega (arith, ltb→ge _ _ full))) (λ undone. inl tt))
        | inl more ↦ rw more (elim (Bool-cases (is_stopped s)) [
          | inl stopped ↦ rw stopped (local-Keeps s c ended shared tt (λ undone. inr stopped))
          | inr runs ↦ rw runs (
              local-Keeps s c (writing sub_start) shared ((from, to, all), ltb→lt _ _ more)
                (λ undone. inl tt))
        ])
      ]
  step-Keeps c spurious s (writing sub_start) lt shared knows owns =
      write-Keeps s c sub_start shared knows
  step-Keeps c spurious s failing lt shared knows owns = absurd knows
  step-Keeps c spurious s stopping lt shared knows owns = absurd knows
  step-Keeps c spurious s marking lt shared knows owns =
      let kept = λ (i : ℕ) (e : s.chunk_done i ≡ true). update-true s.chunk_done c i e in
      let later : Later l cache s (record s { chunk_done = update s.chunk_done c true }) = record {
        done = kept;
        correct = λ j e. e;
        stopped = λ e. e;
        complete = λ e. e;
        count = omega arith;
      } in
      record {
        shared = record {
          done = λ i i_lt e. elim (Bool-cases (c == i)) [
            | inl here ↦ subst (ChunkCorrect l cache s.items) (ground arith) knows
            | inr away ↦ shared.done i i_lt (rw away at e)
          ];
          contiguous = Later-prefix l cache s _ s.contiguous later shared.contiguous;
          item_count = Later-prefix l cache s _ s.item_count later shared.item_count;
          complete = shared.complete;
        };
        knows = tt;
        owns = λ undone. absurd (ground arith);
        later = later;
      }
  step-Keeps c spurious s loading lt shared knows owns =
      local-Keeps s c (advancing s.contiguous) shared shared.contiguous owns
  step-Keeps c spurious s (advancing cursor) lt shared knows owns =
      elim (Bool-cases (next_is_done l s cursor)) [
        | inl is_done ↦ rw is_done (
            local-Keeps s c (advancing _) shared
              (advanced-IsPrefix l cache layout ready s cursor knows is_done) owns)
        | inr not_done ↦ rw not_done (local-Keeps s c (exchanging cursor) shared knows owns)
      ]
  step-Keeps c spurious s (exchanging cursor) lt shared knows owns = record {
    shared = record {
      done = shared.done;
      contiguous = knows;
      item_count = shared.item_count;
      complete = shared.complete;
    };
    knows = knows;
    owns = owns;
    later = record {
      done = λ c e. e;
      correct = λ j e. e;
      stopped = λ e. e;
      complete = λ e. e;
      count = omega arith;
    };
  }
  step-Keeps c spurious s (counting cursor prev) lt shared knows owns =
      local-Keeps s c (raising cursor prev s.item_count) shared (knows, omega arith) owns
  step-Keeps c spurious s (raising cursor prev item_prev) lt shared (knows, read) owns =
      elim (Bool-cases (ltb item_prev cursor)) [
        | inr high ↦ rw high (local-Keeps s c (deciding cursor prev) shared tt owns)
        | inl low ↦ rw low (elim (Bool-cases (s.item_count == item_prev && not spurious)) [
          | inr fails ↦
              rw fails (
                local-Keeps s c (raising cursor prev s.item_count) shared (knows, omega arith) owns)
          | inl agrees ↦ rw agrees (record {
            shared = record {
              done = shared.done;
              contiguous = shared.contiguous;
              item_count = knows;
              complete = shared.complete;
            };
            knows = tt;
            owns = owns;
            later = record {
              done = λ c e. e;
              correct = λ j e. e;
              stopped = λ e. e;
              complete = λ e. e;
              count = raised s.item_count item_prev cursor (and_true _ _ agrees).0 low;
            };
          })
        ])
      ]
  step-Keeps c spurious s (deciding cursor prev) lt shared knows owns =
      elim (Bool-cases (cursor == prev)) [
        | inl same ↦ rw same (local-Keeps s c checking shared tt owns)
        | inr moved ↦ rw moved (local-Keeps s c loading shared tt owns)
      ]
  step-Keeps c spurious s checking lt shared knows owns = elim (Bool-cases (is_stopped s)) [
    | inl stopped ↦ rw stopped (local-Keeps s c ended shared tt owns)
    | inr runs ↦ rw runs (local-Keeps s c checking_end shared tt owns)
  ]
  step-Keeps c spurious s checking_end lt shared knows owns =
      elim (Bool-cases (leb l.allocated s.contiguous)) [
        | inr less ↦ rw less (local-Keeps s c ended shared tt owns)
        | inl all ↦ rw all (
            local-Keeps s c completing shared
              (λ j j_lt.
                (prefix-Correct l cache s s.contiguous layout shared.done shared.contiguous).1 j
                  (omega (arith, leb→le _ _ all)))
              owns)
      ]
  step-Keeps c spurious s completing lt shared knows owns = record {
    shared = record {
      done = shared.done;
      contiguous = shared.contiguous;
      item_count = shared.item_count;
      complete = λ e. knows;
    };
    knows = tt;
    owns = owns;
    later = record {
      done = λ c e. e;
      correct = λ j e. e;
      stopped = λ e. e;
      complete = λ e. refl;
      count = omega arith;
    };
  }
  step-Keeps c spurious s ended lt shared knows owns = local-Keeps s c ended shared tt owns
