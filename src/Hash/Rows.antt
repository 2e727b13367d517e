-- ===== src/Hash/Rows.antt =====
-- The two forms of `compress` of src/blake2b.cpp, row by row.
use armrx_aarch64_random_x_v.Common.{
  ℕ, ◌+◌, ◌≡◌, refl, ap, ◌∙◌, arith, bit_xor, Bool, List, [], ◌∷◌, get_or,
}
use armrx_aarch64_random_x_v.Vm.Memory.{Bytes}
use armrx_aarch64_random_x_v.Hash.Blake.{Words, assign, mix, round, rounds, compress}
use armrx_aarch64_random_x_v.Hash.Neon.{neon_row, neon_round, neon_rounds, compress_neon}
use armrx_aarch64_random_x_v.Hash.Lanes.{
  below_16, words_ext, quarter, store_lanes, row_with, scalar_steps, same_steps, neon_row-steps,
  row-above,
}

row1 :
    (x0 x1 y0 y1 : ℕ) (v : Words)
    → row_with 0 1 4 5 8 9 12 13 x0 x1 y0 y1 v scalar_steps
      ≡ mix 1 5 9 13 x1 y1 (mix 0 4 8 12 x0 y0 v)
unfolding row_with store_lanes quarter scalar_steps mix assign
row1 x0 x1 y0 y1 v = words_ext _ _ (
    below_16 _ refl refl refl refl refl refl refl refl refl refl refl refl refl refl refl refl
      (λ j le. row-above 0 1 4 5 8 9 12 13 x0 x1 y0 y1 v scalar_steps j (
        omega arith,
        omega arith,
        omega arith,
        omega arith,
        omega arith,
        omega arith,
        omega arith,
        omega arith,
      )))

row2 :
    (x0 x1 y0 y1 : ℕ) (v : Words)
    → row_with 2 3 6 7 10 11 14 15 x0 x1 y0 y1 v scalar_steps
      ≡ mix 3 7 11 15 x1 y1 (mix 2 6 10 14 x0 y0 v)
unfolding row_with store_lanes quarter scalar_steps mix assign
row2 x0 x1 y0 y1 v = words_ext _ _ (
    below_16 _ refl refl refl refl refl refl refl refl refl refl refl refl refl refl refl refl
      (λ j le. row-above 2 3 6 7 10 11 14 15 x0 x1 y0 y1 v scalar_steps j (
        omega arith,
        omega arith,
        omega arith,
        omega arith,
        omega arith,
        omega arith,
        omega arith,
        omega arith,
      )))

row3 :
    (x0 x1 y0 y1 : ℕ) (v : Words)
    → row_with 0 1 5 6 10 11 15 12 x0 x1 y0 y1 v scalar_steps
      ≡ mix 1 6 11 12 x1 y1 (mix 0 5 10 15 x0 y0 v)
unfolding row_with store_lanes quarter scalar_steps mix assign
row3 x0 x1 y0 y1 v = words_ext _ _ (
    below_16 _ refl refl refl refl refl refl refl refl refl refl refl refl refl refl refl refl
      (λ j le. row-above 0 1 5 6 10 11 15 12 x0 x1 y0 y1 v scalar_steps j (
        omega arith,
        omega arith,
        omega arith,
        omega arith,
        omega arith,
        omega arith,
        omega arith,
        omega arith,
      )))

row4 :
    (x0 x1 y0 y1 : ℕ) (v : Words)
    → row_with 2 3 7 4 8 9 13 14 x0 x1 y0 y1 v scalar_steps
      ≡ mix 3 4 9 14 x1 y1 (mix 2 7 8 13 x0 y0 v)
unfolding row_with store_lanes quarter scalar_steps mix assign
row4 x0 x1 y0 y1 v = words_ext _ _ (
    below_16 _ refl refl refl refl refl refl refl refl refl refl refl refl refl refl refl refl
      (λ j le. row-above 2 3 7 4 8 9 13 14 x0 x1 y0 y1 v scalar_steps j (
        omega arith,
        omega arith,
        omega arith,
        omega arith,
        omega arith,
        omega arith,
        omega arith,
        omega arith,
      )))

neon_row-mix :
    (a0 a1 b0 b1 c0 c1 d0 d1 x0 x1 y0 y1 : ℕ)
    → ((v : Words)
        → row_with a0 a1 b0 b1 c0 c1 d0 d1 x0 x1 y0 y1 v scalar_steps
          ≡ mix a1 b1 c1 d1 x1 y1 (mix a0 b0 c0 d0 x0 y0 v))
    → (u v : Words) → u ≡ v
    → neon_row a0 a1 b0 b1 c0 c1 d0 d1
        (record { lane0 = x0; lane1 = x1 })
        (record { lane0 = y0; lane1 = y1 })
        u
      ≡ mix a1 b1 c1 d1 x1 y1 (mix a0 b0 c0 d0 x0 y0 v)
neon_row-mix a0 a1 b0 b1 c0 c1 d0 d1 x0 x1 y0 y1 scalar u v same =
    neon_row-steps a0 a1 b0 b1 c0 c1 d0 d1 x0 x1 y0 y1 u
    ∙ ap (row_with a0 a1 b0 b1 c0 c1 d0 d1 x0 x1 y0 y1 u) same_steps
    ∙ scalar u
    ∙ ap (λ w. mix a1 b1 c1 d1 x1 y1 (mix a0 b0 c0 d0 x0 y0 w)) same

neon_round-round : (m : Words) (s : List ℕ) (v : Words) → neon_round m s v ≡ round m s v
unfolding neon_round round
neon_round-round m s v =
    let word : ℕ → ℕ = λ i. m (get_or s i 0) in
    neon_row-mix 2 3 7 4 8 9 13 14 (word 12) (word 14) (word 13) (word 15)
      (row4 (word 12) (word 14) (word 13) (word 15)) _ _
      (neon_row-mix 0 1 5 6 10 11 15 12 (word 8) (word 10) (word 9) (word 11)
        (row3 (word 8) (word 10) (word 9) (word 11)) _ _
        (neon_row-mix 2 3 6 7 10 11 14 15 (word 4) (word 6) (word 5) (word 7)
          (row2 (word 4) (word 6) (word 5) (word 7)) _ _
          (neon_row-mix 0 1 4 5 8 9 12 13 (word 0) (word 2) (word 1) (word 3)
            (row1 (word 0) (word 2) (word 1) (word 3)) v v refl)))

neon_rounds-rounds :
    (m : Words) (table : List (List ℕ)) (v : Words) → neon_rounds m table v ≡ rounds m table v
unfolding neon_rounds rounds
neon_rounds-rounds m [] v = refl
neon_rounds-rounds m (s ∷ rest) v =
    neon_rounds-rounds m rest (neon_round m s v) ∙ ap (rounds m rest) (neon_round-round m s v)

-- The NEON form of `compress` computes what the scalar form does, for every state, block, count of
-- bytes and flag.
pub compress_neon-compress :
    (h : Words) (block : Bytes) (bytes : ℕ) (last : Bool)
    → compress_neon h block bytes last ≡ compress h block bytes last
unfolding compress_neon compress
compress_neon-compress h block bytes last =
    let finish : Words → Words = λ w i. bit_xor (h i) (bit_xor (w i) (w (i + 8))) in
    ap finish (neon_rounds-rounds _ _ _)
