-- ===== src/Hash/Lanes.antt =====
-- A row of the NEON form of `compress` of src/blake2b.cpp, lane by lane.
use armrx_aarch64_random_x_v.Common.{
  ℕ, zero, suc, ◌-◌, ◌*◌, ◌%◌, ◌^◌, ◌≡◌, ◌<◌, ◌≤◌, refl, sym, ap, ◌∙◌, arith, bit_or, bit_xor,
  add64, shl64, shr, update_ne,
}
use armrx_aarch64_random_x_v.Vm.Words.{rotr}
use armrx_aarch64_random_x_v.Hash.Blake.{Words, assign, mix}
use armrx_aarch64_random_x_v.Hash.Neon.{sri, neon_row}

sri-rotr :
    (x n p : ℕ)
    → 2 ^ (64 - n) ≡ p
    → x * p % 2 ^ 64 % p ≡ 0
    → sri (x * p % 2 ^ 64) x n ≡ bit_or (shr x n) (x * p % 2 ^ 64)
sri-rotr x n p e low =
    let whole : x * p % 2 ^ 64 - x * p % 2 ^ 64 % p ≡ x * p % 2 ^ 64 = omega (arith, low) in
    rw e (ap (bit_or (shr x n)) whole)

rotate32 : (x : ℕ) → sri (shl64 x 32) x 32 ≡ rotr x 32
unfolding rotr
rotate32 x = sri-rotr x 32 (2 ^ 32) refl (omega arith)

rotate24 : (x : ℕ) → sri (shl64 x 40) x 24 ≡ rotr x 24
unfolding rotr
rotate24 x = sri-rotr x 24 (2 ^ 40) refl (omega arith)

rotate16 : (x : ℕ) → sri (shl64 x 48) x 16 ≡ rotr x 16
unfolding rotr
rotate16 x = sri-rotr x 16 (2 ^ 48) refl (omega arith)

rotate63 : (x : ℕ) → sri (shl64 x 1) x 63 ≡ rotr x 63
unfolding rotr
rotate63 x = sri-rotr x 63 (2 ^ 1) refl (omega arith)

add64_assoc : (a b c : ℕ) → add64 a (add64 b c) ≡ add64 (add64 a b) c
add64_assoc a b c = omega arith

-- A property of all numbers, from those below 16 and the rest.
pub below_16 {ℓ} :
    (P : ℕ → Type ℓ)
    → P 0
    → P 1
    → P 2
    → P 3
    → P 4
    → P 5
    → P 6
    → P 7
    → P 8
    → P 9
    → P 10
    → P 11
    → P 12
    → P 13
    → P 14
    → P 15
    → ((j : ℕ) → 16 ≤ j → P j)
    → (j : ℕ) → P j
below_16 P p0 p1 p2 p3 p4 p5 p6 p7 p8 p9 p10 p11 p12 p13 p14 p15 above = go
  where
    go : (j : ℕ) → P j
    go zero = p0
    go (suc zero) = p1
    go (suc (suc zero)) = p2
    go (suc (suc (suc zero))) = p3
    go (suc (suc (suc (suc zero)))) = p4
    go (suc (suc (suc (suc (suc zero))))) = p5
    go (suc (suc (suc (suc (suc (suc zero)))))) = p6
    go (suc (suc (suc (suc (suc (suc (suc zero))))))) = p7
    go (suc (suc (suc (suc (suc (suc (suc (suc zero)))))))) = p8
    go (suc (suc (suc (suc (suc (suc (suc (suc (suc zero))))))))) = p9
    go (suc (suc (suc (suc (suc (suc (suc (suc (suc (suc zero)))))))))) = p10
    go (suc (suc (suc (suc (suc (suc (suc (suc (suc (suc (suc zero))))))))))) = p11
    go (suc (suc (suc (suc (suc (suc (suc (suc (suc (suc (suc (suc zero)))))))))))) = p12
    go (suc (suc (suc (suc (suc (suc (suc (suc (suc (suc (suc (suc (suc zero))))))))))))) = p13
    go (suc (suc (suc (suc (suc (suc (suc (suc (suc (suc (suc (suc (suc (suc zero)))))))))))))) =
        p14
    go
          (suc (
            suc
              (suc (suc (suc (suc (suc (suc (suc (suc (suc (suc (suc (suc (suc zero))))))))))))))) =
        p15
    go
          (suc (
            suc (
              suc
                (suc (suc (suc (suc (suc (suc (suc (suc (suc (suc (suc (suc (suc j)))))))))))))))) =
        above _ (omega arith)

assign-above : (i : ℕ) (f : Words → ℕ) (v : Words) (j : ℕ) → i < j → assign i f v j ≡ v j
unfolding assign
assign-above i f v j lt = update_ne v i (f v) j (λ e. absurd (omega (arith, e)))

mix-above :
    (a b c d x y : ℕ) (v : Words) (j : ℕ)
    → a < j
    → b < j
    → c < j
    → d < j
    → mix a b c d x y v j ≡ v j
unfolding mix
mix-above a b c d x y v j la lb lc ld =
    assign-above b _ _ j lb
    ∙ assign-above c _ _ j lc
    ∙ assign-above d _ _ j ld
    ∙ assign-above a _ _ j la
    ∙ assign-above b _ _ j lb
    ∙ assign-above c _ _ j lc
    ∙ assign-above d _ _ j ld
    ∙ assign-above a _ v j la

pub words_ext : {A : Type 0} (f g : ℕ → A) → ((j : ℕ) → f j ≡ g j) → f ≡ g
words_ext f g h i j = h j i

-- The results of one lane, over the rotations and the sum of three words.
pub record Steps : Type 0 where
  pub rot32 : ℕ → ℕ
  pub rot24 : ℕ → ℕ
  pub rot16 : ℕ → ℕ
  pub rot63 : ℕ → ℕ
  pub sum : ℕ → ℕ → ℕ → ℕ

pub record Quarter : Type 0 where
  pub qa : ℕ
  pub qb : ℕ
  pub qc : ℕ
  pub qd : ℕ

unfoldable pub quarter : Steps → ℕ → ℕ → ℕ → ℕ → ℕ → ℕ → Quarter
quarter t a b c d x y =
    let a1 = t.sum a b x in
    let d1 = t.rot32 (bit_xor d a1) in
    let c1 = add64 c d1 in
    let b1 = t.rot24 (bit_xor b c1) in
    let a2 = t.sum a1 b1 y in
    let d2 = t.rot16 (bit_xor d1 a2) in
    let c2 = add64 c1 d2 in record { qa = a2; qb = t.rot63 (bit_xor b1 c2); qc = c2; qd = d2 }

unfoldable pub store_lanes : ℕ → ℕ → ℕ → ℕ → ℕ → ℕ → ℕ → ℕ → Quarter → Quarter → Words → Words
store_lanes a0 a1 b0 b1 c0 c1 d0 d1 q0 q1 v =
    let va = assign a1 (λ u. q1.qa) (assign a0 (λ u. q0.qa) v) in
    let vb = assign b1 (λ u. q1.qb) (assign b0 (λ u. q0.qb) va) in
    let vc = assign c1 (λ u. q1.qc) (assign c0 (λ u. q0.qc) vb) in
    assign d1 (λ u. q1.qd) (assign d0 (λ u. q0.qd) vc)

module _ (a0 a1 b0 b1 c0 c1 d0 d1 x0 x1 y0 y1 : ℕ) (v : Words) where
  unfoldable pub row_with : Steps → Words
  row_with t =
      store_lanes a0 a1 b0 b1 c0 c1 d0 d1 (quarter t (v a0) (v b0) (v c0) (v d0) x0 y0)
        (quarter t (v a1) (v b1) (v c1) (v d1) x1 y1) v

unfoldable pub neon_steps : Steps
neon_steps = record {
  rot32 = λ x. sri (shl64 x 32) x 32;
  rot24 = λ x. sri (shl64 x 40) x 24;
  rot16 = λ x. sri (shl64 x 48) x 16;
  rot63 = λ x. sri (shl64 x 1) x 63;
  sum = λ a b c. add64 a (add64 b c);
}

unfoldable pub scalar_steps : Steps
scalar_steps = record {
  rot32 = λ x. rotr x 32;
  rot24 = λ x. rotr x 24;
  rot16 = λ x. rotr x 16;
  rot63 = λ x. rotr x 63;
  sum = λ a b c. add64 (add64 a b) c;
}

pub same_steps : neon_steps ≡ scalar_steps
unfolding neon_steps scalar_steps
same_steps i = record {
  rot32 = λ x. rotate32 x i;
  rot24 = λ x. rotate24 x i;
  rot16 = λ x. rotate16 x i;
  rot63 = λ x. rotate63 x i;
  sum = λ a b c. add64_assoc a b c i;
}

pub neon_row-steps :
    (a0 a1 b0 b1 c0 c1 d0 d1 x0 x1 y0 y1 : ℕ) (v : Words)
    → neon_row a0 a1 b0 b1 c0 c1 d0 d1
        (record { lane0 = x0; lane1 = x1 })
        (record { lane0 = y0; lane1 = y1 })
        v
      ≡ row_with a0 a1 b0 b1 c0 c1 d0 d1 x0 x1 y0 y1 v neon_steps
unfolding neon_row row_with store_lanes quarter neon_steps assign
neon_row-steps a0 a1 b0 b1 c0 c1 d0 d1 x0 x1 y0 y1 v = refl

-- No index from 16 on is written.
pub row-above :
    (a0 a1 b0 b1 c0 c1 d0 d1 x0 x1 y0 y1 : ℕ) (v : Words) (t : Steps) (j : ℕ)
    → (a0 < j) × (a1 < j) × (b0 < j) × (b1 < j) × (c0 < j) × (c1 < j) × (d0 < j) × (d1 < j)
    → row_with a0 a1 b0 b1 c0 c1 d0 d1 x0 x1 y0 y1 v t j
      ≡ mix a1 b1 c1 d1 x1 y1 (mix a0 b0 c0 d0 x0 y0 v) j
unfolding row_with store_lanes
row-above a0 a1 b0 b1 c0 c1 d0 d1 x0 x1 y0 y1 v t j (la0, la1, lb0, lb1, lc0, lc1, ld0, ld1) =
    assign-above d1 _ _ j ld1
    ∙ assign-above d0 _ _ j ld0
    ∙ assign-above c1 _ _ j lc1
    ∙ assign-above c0 _ _ j lc0
    ∙ assign-above b1 _ _ j lb1
    ∙ assign-above b0 _ _ j lb0
    ∙ assign-above a1 _ _ j la1
    ∙ assign-above a0 _ v j la0
    ∙ sym (
        mix-above a1 b1 c1 d1 x1 y1 _ j la1 lb1 lc1 ld1
        ∙ mix-above a0 b0 c0 d0 x0 y0 v j la0 lb0 lc0 ld0)
