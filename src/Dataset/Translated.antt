-- ===== src/Dataset/Translated.antt =====
-- The programs of the cache and their table of reciprocals, against the programs as they are generated;
-- on src/argon2.cpp and src/superscalar.cpp.
use armrx_aarch64_random_x_v.Common.{
  ℕ, zero, suc, ◌+◌, ◌^◌, ◌≡◌, ◌<◌, ◌≤◌, inl, inr, arith, refl, ap, subst, ◌∙◌, Option,
  Option-cases, none, some, List, [], ◌∷◌, ◌++◌, length, length-append, get_elem?, ◌==◌, Bool, true,
  false, Bool-cases, update_self, update_ne, u32, ◌>>=◌,
}
use armrx_aarch64_random_x_v.Vm.Types.{Instruction}
use armrx_aarch64_random_x_v.Superscalar.Program.{
  SuperscalarProgram, SuperscalarInstructionType, of_opcode,
}
use armrx_aarch64_random_x_v.Superscalar.Reciprocal.{reciprocal}
use armrx_aarch64_random_x_v.Superscalar.Scalar.{
  Registers, rcp_factor, scalar_op, execute_from, execute_superscalar,
}
use armrx_aarch64_random_x_v.Superscalar.Generator.Tables.{is_imul_rcp}
use armrx_aarch64_random_x_v.Superscalar.Generator.Invariant.{All}
use armrx_aarch64_random_x_v.Dataset.Programs.{Tabled, imul_rcp_opcode, tabulate, tabulate_from}

get_elem?-append {ℓ} :
    {A : Type ℓ} (xs ys : List A) (i : ℕ) (a : A)
    → get_elem? xs i ≡ some a
    → get_elem? (xs ++ ys) i ≡ some a
get_elem?-append [] ys i a e = cc
get_elem?-append (x ∷ xs) ys zero a e = e
get_elem?-append (x ∷ xs) ys (suc i) a e = get_elem?-append xs ys i a e

get_elem?-last {ℓ} :
    {A : Type ℓ} (xs : List A) (a : A) → get_elem? (xs ++ (a ∷ [])) (length xs) ≡ some a
get_elem?-last [] a = refl
get_elem?-last (x ∷ xs) a = get_elem?-last xs a

pub append_nil {ℓ} : {A : Type ℓ} (xs : List A) → xs ≡ xs ++ []
append_nil [] = refl
append_nil (x ∷ xs) = ap (λ ys. x ∷ ys) (append_nil xs)

pub append_assoc {ℓ} : {A : Type ℓ} (xs ys zs : List A) → (xs ++ ys) ++ zs ≡ xs ++ (ys ++ zs)
append_assoc [] ys zs = refl
append_assoc (x ∷ xs) ys zs = ap (λ vs. x ∷ vs) (append_assoc xs ys zs)

-- An instruction and what it becomes: itself, or an IMUL_RCP by the index of its reciprocal.
pub data Becomes (table : List ℕ) (a : Instruction) : Instruction → Type 0 where
  same : (a.opcode == imul_rcp_opcode) ≡ false → Becomes table a a
  indexed :
      (k : ℕ)
      → (a.opcode == imul_rcp_opcode) ≡ true
      → get_elem? table k ≡ some (reciprocal a.imm32)
      → Becomes table a (record a { imm32 = k })

pub grow-Becomes :
    (table more : List ℕ) {a b : Instruction} → Becomes table a b → Becomes (table ++ more) a b
grow-Becomes table more (same other) = same other
grow-Becomes table more (indexed k is_rcp found) =
    indexed k is_rcp (get_elem?-append table more k _ found)

-- The first `j` instructions are translated, the others are as they were.
abbrev pub Translates : ℕ → (ℕ → Instruction) → Tabled → Type 0
Translates j before (after, table) =
    ((i : ℕ) → i < j → Becomes table (before i) (after i)) × ((i : ℕ) → j ≤ i → after i ≡ before i)

-- The table has grown.
abbrev pub Grows : List ℕ → List ℕ → Type 0
Grows table table' = (more : List ℕ) × (table' ≡ table ++ more)

new-Becomes :
    (table : List ℕ) (a b : Instruction)
    → b ≡ a
    → (a.opcode == imul_rcp_opcode) ≡ true
    → length table < 2 ^ 32
    → Becomes (table ++ (reciprocal b.imm32 ∷ [])) a (record b { imm32 = u32 (length table) })
new-Becomes table a b e is_rcp small =
    let index : u32 (length table) ≡ length table = omega arith in
    rw (e, index) (indexed (length table) is_rcp (get_elem?-last table (reciprocal a.imm32)))

tabulate-Translates :
    (before : ℕ → Instruction) (j : ℕ) (after : ℕ → Instruction) (table : List ℕ)
    → Translates j before (after, table)
    → length table < 2 ^ 32
    → Translates (suc j) before (tabulate j (after, table))
      × Grows table (tabulate j (after, table)).1
      × (length (tabulate j (after, table)).1 ≤ length table + 1)
unfolding tabulate
tabulate-Translates before j after table (done, rest) small =
    elim (Bool-cases ((after j).opcode == imul_rcp_opcode)) [
      | inr other ↦ rw other (
        (
          λ i lt. elim (Bool-cases (i == j)) [
            | inl here ↦
                let at : i ≡ j = ground arith in
                rw (at, rest j (omega arith)) (same (rw⁻¹ (rest j (omega arith)) other))
            | inr away ↦ done i (ground arith)
          ],
          λ i le. rest i (omega arith),
        ),
        ([], append_nil table),
        omega arith,
      )
      | inl is_rcp ↦
          let fresh = record (after j) { imm32 = u32 (length table) } in
          rw is_rcp (
            (
              λ i lt. elim (Bool-cases (j == i)) [
                | inl here ↦
                    let at : i ≡ j = ground arith in
                    rw (at, update_self after j fresh)
                      (new-Becomes table (before j) (after j) (rest j (omega arith))
                        (rw⁻¹ (rest j (omega arith)) is_rcp) small)
                | inr away ↦ rw away (grow-Becomes table _ (done i (ground arith)))
              ],
              λ i le. update_ne after j fresh i (omega arith) ∙ rest i (omega arith),
            ),
            (_, refl),
            omega (arith, length-append table (reciprocal (after j).imm32 ∷ [])),
          )
    ]

pub tabulate_from-Translates :
    (left j : ℕ) (before : ℕ → Instruction) (after : ℕ → Instruction) (table : List ℕ)
    → Translates j before (after, table)
    → length table + left ≤ 2 ^ 32
    → Translates (j + left) before (tabulate_from left j (after, table))
      × Grows table (tabulate_from left j (after, table)).1
      × (length (tabulate_from left j (after, table)).1 ≤ length table + left)
unfolding tabulate_from
tabulate_from-Translates zero j before after table translates small = (
  subst (λ n. Translates n before (after, table)) (omega arith) translates,
  ([], append_nil table),
  omega arith,
)
tabulate_from-Translates (suc left) j before after table translates small =
    let (translates', (more, grown), le) =
      tabulate-Translates before j after table translates (omega arith) in
    let next = tabulate j (after, table) in
    let (translated, (more', grown'), le') =
      tabulate_from-Translates left (j + 1) before next.0 next.1
        (subst (λ n. Translates n before next) (omega arith) translates') (omega arith) in
    (
      subst (λ n. Translates n before (tabulate_from left (j + 1) next)) (omega arith) translated,
      (more ++ more', grown' ∙ ap (λ t. t ++ more') grown ∙ append_assoc table more more'),
      omega arith,
    )

-- The place of what no earlier element is.
last_place :
    (test : SuperscalarInstructionType → Bool) (xs : List SuperscalarInstructionType)
    (t : SuperscalarInstructionType) (n : ℕ)
    → All (λ x. test x ≡ false) xs
    → test t ≡ true
    → get_elem? (xs ++ (t ∷ [])) n ≡ some t
    → n ≡ length xs
last_place test [] t zero none_before is_t e = refl
last_place test [] t (suc n) none_before is_t e = cc
last_place test (x ∷ xs) t zero (other, none_before) is_t e = cc
last_place test (x ∷ xs) t (suc n) (other, none_before) is_t e =
    ap suc (last_place test xs t n none_before is_t e)

pub of_opcode-imul_rcp :
    (n : ℕ) → of_opcode n ≡ some SuperscalarInstructionType.imul_rcp → n ≡ imul_rcp_opcode
unfolding of_opcode
of_opcode-imul_rcp n e =
    last_place (λ t. is_imul_rcp (some t))
      (SuperscalarInstructionType.isub_r ∷ SuperscalarInstructionType.ixor_r
        ∷ SuperscalarInstructionType.iadd_rs ∷ SuperscalarInstructionType.imul_r
        ∷ SuperscalarInstructionType.iror_c ∷ SuperscalarInstructionType.iadd_c7
        ∷ SuperscalarInstructionType.ixor_c7 ∷ SuperscalarInstructionType.iadd_c8
        ∷ SuperscalarInstructionType.ixor_c8 ∷ SuperscalarInstructionType.iadd_c9
        ∷ SuperscalarInstructionType.ixor_c9 ∷ SuperscalarInstructionType.imulh_r
        ∷ SuperscalarInstructionType.ismulh_r ∷ [])
      SuperscalarInstructionType.imul_rcp n
      (
        refl,
        (
          refl,
          (
            refl,
            (refl, (refl, (refl, (refl, (refl, (refl, (refl, (refl, (refl, (refl, tt)))))))))),
          ),
        ),
      )
      refl e

then_equal {ℓ κ} :
    {A : Type ℓ} {B : Type κ} (o : Option A) (next next' : A → Option B)
    → ((a : A) → next a ≡ next' a)
    → (o >>= next) ≡ (o >>= next')
then_equal none next next' h = refl
then_equal (some a) next next' h = h a

scalar_op-table :
    (table : List ℕ) (t : SuperscalarInstructionType) (a : Instruction) (r : Registers)
    → of_opcode a.opcode ≡ some t
    → (a.opcode == imul_rcp_opcode) ≡ false
    → scalar_op (some table) t a r ≡ scalar_op none t a r
unfolding scalar_op
scalar_op-table table SuperscalarInstructionType.imul_rcp a r e other =
    let is_rcp = of_opcode-imul_rcp a.opcode e in absurd (ground arith)
scalar_op-table table _ a r e other = refl

step-table :
    (table : List ℕ) (a b : Instruction) (r : Registers) (next next' : Registers → Option Registers)
    → Becomes table a b
    → ((r' : Registers) → next r' ≡ next' r')
    → (of_opcode b.opcode >>= (λ op. scalar_op (some table) op b r >>= next))
      ≡ (of_opcode a.opcode >>= (λ op. scalar_op none op a r >>= next'))
unfolding scalar_op of_opcode rcp_factor
step-table table a b r next next' (same other) h = elim (Option-cases (of_opcode a.opcode)) [
  | inl unknown ↦ rw unknown refl
  | inr (t, known) ↦
      rw (known, scalar_op-table table t a r known other)
        (then_equal (scalar_op none t a r) next next' h)
]
step-table table a b r next next' (indexed k is_rcp found) h =
    let opcode : a.opcode ≡ 13 = ground arith in rw (opcode, found) (h _)

-- A program whose instructions are all translated executes with the table like the program before
-- without one.
pub execute_superscalar-table :
    (table : List ℕ) (prog : SuperscalarProgram) (after : ℕ → Instruction) (r : Registers)
    → ((j : ℕ) → j < prog.size → Becomes table (prog.at j) (after j))
    → execute_superscalar (some table) (record prog { at = after }) r
      ≡ execute_superscalar none prog r
unfolding execute_superscalar execute_from
execute_superscalar-table table prog after r translated = go prog.size 0 r (omega arith)
  where
    go :
        (left j : ℕ) (r : Registers)
        → j + left ≡ prog.size
        → execute_from (some table) left j (record prog { at = after }) r
          ≡ execute_from none left j prog r
    go zero j r e = refl
    go (suc left) j r e =
        step-table table (prog.at j) (after j) r _ _ (translated j (omega arith))
          (λ r'. go left (j + 1) r' (omega arith))
