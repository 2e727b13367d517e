-- ===== src/Dataset/Loaded.antt =====
-- The programs of a cache as the end of `Argon2dCache::initialize` in src/argon2.cpp leaves them.
use armrx_aarch64_random_x_v.Common.{
  ℕ, zero, suc, ◌+◌, ◌*◌, ◌^◌, ◌≡◌, ◌<◌, ◌≤◌, arith, refl, ap, sym, subst, ◌∙◌, Option, none, some,
  List, [], ◌++◌, length, update_self, update_ne, ◌>>=◌,
}
use armrx_aarch64_random_x_v.Vm.Types.{Instruction}
use armrx_aarch64_random_x_v.Superscalar.Program.{
  SuperscalarProgram, SuperscalarInstructionType, of_opcode,
}
use armrx_aarch64_random_x_v.Superscalar.Scalar.{Registers, rcp_factor, execute_superscalar}
use armrx_aarch64_random_x_v.Superscalar.Total.{IsRunnable}
use armrx_aarch64_random_x_v.Superscalar.Generator.Random.{Blake2Generator, new_generator}
use armrx_aarch64_random_x_v.Superscalar.Generator.Latency.{generate_superscalar}
use armrx_aarch64_random_x_v.Superscalar.Generator.Invariant.{IsRandom, IsSound}
use armrx_aarch64_random_x_v.Superscalar.Generator.Valid.{generate_superscalar-IsSound}
use armrx_aarch64_random_x_v.Dataset.Programs.{
  tabulate_from, Loaded, store, load_from, load_programs,
}
use armrx_aarch64_random_x_v.Dataset.Translated.{
  Becomes, same, indexed, Grows, grow-Becomes, append_assoc, append_nil, tabulate_from-Translates,
  of_opcode-imul_rcp, execute_superscalar-table,
}

-- The `p`-th of the programs that a generator makes one after another.
unfoldable pub nth_program : ((ℕ → ℕ) → ℕ → ℕ) → ℕ → ℕ → Blake2Generator → Option SuperscalarProgram
nth_program blake2b tries zero gen =
    generate_superscalar blake2b tries gen >>= (λ made. some made.0)
nth_program blake2b tries (suc p) gen =
    generate_superscalar blake2b tries gen >>= (λ made. nth_program blake2b tries p made.1)

-- `loaded` is `prog` but for the divisors that the table holds.
abbrev IsTabled : List ℕ → SuperscalarProgram → SuperscalarProgram → Type 0
IsTabled table prog loaded =
    (loaded ≡ record prog { at = loaded.at })
    × ((j : ℕ) → j < prog.size → IsSound (prog.at j))
    × ((j : ℕ) → j < prog.size → Becomes table (prog.at j) (loaded.at j))

grow-IsTabled :
    (table table' : List ℕ) (prog loaded : SuperscalarProgram)
    → Grows table table'
    → IsTabled table prog loaded
    → IsTabled table' prog loaded
grow-IsTabled table table' prog loaded (more, e) (same_rest, sound, becomes) =
    (same_rest, sound, λ j lt. rw e (grow-Becomes table more (becomes j lt)))

Becomes-known :
    (table : List ℕ) {a b : Instruction}
    → Becomes table a b
    → IsSound a
    → (t : SuperscalarInstructionType) × (of_opcode b.opcode ≡ some t)
Becomes-known table (same other) sound = sound.known
Becomes-known table (indexed k is_rcp found) sound = sound.known

Becomes-tabled :
    (table : List ℕ) {a b : Instruction}
    → Becomes table a b
    → of_opcode b.opcode ≡ some SuperscalarInstructionType.imul_rcp
    → (factor : ℕ) × (rcp_factor (some table) b.imm32 ≡ some factor)
unfolding rcp_factor
Becomes-tabled table (same other) e = let is_rcp = of_opcode-imul_rcp _ e in absurd (ground arith)
Becomes-tabled table (indexed k is_rcp found) e = (_, found)

tabled-IsRunnable :
    (table : List ℕ) (prog loaded : SuperscalarProgram)
    → IsTabled table prog loaded
    → IsRunnable (some table) loaded
tabled-IsRunnable table prog loaded (rest, sound, becomes) =
    let size : loaded.size ≡ prog.size = ap (λ p. p.size) rest in
    record {
      known = λ j lt. Becomes-known table (becomes j (omega arith)) (sound j (omega arith));
      tabled = λ j lt e. Becomes-tabled table (becomes j (omega arith)) e;
    }

tabled-execute :
    (table : List ℕ) (prog loaded : SuperscalarProgram) (r : Registers)
    → IsTabled table prog loaded
    → execute_superscalar (some table) loaded r ≡ execute_superscalar none prog r
tabled-execute table prog loaded r (rest, sound, becomes) =
    ap (λ p. execute_superscalar (some table) p r) rest
    ∙ execute_superscalar-table table prog loaded.at r becomes

module _ (blake2b : (ℕ → ℕ) → ℕ → ℕ) (tries : ℕ) (IsGood : Blake2Generator → Type 0)
    (random : IsRandom blake2b tries IsGood) where
  abbrev IsLoadedFrom : ℕ → ℕ → Blake2Generator → Loaded → Loaded → Type 0
  IsLoadedFrom left i gen before after =
      Grows before.reciprocal_cache after.reciprocal_cache
      × ((p : ℕ)
          → p < left
          → (prog : SuperscalarProgram) × (nth_program blake2b tries p gen ≡ some prog)
            × IsTabled after.reciprocal_cache prog (after.programs (i + p)))
      × ((q : ℕ) → q < i → after.programs q ≡ before.programs q)

  from_next :
      (left i : ℕ) (gen : Blake2Generator) (prog : SuperscalarProgram) (gen' : Blake2Generator)
      → generate_superscalar blake2b tries gen ≡ some (prog, gen')
      → (after : Loaded) → IsTabled after.reciprocal_cache prog (after.programs (i + 0))
      → ((p : ℕ)
          → p < left
          → (x : SuperscalarProgram) × (nth_program blake2b tries p gen' ≡ some x)
            × IsTabled after.reciprocal_cache x (after.programs (i + 1 + p)))
      → (p : ℕ) → p < suc left
      → (x : SuperscalarProgram) × (nth_program blake2b tries p gen ≡ some x)
        × IsTabled after.reciprocal_cache x (after.programs (i + p))
  unfolding nth_program
  from_next left i gen prog gen' made after first later zero lt = (prog, rw made refl, first)
  from_next left i gen prog gen' made after first later (suc p) lt =
      let (x, made', tabled) = later p (omega arith) in
      let here : after.programs (i + 1 + p) ≡ after.programs (i + suc p) =
        ap after.programs (omega arith) in
      (x, rw made made', subst (IsTabled after.reciprocal_cache x) here tabled)

  load_from-IsLoadedFrom :
      (left i : ℕ) (gen : Blake2Generator) (before : Loaded)
      → IsGood gen
      → length before.reciprocal_cache + 512 * left ≤ 2 ^ 32
      → (after : Loaded) × (load_from blake2b tries left i gen before ≡ some after)
        × IsLoadedFrom left i gen before after
  unfolding load_from nth_program
  load_from-IsLoadedFrom zero i gen before good small = (
    before,
    refl,
    (([], append_nil before.reciprocal_cache), (λ p lt. absurd (omega arith)), λ q lt. refl),
  )
  load_from-IsLoadedFrom (suc left) i gen before good small =
      let ((prog, gen'), made, size, sound, address, good') =
        generate_superscalar-IsSound blake2b tries IsGood random gen good in
      let tabled = tabulate_from prog.size 0 (prog.at, before.reciprocal_cache) in
      let ((becomes, rest), grows, le) =
        tabulate_from-Translates prog.size 0 prog.at prog.at before.reciprocal_cache
          ((λ i lt. absurd (omega arith)), λ i le. refl) (omega arith) in
      let stored = store i prog tabled before in
      let (after, ran, (grows', later, below)) =
        load_from-IsLoadedFrom left (i + 1) gen' stored good' (omega arith) in
      let at_i : after.programs (i + 0) ≡ record prog { at = tabled.0 } =
        ap after.programs (omega arith)
        ∙ below i (omega arith)
        ∙ update_self before.programs i (record prog { at = tabled.0 }) in
      let first =
        grow-IsTabled tabled.1 after.reciprocal_cache prog (record prog { at = tabled.0 }) grows'
          (refl, sound, λ j lt. becomes j (omega arith)) in
      let (more, e) = grows in
      let (more', e') = grows' in
      (
        after,
        rw made ran,
        (
          (
            more ++ more',
            e' ∙ ap (λ t. t ++ more') e ∙ append_assoc before.reciprocal_cache more more',
          ),
          from_next left i gen prog gen' made after
              (subst (λ loaded. IsTabled after.reciprocal_cache prog loaded) (sym at_i) first)
              later,
          λ q lt.
              below q (omega arith)
              ∙ update_ne before.programs i (record prog { at = tabled.0 }) q (omega arith),
        ),
      )

  -- For every digest, bound on redraws and set of states that the draws keep and in which each redrawn
  -- constant is accepted within the bound, and every key whose generator starts in such a state: loading
  -- succeeds, each stored program executes with the table of reciprocals, and on every registers with the
  -- result of the program that the generator makes from the key, with reciprocals that are computed.
  pub load_programs-Holds :
      (key : ℕ → ℕ) (key_size : ℕ) (programs : ℕ → SuperscalarProgram)
      → IsGood (new_generator key key_size 0)
      → (after : Loaded) × (load_programs blake2b tries key key_size programs ≡ some after)
        × ((p : ℕ)
            → p < 8
            → (prog : SuperscalarProgram) × (nth_program blake2b tries p
                  (new_generator key key_size 0)
                ≡ some prog)
              × IsRunnable (some after.reciprocal_cache) (after.programs p)
              × ((r : Registers)
                  → execute_superscalar (some after.reciprocal_cache) (after.programs p) r
                    ≡ execute_superscalar none prog r))
  unfolding load_programs
  load_programs-Holds key key_size programs good =
      let (after, ran, (grows, each, below)) =
        load_from-IsLoadedFrom 8 0 (new_generator key key_size 0)
          (record { programs = programs; reciprocal_cache = [] }) good (omega arith) in
      (
        after,
        ran,
        λ p lt.
            let (prog, made, tabled) = each p lt in
            let here : after.programs (0 + p) ≡ after.programs p =
              ap after.programs (omega arith) in
            let tabled' = subst (IsTabled after.reciprocal_cache prog) here tabled in
            (
              prog,
              made,
              tabled-IsRunnable after.reciprocal_cache prog (after.programs p) tabled',
              λ r. tabled-execute after.reciprocal_cache prog (after.programs p) r tabled',
            ),
      )
