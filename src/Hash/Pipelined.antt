-- ===== src/Hash/Pipelined.antt =====
-- The pipelined hashes of src/vm.cpp against the plain ones.
use armrx_aarch64_random_x_v.Common.{
  ℕ, zero, suc, ◌≡◌, ◌<◌, ◌≤◌, refl, sym, ap₂, ◌∙◌, arith, inl, inr, Option, none, some, ◌>>=◌,
  Option-cases, List, [], ◌∷◌, Bool, false, ◌==◌, ◌||◌, if◌then◌else◌, ltb, ge→ltb,
}
use armrx_aarch64_random_x_v.Vm.Memory.{Bytes, scratchpad_bytes}
use armrx_aarch64_random_x_v.Vm.Setup.{initialize_vm_state}
use armrx_aarch64_random_x_v.Hash.Fill.{AesState, read_state, fill_aes_1r_x4, hash_aes_1r_x4}
use armrx_aarch64_random_x_v.Hash.Blake.{blake2b}
use armrx_aarch64_random_x_v.Hash.Program.{
  Hasher, Setting, run, with_machine, set_scratchpad, init_scratchpad, reset_rounding_mode,
  register_file, put_group_a,
}
use armrx_aarch64_random_x_v.Hash.Calculate.{
  restore, chain_programs, get_final_result, randomx_calculate_hash, chain_programs_pipelined,
  start_pipelined, randomx_calculate_hash_pipelined, hash_stream, plain_hashes,
}

some_unless {ℓ} :
    {A : Type ℓ} (b : Bool) (x : A) → b ≡ false → (d : A) × ((if b then none else some x) ≡ some d)
some_unless b x h = (x, rw h refl)

pub blake2b-total :
    (input : List ℕ) (n : ℕ) → 0 < n → n ≤ 64 → (d : Bytes) × (blake2b input n ≡ some d)
unfolding blake2b
blake2b-total input n positive small =
    let not_zero : (n == 0) ≡ false = ground arith in
    some_unless ((n == 0) || ltb 64 n) _ (rw (not_zero, ge→ltb 64 n small) refl)

bind_same {ℓ} :
    {A B : Type ℓ} (o : Option A) (f g : A → Option B)
    → ((a : A) → f a ≡ g a)
    → (o >>= f) ≡ (o >>= g)
bind_same none f g same = refl
bind_same (some a) f g same = same a

-- The two loops.
chain_programs-same :
    (c : Setting) (left : ℕ) (seed : AesState) (m : Hasher)
    → chain_programs_pipelined c left seed m ≡ chain_programs c left seed m
unfolding chain_programs chain_programs_pipelined
chain_programs-same c zero seed m = refl
chain_programs-same c (suc left) seed m = bind_same (run c seed m) _ _ (λ m'.
    bind_same (blake2b (register_file m'.vm.machine) 64) _ _
      (λ digest. chain_programs-same c left (read_state digest 0) m'))

-- A machine without what a hash overwrites before it reads it: the scratchpad, the registers `a` and
-- the rounding mode.
abbrev pub erase : Hasher → Hasher
erase m = with_machine m (record m.vm.machine {
  scratchpad = λ j. 0;
  a = λ i. record { lo = 0; hi = 0 };
  fpu_mode = 0;
  last_rounding_mode = 0;
})

chain-erase :
    (c : Setting) (left : ℕ) (seed : AesState) (m : Hasher)
    → chain_programs c (suc left) seed (reset_rounding_mode m)
      ≡ chain_programs c
          (suc left)
          seed
          (reset_rounding_mode (set_scratchpad m.vm.machine.scratchpad (erase m)))
unfolding chain_programs run initialize_vm_state reset_rounding_mode
chain-erase c left seed m = refl

chain_programs-erased :
    (c : Setting) (left : ℕ) (seed : AesState) (m n : Hasher)
    → erase m ≡ erase n
    → m.vm.machine.scratchpad ≡ n.vm.machine.scratchpad
    → chain_programs c (suc left) seed (reset_rounding_mode m)
      ≡ chain_programs c (suc left) seed (reset_rounding_mode n)
chain_programs-erased c left seed m n same pads =
    chain-erase c left seed m
    ∙ ap₂ (λ x pad. chain_programs c (suc left) seed (reset_rounding_mode (set_scratchpad pad x)))
        same pads
    ∙ sym (chain-erase c left seed n)

-- The machine `m` holds the scratchpad that the plain function would fill for `input`, and `seed`
-- is what that fill leaves in the seed.
pub record IsFilled (c : Setting) (input : List ℕ) (seed : AesState) (m : Hasher) : Type 0 where
  pub digest : Bytes
  pub hashed : blake2b input 64 ≡ some digest
  pub seeded : seed ≡ (fill_aes_1r_x4 c.luts scratchpad_bytes (read_state digest 0)).0
  pub padded :
      m.vm.machine.scratchpad ≡ (fill_aes_1r_x4 c.luts scratchpad_bytes (read_state digest 0)).1

-- A seed comes with its scratchpad.
unfoldable IsReady : Setting → List ℕ → Option AesState → Hasher → Type 0
IsReady c input none m = Unit
IsReady c input (some seed) m = IsFilled c input seed m

-- The results of the plain and the pipelined function agree.
unfoldable Agree :
    Setting → List ℕ → Option (Bytes × Hasher) → Option (Bytes × AesState × Hasher) → Type 0
Agree c next none none = Unit
Agree c next (some (output, m)) (some (output', seed, n)) =
    (output' ≡ output) × (erase n ≡ erase m) × IsFilled c next seed n
Agree c next _ _ = ⊥

module _ (c : Setting) (input next : List ℕ) where
  -- From the same results of the first seven programs.
  finish-Agree :
      (mode mode' : ℕ) (chained : Option (AesState × Hasher))
      → Agree c next
          (do
            t ← chained
            last ← run c t.0 t.1
            result ← get_final_result c last
            some (result.0, restore mode result.1))
          (do
            t ← chained
            last ← run c t.0 t.1
            next_digest ← blake2b next 64
            let hash_state = hash_aes_1r_x4 c.luts scratchpad_bytes last.vm.machine.scratchpad
            let filled = fill_aes_1r_x4 c.luts scratchpad_bytes (read_state next_digest 0)
            output ← blake2b (register_file (put_group_a hash_state last.vm.machine)) 32
            some (output, filled.0, restore mode' (set_scratchpad filled.1 last)))
  unfolding Agree get_final_result put_group_a
  finish-Agree mode mode' none = tt
  finish-Agree mode mode' (some t) = elim (Option-cases (run c t.0 t.1)) [
    | inl fault ↦ rw fault tt
    | inr (last, ran) ↦
        let (digest, hashed) = blake2b-total next 64 (omega arith) (omega arith) in
        let state = hash_aes_1r_x4 c.luts scratchpad_bytes last.vm.machine.scratchpad in
        let (output, final) =
          blake2b-total (register_file (put_group_a state last.vm.machine)) 32 (omega arith)
            (omega arith) in
        rw (ran, hashed, final)
          (refl, refl, record { digest = digest; hashed = hashed; seeded = refl; padded = refl })
  ]

  call-Agree :
      (run_seed : Option AesState) (m n : Hasher)
      → erase m ≡ erase n
      → IsReady c input run_seed m
      → Agree c next
          (randomx_calculate_hash c input n)
          (randomx_calculate_hash_pipelined c run_seed input next m)
  unfolding randomx_calculate_hash randomx_calculate_hash_pipelined start_pipelined init_scratchpad
      IsReady
  call-Agree none m n same ready =
      let (digest, hashed) = blake2b-total input 64 (omega arith) (omega arith) in
      let filled = fill_aes_1r_x4 c.luts scratchpad_bytes (read_state digest 0) in
      let m1 = set_scratchpad filled.1 m in
      let n1 = set_scratchpad filled.1 n in
      rw
        (
          hashed,
          chain_programs-same c 7 filled.0 (reset_rounding_mode m1),
          chain_programs-erased c 6 filled.0 m1 n1 same refl,
        )
        (finish-Agree n.vm.machine.fpu_mode m.vm.machine.fpu_mode
          (chain_programs c 7 filled.0 (reset_rounding_mode n1)))
  call-Agree (some seed) m n same ready =
      let filled = fill_aes_1r_x4 c.luts scratchpad_bytes (read_state ready.digest 0) in
      let n1 = set_scratchpad filled.1 n in
      rw
        (
          ready.hashed,
          ready.seeded,
          chain_programs-same c 7 filled.0 (reset_rounding_mode m),
          chain_programs-erased c 6 filled.0 m n1 same ready.padded,
        )
        (finish-Agree n.vm.machine.fpu_mode m.vm.machine.fpu_mode
          (chain_programs c 7 filled.0 (reset_rounding_mode n1)))

-- The outputs that follow, after calls whose results agree.
outputs-Agree :
    (c : Setting) (next : List ℕ) (rest : List (List ℕ)) (plain : Option (Bytes × Hasher))
    → (piped : Option (Bytes × AesState × Hasher)) → Agree c next plain piped
    → ((seed : AesState) (m n : Hasher)
        → erase m ≡ erase n
        → IsFilled c next seed m
        → hash_stream c (some seed) next rest m ≡ plain_hashes c next rest n)
    → (do
      result ← piped
      outputs ← hash_stream c (some result.1) next rest result.2
      some (result.0 ∷ outputs))
      ≡ (do result ← plain; outputs ← plain_hashes c next rest result.1; some (result.0 ∷ outputs))
unfolding Agree
outputs-Agree c next rest none none agree then_agree = refl
outputs-Agree c next rest none (some piped) agree then_agree = absurd agree
outputs-Agree c next rest (some plain) none agree then_agree = absurd agree
outputs-Agree c next rest (some (output, n)) (some (output', seed, m)) (same, left, filled)
      then_agree =
    rw (same, then_agree seed m n left filled) refl

streams-same :
    (c : Setting) (run_seed : Option AesState) (input : List ℕ) (rest : List (List ℕ))
    → (m n : Hasher) → erase m ≡ erase n
    → IsReady c input run_seed m
    → hash_stream c run_seed input rest m ≡ plain_hashes c input rest n
unfolding hash_stream plain_hashes IsReady
streams-same c run_seed input [] m n same ready = refl
streams-same c run_seed input (next ∷ rest) m n same ready =
    outputs-Agree c next rest _ _ (call-Agree c input next run_seed m n same ready)
      (λ seed m' n' same' filled. streams-same c (some seed) next rest m' n' same' filled)

-- The pipelined function, called for each input of a list but the last, each with the following
-- input and the seed that the call before left, the first without a seed, gives the same outputs as
-- the plain function, called for the same inputs on the same machine, and faults in a run where that
-- does.
pub hash_stream-plain :
    (c : Setting) (input : List ℕ) (rest : List (List ℕ)) (m : Hasher)
    → hash_stream c none input rest m ≡ plain_hashes c input rest m
unfolding IsReady
hash_stream-plain c input rest m = streams-same c none input rest m m refl tt
