-- ===== src/Hash/Blake.antt =====
-- `blake2b` of src/blake2b.cpp, with the scalar form of `compress`. A state is eight 64-bit words by
-- index.
use armrx_aarch64_random_x_v.Common.{
  ℕ, zero, suc, ◌≡◌, ◌<◌, ◌≤◌, arith, ◌+◌, ◌-◌, ◌*◌, ◌/◌, ◌%◌, ◌^◌, ◌||◌, ◌==◌, Bool, true, false,
  ltb, bit_xor, add64, not64, update, Option, none, some, if◌then◌else◌, List, [], ◌∷◌, length,
  get_or,
}
use armrx_aarch64_random_x_v.Vm.Memory.{Bytes, load_le}
use armrx_aarch64_random_x_v.Vm.Words.{rotr}

abbrev pub Words : Type 0
Words = ℕ → ℕ

abbrev pub iv : List ℕ
iv =
    0x6a09e667f3bcc908 ∷ 0xbb67ae8584caa73b ∷ 0x3c6ef372fe94f82b ∷ 0xa54ff53a5f1d36f1
    ∷ 0x510e527fade682d1 ∷ 0x9b05688c2b3e6c1f ∷ 0x1f83d9abfb41bd6b ∷ 0x5be0cd19137e2179 ∷ []

abbrev pub sigma : List (List ℕ)
sigma =
    (0 ∷ 1 ∷ 2 ∷ 3 ∷ 4 ∷ 5 ∷ 6 ∷ 7 ∷ 8 ∷ 9 ∷ 10 ∷ 11 ∷ 12 ∷ 13 ∷ 14 ∷ 15 ∷ [])
    ∷ (14 ∷ 10 ∷ 4 ∷ 8 ∷ 9 ∷ 15 ∷ 13 ∷ 6 ∷ 1 ∷ 12 ∷ 0 ∷ 2 ∷ 11 ∷ 7 ∷ 5 ∷ 3 ∷ [])
    ∷ (11 ∷ 8 ∷ 12 ∷ 0 ∷ 5 ∷ 2 ∷ 15 ∷ 13 ∷ 10 ∷ 14 ∷ 3 ∷ 6 ∷ 7 ∷ 1 ∷ 9 ∷ 4 ∷ [])
    ∷ (7 ∷ 9 ∷ 3 ∷ 1 ∷ 13 ∷ 12 ∷ 11 ∷ 14 ∷ 2 ∷ 6 ∷ 5 ∷ 10 ∷ 4 ∷ 0 ∷ 15 ∷ 8 ∷ [])
    ∷ (9 ∷ 0 ∷ 5 ∷ 7 ∷ 2 ∷ 4 ∷ 10 ∷ 15 ∷ 14 ∷ 1 ∷ 11 ∷ 12 ∷ 6 ∷ 8 ∷ 3 ∷ 13 ∷ [])
    ∷ (2 ∷ 12 ∷ 6 ∷ 10 ∷ 0 ∷ 11 ∷ 8 ∷ 3 ∷ 4 ∷ 13 ∷ 7 ∷ 5 ∷ 15 ∷ 14 ∷ 1 ∷ 9 ∷ [])
    ∷ (12 ∷ 5 ∷ 1 ∷ 15 ∷ 14 ∷ 13 ∷ 4 ∷ 10 ∷ 0 ∷ 7 ∷ 6 ∷ 3 ∷ 9 ∷ 2 ∷ 8 ∷ 11 ∷ [])
    ∷ (13 ∷ 11 ∷ 7 ∷ 14 ∷ 12 ∷ 1 ∷ 3 ∷ 9 ∷ 5 ∷ 0 ∷ 15 ∷ 4 ∷ 8 ∷ 6 ∷ 2 ∷ 10 ∷ [])
    ∷ (6 ∷ 15 ∷ 14 ∷ 9 ∷ 11 ∷ 3 ∷ 0 ∷ 8 ∷ 12 ∷ 2 ∷ 13 ∷ 7 ∷ 1 ∷ 4 ∷ 10 ∷ 5 ∷ [])
    ∷ (10 ∷ 2 ∷ 8 ∷ 4 ∷ 7 ∷ 6 ∷ 1 ∷ 5 ∷ 15 ∷ 11 ∷ 9 ∷ 14 ∷ 3 ∷ 12 ∷ 13 ∷ 0 ∷ [])
    ∷ (0 ∷ 1 ∷ 2 ∷ 3 ∷ 4 ∷ 5 ∷ 6 ∷ 7 ∷ 8 ∷ 9 ∷ 10 ∷ 11 ∷ 12 ∷ 13 ∷ 14 ∷ 15 ∷ [])
    ∷ (14 ∷ 10 ∷ 4 ∷ 8 ∷ 9 ∷ 15 ∷ 13 ∷ 6 ∷ 1 ∷ 12 ∷ 0 ∷ 2 ∷ 11 ∷ 7 ∷ 5 ∷ 3 ∷ [])
    ∷ []

-- `v[i]` becomes what `f` makes of the words.
unfoldable pub assign : ℕ → (Words → ℕ) → Words → Words
assign i f v = update v i (f v)

-- The function `g` on the indices `a` to `d`, with the words `x` and `y` of the block.
unfoldable pub mix : ℕ → ℕ → ℕ → ℕ → ℕ → ℕ → Words → Words
mix a b c d x y v =
    let v1 = assign a (λ u. add64 (add64 (u a) (u b)) x) v in
    let v2 = assign d (λ u. rotr (bit_xor (u d) (u a)) 32) v1 in
    let v3 = assign c (λ u. add64 (u c) (u d)) v2 in
    let v4 = assign b (λ u. rotr (bit_xor (u b) (u c)) 24) v3 in
    let v5 = assign a (λ u. add64 (add64 (u a) (u b)) y) v4 in
    let v6 = assign d (λ u. rotr (bit_xor (u d) (u a)) 16) v5 in
    let v7 = assign c (λ u. add64 (u c) (u d)) v6 in
    assign b (λ u. rotr (bit_xor (u b) (u c)) 63) v7

-- A round: `s` is its row of `sigma`.
unfoldable pub round : Words → List ℕ → Words → Words
round m s v =
    let word : ℕ → ℕ = λ i. m (get_or s i 0) in
    let v1 = mix 0 4 8 12 (word 0) (word 1) v in
    let v2 = mix 1 5 9 13 (word 2) (word 3) v1 in
    let v3 = mix 2 6 10 14 (word 4) (word 5) v2 in
    let v4 = mix 3 7 11 15 (word 6) (word 7) v3 in
    let v5 = mix 0 5 10 15 (word 8) (word 9) v4 in
    let v6 = mix 1 6 11 12 (word 10) (word 11) v5 in
    let v7 = mix 2 7 8 13 (word 12) (word 13) v6 in mix 3 4 9 14 (word 14) (word 15) v7

unfoldable pub rounds : Words → List (List ℕ) → Words → Words
rounds m [] v = v
rounds m (s ∷ rest) v = rounds m rest (round m s v)

unfoldable pub compress : Words → Bytes → ℕ → Bool → Words
compress h block bytes last =
    let m : Words = λ i. load_le 8 block (8 * i) in
    let v1 : Words = λ i. if ltb i 8 then h i else get_or iv (i - 8) 0 in
    let v2 = update v1 12 (bit_xor (v1 12) bytes) in
    let v3 = if last then update v2 14 (not64 (v2 14)) else v2 in
    let v = rounds m sigma v3 in λ i. bit_xor (h i) (bit_xor (v i) (v (i + 8)))

abbrev pub subspan : ℕ → List ℕ → List ℕ
subspan zero xs = xs
subspan (suc n) [] = []
subspan (suc n) (x ∷ xs) = subspan n xs

-- The bytes of the input, and zero beyond.
abbrev pub padded : List ℕ → Bytes
padded input j = get_or input j 0

-- `left` rounds of the loop over full blocks, and the last block.
unfoldable pub absorb : ℕ → Words → ℕ → List ℕ → Words
absorb zero state bytes input = compress state (padded input) (bytes + length input) true
absorb (suc left) state bytes input =
    absorb left (compress state (padded input) (bytes + 128) false) (bytes + 128)
      (subspan 128 input)

unfoldable pub digest_byte : Words → Bytes
digest_byte state j = state (j / 8) / 2 ^ (8 * (j % 8)) % 256

-- How often the loop runs that takes 128 bytes while more than 128 are left.
unfoldable pub full_blocks : ℕ → ℕ
full_blocks n = (n - 1) / 128

full_blocks-last : (n : ℕ) → n ≤ 128 → full_blocks n ≡ 0
unfolding full_blocks
full_blocks-last n le = omega arith

full_blocks-more : (n : ℕ) → 128 < n → full_blocks n ≡ suc (full_blocks (n - 128))
unfolding full_blocks
full_blocks-more n lt = omega arith

-- `none` is the exception. The digest is the first `output_bytes` bytes of the result.
unfoldable pub blake2b : List ℕ → ℕ → Option Bytes
blake2b input output_bytes =
    if (output_bytes == 0) || ltb 64 output_bytes
    then none
    else (let start : Words = λ i. get_or iv i 0 in
        let state = update start 0 (bit_xor (start 0) (bit_xor 0x01010000 output_bytes)) in
        some (digest_byte (absorb (full_blocks (length input)) state 0 input)))
