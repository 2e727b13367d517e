-- ===== src/Superscalar/Generator/Tests.antt =====
-- A source of random bytes that are all 3, and the programs of src/superscalar.cpp that it gives.
use armrx_aarch64_random_x_v.Common.{
  ℕ, suc, ◌+◌, ◌*◌, ◌%◌, ◌≡◌, ◌<◌, ◌≤◌, ◌⊎◌, inl, inr, arith, refl, true, Bool-cases, ltb, Option,
  none, some,
}
use armrx_aarch64_random_x_v.Vm.Memory.{load_le}
use armrx_aarch64_random_x_v.Superscalar.Program.{SuperscalarProgram}
use armrx_aarch64_random_x_v.Superscalar.Generator.Random.{
  Blake2Generator, new_generator, check_data, get_byte, get_uint32,
}
use armrx_aarch64_random_x_v.Superscalar.Generator.Tables.{
  fetch_next, info_size, src_op, dst_op, result_op,
}
use armrx_aarch64_random_x_v.Superscalar.Generator.Schedule.{find_mop, commit_mop}
use armrx_aarch64_random_x_v.Superscalar.Generator.Current.{select_source, select_destination}
use armrx_aarch64_random_x_v.Superscalar.Generator.Create.{
  create_for_slot, draw_rotation, draw_divisor, is_zero_or_power_of_2_32,
}
use armrx_aarch64_random_x_v.Superscalar.Generator.Latency.{generate_superscalar}
use armrx_aarch64_random_x_v.Superscalar.Generator.Invariant.{IsRandom, IsSound}
use armrx_aarch64_random_x_v.Superscalar.Generator.Valid.{generate_superscalar-IsSound}

abbrev pub threes : (ℕ → ℕ) → ℕ → ℕ
threes bytes i = 3

-- The bytes are used up, or all are 3.
abbrev pub IsThrees : Blake2Generator → Type 0
IsThrees g = (g.data_index ≡ 64) ⊎ ((i : ℕ) → g.data_bytes i ≡ 3)

checked-threes :
    (n : ℕ) (g : Blake2Generator)
    → IsThrees g
    → (i : ℕ) → (check_data threes (suc n) g).data_bytes i ≡ 3
unfolding check_data
checked-threes n g (inl used_up) i =
    let full : ltb 64 (g.data_index + suc n) ≡ true = ground arith in rw full refl
checked-threes n g (inr all) i = elim (Bool-cases (ltb 64 (g.data_index + suc n))) [
  | inl full ↦ rw full refl
  | inr left ↦ rw left (all i)
]

byte-threes : (g : Blake2Generator) → IsThrees g → (get_byte threes g).0 ≡ 3
unfolding get_byte
byte-threes g good = checked-threes 0 g good _

word-threes : (g : Blake2Generator) → IsThrees g → (get_uint32 threes g).0 ≡ 50529027
unfolding get_uint32 load_le
word-threes g good =
    let all = checked-threes 3 g good in
    let at = (check_data threes 4 g).data_index in
    rw (all at, all (at + 1), all (at + 1 + 1), all (at + 1 + 1 + 1)) refl

rotation-threes :
    (g : Blake2Generator) → IsThrees g → draw_rotation threes 1 g ≡ some (3, (get_byte threes g).1)
unfolding draw_rotation
rotation-threes g good = rw (byte-threes g good) refl

divisor-threes :
    (g : Blake2Generator) → IsThrees g → draw_divisor threes 1 g ≡ some (get_uint32 threes g)
unfolding draw_divisor is_zero_or_power_of_2_32
divisor-threes g good = rw (word-threes g good) refl

pub threes-IsRandom : IsRandom threes 1 IsThrees
unfolding get_byte get_uint32
threes-IsRandom = record {
  byte = λ g good. inr (checked-threes 0 g good);
  word = λ g good. inr (checked-threes 3 g good);
  rotation = λ g good. (_, rotation-threes g good, inr (checked-threes 0 g good));
  divisor = λ g good. (_, divisor-threes g good, inr (checked-threes 3 g good));
}

-- The key is the bytes 0, 1, 2 and so on.
pub key-IsThrees : IsThrees (new_generator (λ i. i) 32 0)
unfolding new_generator
key-IsThrees = inl refl

generate_superscalar-IsSound_example :
    (made : SuperscalarProgram × Blake2Generator) × (generate_superscalar threes 1
        (new_generator (λ i. i) 32 0)
      ≡ some made)
    × (made.0.size ≤ 512)
    × ((j : ℕ) → j < made.0.size → IsSound (made.0.at j))
    × (made.0.address_register < 8)
    × IsThrees made.1
generate_superscalar-IsSound_example =
    generate_superscalar-IsSound threes 1 IsThrees threes-IsRandom (new_generator (λ i. i) 32 0)
      key-IsThrees

-- The size of a program, and 1000 times its address register.
abbrev measured : Option (SuperscalarProgram × Blake2Generator) → ℕ
measured none = 0
measured (some made) = made.0.size + 1000 * made.0.address_register

abbrev toy_digest : (ℕ → ℕ) → ℕ → ℕ
toy_digest bytes i = (bytes i * 5 + 77 * i + 13) % 256

toy_program : measured (generate_superscalar toy_digest 20 (new_generator (λ i. i) 32 0)) ≡ 6460
unfolding generate_superscalar new_generator fetch_next info_size create_for_slot find_mop src_op
    select_source dst_op select_destination get_uint32 load_le commit_mop result_op get_byte
toy_program = refl
