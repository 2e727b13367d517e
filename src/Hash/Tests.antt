-- ===== src/Hash/Tests.antt =====
-- A digest of BLAKE2b, and hashes over a cache with empty programs.
use armrx_aarch64_random_x_v.Common.{
  ℕ, ◌+◌, ◌*◌, ◌%◌, ◌^◌, ◌≡◌, refl, none, some, false, get_or, List, [], ◌∷◌,
}
use armrx_aarch64_random_x_v.Vm.Loop.{light}
use armrx_aarch64_random_x_v.Vm.Running.{Succeeds, IsReadable}
use armrx_aarch64_random_x_v.Vm.RunTests.{plain_cache, plain_cache-IsReady, vm}
use armrx_aarch64_random_x_v.Vm.Tests.{toy_fpu, blank_bytecode}
use armrx_aarch64_random_x_v.Hash.Aes.{AesLuts}
use armrx_aarch64_random_x_v.Hash.Blake.{
  blake2b, full_blocks, digest_byte, absorb, compress, rounds, round, mix, assign, iv,
}
use armrx_aarch64_random_x_v.Vm.Memory.{load_le}
use armrx_aarch64_random_x_v.Vm.Words.{rotr}
use armrx_aarch64_random_x_v.Hash.Neon.{compress_neon}
use armrx_aarch64_random_x_v.Hash.Rows.{compress_neon-compress}
use armrx_aarch64_random_x_v.Hash.Program.{Hasher, Setting}
use armrx_aarch64_random_x_v.Hash.Calculate.{randomx_calculate_hash, hash_stream, plain_hashes}
use armrx_aarch64_random_x_v.Hash.Pipelined.{hash_stream-plain}
use armrx_aarch64_random_x_v.Hash.Returns.{randomx_calculate_hash-Succeeds}

abbrev abc : List ℕ
abc = 97 ∷ 98 ∷ 99 ∷ []

-- The first eight bytes of BLAKE2b-512 of "abc", by RFC 7693.
abc_digest :
    elim (blake2b abc 64) [
      | none ↦ []
      | some d ↦ d 0 ∷ d 1 ∷ d 2 ∷ d 3 ∷ d 4 ∷ d 5 ∷ d 6 ∷ d 63 ∷ []
    ]
    ≡ 0xba ∷ 0x80 ∷ 0xa5 ∷ 0x3f ∷ 0x98 ∷ 0x1c ∷ 0x4d ∷ 0x23 ∷ []
unfolding blake2b full_blocks digest_byte absorb compress rounds round mix assign load_le rotr
abc_digest = refl

abbrev luts : AesLuts
luts = record {
  enc = λ n i. (i * 0x01020307 + n) % 2 ^ 32;
  dec = λ n i. (i * 0x0f010205 + n) % 2 ^ 32;
}

abbrev setting : Setting
setting = record { luts = luts; fpu = toy_fpu; source = light plain_cache }

abbrev hasher : Hasher
hasher = record { vm = vm; bytecode = λ i. blank_bytecode }

hash_stream-plain_example :
    hash_stream setting none abc ((1 ∷ abc) ∷ (2 ∷ abc) ∷ []) hasher
    ≡ plain_hashes setting abc ((1 ∷ abc) ∷ (2 ∷ abc) ∷ []) hasher
hash_stream-plain_example = hash_stream-plain setting abc ((1 ∷ abc) ∷ (2 ∷ abc) ∷ []) hasher

randomx_calculate_hash-Succeeds_example : Succeeds (randomx_calculate_hash setting abc hasher)
unfolding IsReadable
randomx_calculate_hash-Succeeds_example =
    randomx_calculate_hash-Succeeds setting plain_cache-IsReady abc hasher

compress_neon-compress_example :
    compress_neon (λ i. get_or iv i 0) (λ j. j % 256) 128 false
    ≡ compress (λ i. get_or iv i 0) (λ j. j % 256) 128 false
compress_neon-compress_example =
    compress_neon-compress (λ i. get_or iv i 0) (λ j. j % 256) 128 false
