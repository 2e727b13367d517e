-- ===== src/Hash.antt =====
-- The hash of an input: AES (src/aes_hash.cpp, src/aes_generator.cpp), BLAKE2b (src/blake2b.cpp) and
-- the programs between them (src/vm.cpp).
mod Aes
mod Fill
mod Blake
mod Program
mod Calculate
mod Pipelined
mod Returns
mod Tests
mod Neon
mod Lanes
mod Rows
