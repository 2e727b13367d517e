-- ===== src/Lib.antt =====
-- armrx is a RandomX miner for AArch64, in C++. This library models the parts of it that compute a
-- hash on the processor without the JIT: the virtual machine that compiles a random program to
-- bytecode and runs it, the superscalar programs, and the dataset whose items those programs derive
-- from the cache. A hash runs programs on the virtual machine; each of the 2048 iterations of a
-- program reads a dataset item, in fast mode from memory and in light mode by deriving it. A hash that
-- meets the target of its job is a share. The test against the target, the nonce in the template and
-- the JSON helpers, which carry jobs and shares, are modelled too. So are AES and BLAKE2b, from which
-- a hash draws its programs and its result, the generator of superscalar
-- programs, the table of reciprocals that the cache makes of them, and the partial dataset: a prefix
-- of the dataset that threads fill while hashes already read the published part.
--
-- The files and the code they model:
--   * Vm/Types: `Instruction` (include/armrx/instruction.hpp), `InstructionByteCode` and
--     `RegisterFile` (include/armrx/vm.hpp). The members of the unions of a bytecode are separate
--     fields, a pointer to a register is its name, and -1 as a target is `none`.
--   * Vm/Words, Vm/Memory: the static helpers of src/vm.cpp and the masks of
--     include/armrx/randomx_config.hpp.
--   * Vm/Compile: the handlers h_X of src/vm.cpp with `register_usage_` (Integer, Float), the dispatch
--     table `kCompileHandlers` and `compile_program` (Table). A handler returns the changed
--     `register_usage_` and bytecode.
--   * Vm/Execute: `execute_bytecode`, with `last_rounding_mode_` and the thread's rounding mode.
--   * Vm/Branch, Effects, Recording, Compiled, Halting: proofs about compiling and executing.
--   * Vm/Setup, Vm/Loop: `initialize_vm_state`, `dataset_read` and `run_interpreted`, which calls
--     the compiler, the interpreter and the dataset.
--   * Vm/Running, Vm/Modes: proofs about `run_interpreted`.
--   * Hash/Aes, Fill: the rounds by tables of include/armrx/aes.hpp, the keys of
--     include/armrx/aes_keys.hpp, `fill_aes_1r_x4` and `hash_aes_1r_x4` of src/aes_hash.cpp and
--     `AesGenerator4R` of src/aes_generator.cpp. Hash/Blake, Neon: `blake2b` of src/blake2b.cpp,
--     with `compress` in its scalar and its NEON form. Lanes and Rows hold proofs.
--   * Hash/Program, Calculate: `VirtualMachine::run`, `randomx_calculate_hash` and
--     `randomx_calculate_hash_pipelined` of src/vm.cpp, each with its own loop over the programs. The
--     machine keeps its bytecode from one run to the next. Pipelined and Returns hold proofs.
--   * Superscalar/Reciprocal, Program, Scalar, Neon: `randomx_reciprocal`, `execute_superscalar` and
--     `execute_superscalar_neon` of src/superscalar.cpp. Lanes, Total and Rounding hold proofs.
--   * Superscalar/Generator: `Blake2Generator` (Random, src/blake2_generator.cpp) and
--     `generate_superscalar` of src/superscalar.cpp: the tables of macro-operations, instructions and
--     decode buffers (Tables), `scheduleUop` and `scheduleMop` (Schedule), `SuperscalarInstruction`
--     (Current, Create), the issue loop (Loop), and the latencies that give the address register
--     (Latency). Invariant, Slots, Choices, Rounds and Valid hold proofs.
--   * Dataset/Programs: the end of `Argon2dCache::initialize` (src/argon2.cpp), which generates the
--     programs and tabulates the reciprocals. Translated and Loaded hold proofs.
--   * Dataset/Cache, Items, Fill: include/armrx/dataset.hpp and src/dataset.cpp, with
--     `initialize_dataset` in the form for AArch64 and in the portable one. Lanes and Filled hold proofs.
--   * Partial/Worker: `fill_worker` of src/partial_dataset.cpp with a step per atomic operation, and
--     the relation of the steps of all workers and of `cancel`. Partial/Start: the constructor,
--     `start_fill` and the conditions of the waits. Partial/Lock: `RotationLock` of
--     include/armrx/partial_dataset.hpp, with a step per section under its mutex. The other modules of Partial hold proofs.
--   * Json/Text, Escape, Lookup, Values, Arrays: src/json.cpp, with which the pool protocol and the
--     configuration read and write. A string is a list of bytes, a position the rest of the string.
--     Strings and ArrayStrings hold proofs.
--   * Mining/Target, Nonce, Hex: `meets_target` (include/armrx/mining_common.hpp), the long division of
--     `difficulty_to_target` and the hexadecimal texts (src/stratum_client.cpp), and
--     `update_nonce_in_template` (src/mining_engine.cpp). Value, Difficulty, Frame and HexDigits hold
--     proofs.
--   * Pool/Manager: `PoolManager` of src/pool_manager.cpp, with what `tick` reads of the stratum client
--     as an argument. Settled and Rotation hold proofs.
--   * Common: words of fixed width as native numbers with their wrap written out, registers and arrays
--     as functions of the index, and lemmas on bits.
--   * The modules named Tests and RunTests: concrete programs, caches, datasets and machines.
--
-- Errors and bounds: a result `none` stands for an exception, and for an access out of bounds, which
-- is undefined behaviour in C++, as is a shift of the nonce by 64 bits or more. Where a loop of the code has a fixed number of rounds, the model
-- recurses on that number. `execute_bytecode` has a program counter that branches move back, so its
-- model takes fuel. With 256 instructions and stretches that do not overlap, each repeated twice at
-- most, 256 + 2 * 256 + 1 = 769 rounds are given. The loop over the at most four slots of a decode buffer
-- takes a slot, or throws away an instruction, of which there are at most 256 in a row; an issue of a
-- slot sets their number back to 0. So 257 * 4 + 258 = 1286 rounds are given. The redraws of a
-- constant of zero or of a power of two have no bound in the code: `tries` bounds them, and a theorem
-- about the generator says that the source of random bytes has an accepted constant within them.
--
-- Parameters: the arithmetic on doubles (the record `Fpu`) is the processor's; a double is a bit
-- pattern, and nothing is assumed of its operations. The NEON intrinsics are part of the compiler's
-- language, and are written out lane by lane. A `Cache` is what Argon2 leaves: its blocks, programs
-- and table of reciprocals are arbitrary, and a theorem that needs programs that execute says so. The
-- digest that the generator draws its bytes from is an argument. The tables of AES, which
-- src/soft_aes.cpp copies from RandomX, are an argument, of which nothing is assumed. The threads of the partial dataset
-- see their atomic operations in one order; memory orders are not modelled.
--
-- Not modelled: the JIT compiler and its assembly template, which emit machine code; the
-- observation hook of IMUL_R, which does not change the machine; the forms of AES for NEON
-- and for the processor's AES instructions, which the code says compute the same; the filling of the
-- memory of Argon2, which feeds the parts above; the threads of the mining engine, the connections of the stratum client, the configuration and the
-- terminal interface, which use them; the memory mapping, the sensors and the TLS client, which
-- are calls of the system and of OpenSSL.
mod Common
pub mod Superscalar
pub mod Dataset
pub mod Partial
pub mod Pool
pub mod Vm
pub mod Hash
pub mod Json
pub mod Mining
