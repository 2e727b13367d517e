-- ===== src/Vm/Compile.antt =====
-- `compile_program` of src/vm.cpp: the handlers `h_X` translate one instruction to bytecode and
-- record which integer register it writes; CBRANCH reads that record for its target.
pub mod Defs
pub mod Integer
pub mod Float
pub mod Table
