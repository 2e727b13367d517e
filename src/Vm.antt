-- ===== src/Vm.antt =====
-- src/vm.cpp, include/armrx/vm.hpp and include/armrx/instruction.hpp: the RandomX virtual machine.
pub mod Types
pub mod Words
pub mod Memory
pub mod Compile
pub mod Execute
pub mod Branch
pub mod Effects
pub mod Recording
pub mod Compiled
pub mod Halting
pub mod Setup
pub mod Loop
pub mod Running
mod Modes
pub mod Tests
pub mod RunTests
