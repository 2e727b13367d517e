-- ===== src/Superscalar/Generator.antt =====
-- `generate_superscalar` of src/superscalar.cpp, which simulates the issue of macro-operations on three
-- ports of a processor, and the generator of random numbers that it draws from.
pub mod Random
pub mod Tables
pub mod Schedule
pub mod Current
pub mod Create
pub mod Loop
pub mod Latency
pub mod Invariant
mod Choices
mod Rounds
mod Slots
pub mod Valid
pub mod Tests
