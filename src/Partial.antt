-- ===== src/Partial.antt =====
-- `PartialDataset` of src/partial_dataset.cpp and include/armrx/partial_dataset.hpp: threads that fill a
-- prefix of the dataset in chunks and publish how much of it is filled.
pub mod Worker
pub mod Start
pub mod Lock
mod Invariant
mod Cursor
mod Calls
mod Local
mod Chunks
mod Safe
mod Started
mod Moves
mod Progress
mod Alone
mod Completed
mod Finishes
mod Errors
mod Exclusion
mod Priority
mod Tests
mod LockTests
