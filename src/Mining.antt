-- ===== src/Mining.antt =====
-- Shares: the target of a difficulty and hexadecimal texts (src/stratum_client.cpp), the test of a
-- hash against a target (include/armrx/mining_common.hpp) and the nonce in the template
-- (src/mining_engine.cpp).
pub mod Target
pub mod Nonce
pub mod Hex
mod HexDigits
mod Value
mod Difficulty
mod Frame
mod Tests
