-- ===== src/Json.antt =====
-- include/armrx/json.hpp and src/json.cpp: the JSON helpers of the pool protocol and the configuration.
pub mod Text
pub mod Escape
pub mod Lookup
pub mod Values
pub mod Arrays
mod Strings
mod ArrayStrings
mod Tests
