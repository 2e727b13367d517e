-- ===== src/Superscalar.antt =====
-- src/superscalar.cpp and include/armrx/superscalar.hpp: superscalar programs.
pub mod Reciprocal
pub mod Program
pub mod Scalar
pub mod Neon
pub mod Lanes
pub mod Total
pub mod Generator
mod Rounding
pub mod Tests
