-- ===== src/Dataset.antt =====
-- src/dataset.cpp and include/armrx/dataset.hpp: dataset items derived from the cache, one at a time
-- and two at a time.
pub mod Cache
pub mod Items
pub mod Fill
pub mod Lanes
pub mod Filled
pub mod Programs
pub mod Translated
pub mod Loaded
pub mod Tests
