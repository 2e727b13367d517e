-- ===== src/Pool.antt =====
-- The pools and the rotation between them (src/pool_manager.cpp).
mod Manager
mod Settled
mod Rotation
mod Tests
