-- ===== src/Pool.antt =====
pub mod Leases
pub mod Workers
