-- ===== src/Utils.antt =====
-- The helpers of src/utils.
pub mod Lru
pub mod OutputLimit
pub mod Execution
pub mod Shell
pub mod Tests
