-- ===== src/Checker.antt =====
pub mod Secrets
pub mod Commands
pub mod Check
pub mod Receipts
pub mod Tests
pub mod GateTests
