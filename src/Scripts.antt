-- ===== src/Scripts.antt =====
-- The operator scripts in scripts/.
pub mod Batch
mod Tests
