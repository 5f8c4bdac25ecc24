-- ===== src/Command.antt =====
-- The programs under cmd/.
pub mod Migrator
pub mod Dlq
