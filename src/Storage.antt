-- ===== src/Storage.antt =====
-- internal/storage: what the repositories take and give.
pub mod Matchstore
