-- ===== src/Enrich.antt =====
-- internal/enrich: the sources of reference data and their order.
pub mod Sorting
pub mod Runner
pub mod Gate
