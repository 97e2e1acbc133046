-- ===== src/Enrichment/Sanitizer/Laws.antt =====
-- The loop of crates/enrichment-engine/src/sanitizer.rs.
pub mod Progress
pub mod Rounds
pub mod Values
pub mod Clean
