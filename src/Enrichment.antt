-- ===== src/Enrichment.antt =====
-- Parts of crates/enrichment-engine/src outside the rules.
pub mod Truncate
pub mod Sanitizer
pub mod Metrics
pub mod Command
mod Tests
