-- ===== src/Enrichment/Command.antt =====
-- The command extractor, crates/enrichment-engine/src/extractors/command_extractor.rs.
pub mod Tokenizer
pub mod Classifier
mod Tests
