-- ===== src/Catalog.antt =====
-- Parts of crates/bastion-domain/src/catalog, and the evaluation of their checks by rules.
pub mod Experience
pub mod Assertion
pub mod Doctor
pub mod Advice
pub mod Shim
mod Tests
