-- ===== src/Provider.antt =====
-- The types of providers in crates/bastion-domain/src/provider.
pub mod Capabilities
pub mod Types
pub mod Refs
pub mod Config
pub mod Constraints
pub mod Instance
mod Tests
