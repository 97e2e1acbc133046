-- ===== src/Resource.antt =====
-- Bastion resource names and the policy on them, crates/bastion-domain/src/shared/brn.rs.
pub mod Name
pub mod Factory
pub mod Policy
mod Tests
