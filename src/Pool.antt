-- ===== src/Pool.antt =====
-- The pool of warm sandboxes, crates/bastion-infrastructure/src/pool/manager.rs.
pub mod Queue
pub mod Ports
pub mod Manager
pub mod Refill
pub mod Recovery
pub mod Invariant
pub mod Filling
pub mod Reuse
mod Tests
