-- ===== src/Sandbox.antt =====
-- The sandbox bounded context, crates/bastion-domain/src/sandbox, and its state machine,
-- crates/bastion-domain/src/provider/state_machine.rs.
pub mod Status
pub mod Errors
pub mod Entity
pub mod Machine
mod Tests
