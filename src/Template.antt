-- ===== src/Template.antt =====
-- Parts of crates/bastion-domain/src/template.
pub mod Layer
