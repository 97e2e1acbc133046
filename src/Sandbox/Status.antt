-- ===== src/Sandbox/Status.antt =====
-- `SandboxStatus` of crates/bastion-domain/src/sandbox/value_objects.rs.
use bastion.Base.{◌≡◌, ◌↔◌, Bool, true, false, Eq, arith}

pub data SandboxStatus : Type 0 where
  pending running paused stopped failed : SandboxStatus

unfoldable pub status_beq : SandboxStatus → SandboxStatus → Bool
status_beq pending pending = true
status_beq running running = true
status_beq paused paused = true
status_beq stopped stopped = true
status_beq failed failed = true
status_beq _ _ = false

pub status_beq_iff : (a b : SandboxStatus) → (status_beq a b ≡ true) ↔ (a ≡ b)
unfolding status_beq
status_beq_iff a b = ground arith

instance abbrev pub status_eq : Eq SandboxStatus
status_eq = record { beq = status_beq; beq_iff = status_beq_iff }

abbrev pub is_active : SandboxStatus → Bool
is_active running = true
is_active pending = true
is_active _ = false

abbrev pub is_terminal : SandboxStatus → Bool
is_terminal stopped = true
is_terminal failed = true
is_terminal _ = false
