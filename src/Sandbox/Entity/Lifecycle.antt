-- ===== src/Sandbox/Entity/Lifecycle.antt =====
-- The transitions of the aggregate in crates/bastion-domain/src/sandbox/entity.rs against those
-- that the state machine accepts.
use bastion.Base.{◌≡◌, refl, ◌⊎◌, ◌↔◌, false, if◌then◌else◌, arith}
use bastion.Sandbox.Status.{SandboxStatus, pending, running, paused, stopped, failed}
use bastion.Sandbox.Errors.{Result, ok, err, validation}
use bastion.Sandbox.Entity.{
  Sandbox, running_from, stopped_from, mark_running, terminate, mark_failed,
}
use bastion.Sandbox.Machine.{is_valid_transition}

-- The result that the state machine's table prescribes for a move to the status.
abbrev pub by_table : {Time : Type 0} → Sandbox Time → SandboxStatus → Result (Sandbox Time)
by_table b new =
    if is_valid_transition b.status new
    then ok (record b { status = new })
    else err (validation b.id)

off_table :
    (s : SandboxStatus)
    → (is_valid_transition s failed ≡ false) ↔ ((s ≡ paused) ⊎ ((s ≡ stopped) ⊎ (s ≡ failed)))
unfolding is_valid_transition
off_table s = grind arith

module _ {Time : Type 0} where
  running_from_table :
      (s : SandboxStatus) (b : Sandbox Time)
      → running_from s b ≡ (
          if is_valid_transition s running
          then ok (record b { status = running })
          else err (validation b.id))
  unfolding is_valid_transition
  running_from_table pending b = refl
  running_from_table running b = refl
  running_from_table paused b = refl
  running_from_table stopped b = refl
  running_from_table failed b = refl

  stopped_from_table :
      (s : SandboxStatus) (b : Sandbox Time)
      → stopped_from s b ≡ (
          if is_valid_transition s stopped
          then ok (record b { status = stopped })
          else err (validation b.id))
  unfolding is_valid_transition
  stopped_from_table pending b = refl
  stopped_from_table running b = refl
  stopped_from_table paused b = refl
  stopped_from_table stopped b = refl
  stopped_from_table failed b = refl

  -- `mark_running` and `terminate` of the aggregate succeed exactly where the state machine accepts
  -- the move, set the status and no other field, and are validation errors elsewhere.
  pub entity_by_table :
      (b : Sandbox Time)
      → (mark_running b ≡ by_table b running) × (terminate b ≡ by_table b stopped)
  unfolding mark_running terminate
  entity_by_table b = (running_from_table b.status b, stopped_from_table b.status b)

  -- A sandbox that was terminated cannot be terminated again, nor run again.
  pub terminate_once :
      (b c : Sandbox Time)
      → terminate b ≡ ok c
      → (terminate c ≡ err (validation b.id)) × (mark_running c ≡ err (validation b.id))
  unfolding mark_running terminate
  terminate_once b c h = ground arith

  -- `mark_failed` asks nothing: it moves a sandbox to `failed` from every status. The state machine
  -- refuses that move exactly for a sandbox that is paused, stopped or failed already.
  pub mark_failed_unchecked :
      (b : Sandbox Time)
      → ((mark_failed b).status ≡ failed)
        × ((by_table b failed ≡ err (validation b.id))
            ↔ ((b.status ≡ paused) ⊎ ((b.status ≡ stopped) ⊎ (b.status ≡ failed))))
  unfolding mark_failed
  mark_failed_unchecked b = (refl, ground (arith, off_table b.status))
