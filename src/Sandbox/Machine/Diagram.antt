-- ===== src/Sandbox/Machine/Diagram.antt =====
-- The transitions that the comment of `SandboxStateMachine` lists, against `is_valid_transition`, in
-- crates/bastion-domain/src/provider/state_machine.rs.
use bastion.Base.{◌≡◌, refl, ◌↔◌, true, false, arith}
use bastion.Sandbox.Status.{SandboxStatus, pending, running, paused, stopped, failed, is_terminal}
use bastion.Sandbox.Machine.{is_valid_transition}

infix 40 ◌⟶◌ ◌⟶*◌
pub data ◌⟶◌ : SandboxStatus → SandboxStatus → Type 0 where
  start : pending ⟶ running
  cancel : pending ⟶ stopped
  fail_create : pending ⟶ failed
  stop : running ⟶ stopped
  pause : running ⟶ paused
  crash : running ⟶ failed
  resume : paused ⟶ running
  stop_paused : paused ⟶ stopped

pub data ◌⟶*◌ : SandboxStatus → SandboxStatus → Type 0 where
  here : {s : SandboxStatus} → s ⟶* s
  after : {s t u : SandboxStatus} → s ⟶ t → t ⟶* u → s ⟶* u

ruleset edges = (start, cancel, fail_create, stop, pause, crash, resume, stop_paused)

valid-⟶ : (a b : SandboxStatus) → is_valid_transition a b ≡ true → a ⟶ b
unfolding is_valid_transition
valid-⟶ a b h = grind (arith, edges)

⟶-valid : {a b : SandboxStatus} → a ⟶ b → is_valid_transition a b ≡ true
unfolding is_valid_transition
⟶-valid start = refl
⟶-valid cancel = refl
⟶-valid fail_create = refl
⟶-valid stop = refl
⟶-valid pause = refl
⟶-valid crash = refl
⟶-valid resume = refl
⟶-valid stop_paused = refl

-- `is_valid_transition` accepts a pair of statuses exactly if the documented diagram has that edge.
pub is_valid_transition_iff : (a b : SandboxStatus) → (is_valid_transition a b ≡ true) ↔ (a ⟶ b)
is_valid_transition_iff a b = (valid-⟶ a b, ⟶-valid)

pub ⟶*-trans : {a b c : SandboxStatus} → a ⟶* b → b ⟶* c → a ⟶* c
⟶*-trans here q = q
⟶*-trans (after e p) q = after e (⟶*-trans p q)

⟶-not_terminal : {a b : SandboxStatus} → a ⟶ b → is_terminal a ≡ false
⟶-not_terminal start = refl
⟶-not_terminal cancel = refl
⟶-not_terminal fail_create = refl
⟶-not_terminal stop = refl
⟶-not_terminal pause = refl
⟶-not_terminal crash = refl
⟶-not_terminal resume = refl
⟶-not_terminal stop_paused = refl

-- A path of the diagram out of a terminal status is empty.
pub ⟶*-terminal : {a b : SandboxStatus} → a ⟶* b → is_terminal a ≡ true → a ≡ b
⟶*-terminal here h = refl
⟶*-terminal (after e p) h = cc (⟶-not_terminal e)
