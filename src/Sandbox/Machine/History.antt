-- ===== src/Sandbox/Machine/History.antt =====
-- Histories of calls on the state machine of crates/bastion-domain/src/provider/state_machine.rs.
use Prim.Native.String.{String}
use bastion.Base.{
  ℕ, ◌≡◌, refl, true, false, some, List, [], ◌∷◌, inl, inr, Bool-cases, string_eq, ◌==◌, ◌∙◌, All,
}
use bastion.Base.Map.{lookup-insert, lookup-remove}
use bastion.Sandbox.Status.{SandboxStatus, is_terminal}
use bastion.Sandbox.Errors.{Result, ok, err}
use bastion.Sandbox.Machine.{
  States, fresh_entry, register, transition, get_state, attach_payload, remove_sandbox,
}
use bastion.Sandbox.Machine.Diagram.{◌⟶*◌, here, after, ⟶*-trans, ⟶*-terminal}
use bastion.Sandbox.Machine.Laws.{
  transition-Moved, transition-ok_iff, transition_error_unchanged, register-insert,
  attach-get_state,
}

-- A call by a provider.
pub data Call (P : Type 0) : Type 0 where
  registers : String → ℕ → Call P
  transitions : String → SandboxStatus → Call P
  attaches : String → P → Call P
  removes : String → Call P

module _ {P : Type 0} where
  pub step : States P → Call P → States P
  step m (registers id now) = (register m id now).0
  step m (transitions id new) = (transition m id new).0
  step m (attaches id payload) = (attach_payload m id payload).0
  step m (removes id) = (remove_sandbox m id).0

  pub run : States P → List (Call P) → States P
  run m [] = m
  run m (c ∷ cs) = run (step m c) cs

-- The call neither registers the sandbox again nor removes it.
abbrev pub Spares : {P : Type 0} → String → Call P → Type 0
Spares id (registers j now) = (j == id) ≡ false
Spares id (removes j) = (j == id) ≡ false
Spares id (transitions j new) = Unit {0}
Spares id (attaches j payload) = Unit {0}

module _ {P : Type 0} where
  -- The sandbox has a status after the calls, and the diagram leads to it.
  abbrev pub Advanced : States P → String → SandboxStatus → Type 0
  Advanced m id s = (t : SandboxStatus) × (get_state m id ≡ some t) × (s ⟶* t)

  unmoved :
      (m : States P) (id : String) (s : SandboxStatus) → get_state m id ≡ some s → Advanced m id s
  unmoved m id s h = (s, h, here)

  transition-Advanced :
      (m : States P) (id j : String) (s new : SandboxStatus)
      → get_state m id ≡ some s
      → (r : Result SandboxStatus) → (transition m j new).1 ≡ r
      → Advanced (transition m j new).0 id s
  transition-Advanced m id j s new h (err e) failed =
      rw (transition_error_unchanged m j new e failed) (unmoved m id s h)
  transition-Advanced m id j s new h (ok old) done = elim (Bool-cases (j == id)) [
    | inl same ↦
        let e = (string_eq.beq_iff j id).0 same in
        let moved = transition-Moved m j new old done in
        let was = (transition-ok_iff m j new old).0 done in
        let was_old : get_state m id ≡ some old = rw (← e) was.0 in
        let from_s : s ≡ old = cc (was_old) in
        (new, rw (← e) (unfold get_state in rw moved.now_at), after (rw from_s moved.edge) here)
    | inr other ↦
        let moved = transition-Moved m j new old done in
        unmoved _ id s (unfold get_state in rw (moved.others id other) h)
  ]

  step-Advanced :
      (m : States P) (c : Call P) (id : String) (s : SandboxStatus)
      → Spares id c
      → get_state m id ≡ some s
      → Advanced (step m c) id s
  unfolding step remove_sandbox
  step-Advanced m (registers j now) id s spared h = unmoved _ id s (
      unfold get_state in
      rw (register-insert m j now, lookup-insert j id (fresh_entry now) m, spared) h)
  step-Advanced m (transitions j new) id s spared h =
      transition-Advanced m id j s new h (transition m j new).1 refl
  step-Advanced m (attaches j payload) id s spared h =
      unmoved _ id s (attach-get_state m j payload id ∙ h)
  step-Advanced m (removes j) id s spared h =
      unmoved _ id s (unfold get_state in rw (lookup-remove j id m, spared) h)

  -- While nobody registers the sandbox again or removes it, any calls on any sandboxes move its
  -- status along the diagram.
  pub run-Advanced :
      (m : States P) (cs : List (Call P)) (id : String) (s : SandboxStatus)
      → All (Spares id) cs
      → get_state m id ≡ some s
      → Advanced (run m cs) id s
  unfolding run
  run-Advanced m [] id s spared h = unmoved m id s h
  run-Advanced m (c ∷ cs) id s spared h =
      let (t, now_at, path) = step-Advanced m c id s spared.0 h in
      let (u, last, rest) = run-Advanced (step m c) cs id t spared.1 now_at in
      (u, last, ⟶*-trans path rest)

  -- So a stopped or failed sandbox keeps its status through such calls.
  pub run_terminal :
      (m : States P) (cs : List (Call P)) (id : String) (s : SandboxStatus)
      → All (Spares id) cs
      → is_terminal s ≡ true
      → get_state m id ≡ some s
      → get_state (run m cs) id ≡ some s
  run_terminal m cs id s spared terminal h =
      let (t, last, path) = run-Advanced m cs id s spared h in rw (⟶*-terminal path terminal) last
