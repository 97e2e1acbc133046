-- ===== src/Sandbox/Machine/Laws.antt =====
-- What each operation of crates/bastion-domain/src/provider/state_machine.rs does to the map, on every
-- branch.
use Prim.Native.String.{String}
use mathlib.Core.Option
use bastion.Base.{
  ℕ, ◌≡◌, refl, ◌↔◌, inl, inr, true, false, Option, none, some, List, arith, if◌then◌else◌,
  Bool-cases, Option-cases, string_eq, ◌==◌, ==_refl,
}
use bastion.Base.Map.{lookup, insert, lookup-insert, lookup-remove}
use bastion.Sandbox.Status.{SandboxStatus}
use bastion.Sandbox.Errors.{DomainError, ok, err, already_exists}
use bastion.Sandbox.Machine.{
  StateEntry, is_valid_transition, fresh_entry, register, transition, get_state, attach_payload,
  get_payload, remove_sandbox,
}
use bastion.Sandbox.Machine.Diagram.{◌⟶◌, is_valid_transition_iff}

module _ {P : Type 0} where
  pub record Moved (m m' : List (String × StateEntry P)) (id : String) (old new : SandboxStatus)
      : Type 0 where
    pub entry : StateEntry P
    pub found : lookup id m ≡ some entry
    pub was : entry.status ≡ old
    pub edge : old ⟶ new
    pub now_at : lookup id m' ≡ some (record entry { status = new })
    pub others : (j : String) → (id == j) ≡ false → lookup j m' ≡ lookup j m

module _ {P : Type 0} (m : List (String × StateEntry P)) (id : String) where
  lookup-insert_same : (v : StateEntry P) → lookup id (insert id v m) ≡ some v
  lookup-insert_same v = rw (lookup-insert id id v m, ==_refl id)

  lookup-insert_other :
      (v : StateEntry P) (j : String) → (id == j) ≡ false → lookup j (insert id v m) ≡ lookup j m
  lookup-insert_other v j ne = rw (lookup-insert id j v m, ne)

  moves :
      (new : SandboxStatus) (entry : StateEntry P)
      → lookup id m ≡ some entry
      → is_valid_transition entry.status new ≡ true
      → Moved m (insert id (record entry { status = new }) m) id entry.status new
  moves new entry found valid = record {
    entry = entry;
    found = found;
    was = refl;
    edge = (is_valid_transition_iff entry.status new).0 valid;
    now_at = lookup-insert_same (record entry { status = new });
    others = lookup-insert_other (record entry { status = new });
  }

  -- A transition that succeeds takes an edge of the diagram from the status that it returns: it
  -- changes the status of that sandbox, keeps its payload and time, and changes no other entry.
  pub transition-Moved :
      (new old : SandboxStatus)
      → (transition m id new).1 ≡ ok old
      → Moved m (transition m id new).0 id old new
  unfolding transition
  transition-Moved new old h = elim (Option-cases (lookup id m)) [
    | inl missing ↦ absurd (ground arith)
    | inr (entry, found) ↦ elim (Bool-cases (is_valid_transition entry.status new)) [
      | inl valid ↦
          let same : entry.status ≡ old = ground arith in
          rw (found, transition, valid, ← same) (moves new entry found valid)
      | inr invalid ↦ absurd (ground arith)
    ]
  ]

  -- A transition succeeds exactly if the sandbox is registered and the diagram has the edge.
  pub transition-ok_iff :
      (new old : SandboxStatus)
      → ((transition m id new).1 ≡ ok old) ↔ ((get_state m id ≡ some old) × (old ⟶ new))
  unfolding transition get_state
  transition-ok_iff new old = elim (Option-cases (lookup id m)) [
    | inl missing ↦ ground (arith, is_valid_transition_iff old new)
    | inr (entry, found) ↦ ground (arith, is_valid_transition_iff entry.status new)
  ]

  -- A transition that is refused leaves the whole map as it was.
  pub transition_error_unchanged :
      (new : SandboxStatus) (e : DomainError)
      → (transition m id new).1 ≡ err e
      → (transition m id new).0 ≡ m
  unfolding transition
  transition_error_unchanged new e h = ground arith

  pub register-insert : (now : ℕ) → (register m id now).0 ≡ insert id (fresh_entry now) m
  unfolding register
  register-insert now = elim (Option-cases (lookup id m)) [
    | inl missing ↦ rw (missing, register)
    | inr (entry, found) ↦ rw (found, register)
  ]

  -- Registering an id that is there reports an error, but it has already put the sandbox back to
  -- `pending` and dropped its payload, whatever status it had; other sandboxes keep their entries.
  pub register_existing_resets :
      (now : ℕ) (entry : StateEntry P)
      → lookup id m ≡ some entry
      → ((register m id now).1 ≡ err (already_exists "Sandbox already registered"))
        × (lookup id (register m id now).0 ≡ some (fresh_entry now))
        × ((j : String) → (id == j) ≡ false → lookup j (register m id now).0 ≡ lookup j m)
  unfolding register
  register_existing_resets now entry found =
      rw (found, register)
        (refl, lookup-insert_same (fresh_entry now), lookup-insert_other (fresh_entry now))

  -- An id that is not there is registered as pending, with no payload.
  pub register_new :
      (now : ℕ)
      → lookup id m ≡ none
      → ((register m id now).1 ≡ ok tt)
        × (lookup id (register m id now).0 ≡ some (fresh_entry now))
        × ((j : String) → (id == j) ≡ false → lookup j (register m id now).0 ≡ lookup j m)
  unfolding register
  register_new now missing =
      rw (missing, register)
        (refl, lookup-insert_same (fresh_entry now), lookup-insert_other (fresh_entry now))

  get_state-insert :
      (entry v : StateEntry P) (j : String)
      → lookup id m ≡ some entry
      → v.status ≡ entry.status
      → get_state (insert id v m) j ≡ get_state m j
  unfolding get_state
  get_state-insert entry v j found same = elim (Bool-cases (id == j)) [
    | inl here ↦
        let e = (string_eq.beq_iff id j).0 here in
        rw (lookup-insert id j v m, here, ← e, found, same)
    | inr other ↦ rw (lookup-insert id j v m, other)
  ]

  pub attach-get_state :
      (payload : P) (j : String) → get_state (attach_payload m id payload).0 j ≡ get_state m j
  unfolding attach_payload
  attach-get_state payload j = elim (Option-cases (lookup id m)) [
    | inl missing ↦ rw (missing, attach_payload)
    | inr (entry, found) ↦ rw (found, attach_payload) (get_state-insert entry _ j found refl)
  ]

  -- A payload that was attached is what a downcast of the sandbox's payload sees, and removing the
  -- sandbox gives it back; the status of every sandbox stays as it was.
  pub attach-get_payload :
      {T : Type 0} (downcast : P → Option T) (payload : P)
      → (attach_payload m id payload).1 ≡ ok tt
      → (get_payload downcast (attach_payload m id payload).0 id ≡ downcast payload)
        × ((remove_sandbox (attach_payload m id payload).0 id).1 ≡ some payload)
        × ((j : String) → get_state (attach_payload m id payload).0 j ≡ get_state m j)
  unfolding attach_payload get_payload remove_sandbox get_state Option.bind
  attach-get_payload downcast payload h = elim (Option-cases (lookup id m)) [
    | inl missing ↦ absurd (ground arith)
    | inr (entry, found) ↦
        let now_at = lookup-insert_same (record entry { payload = some payload }) in
        rw (found, attach_payload)
          (rw now_at, rw now_at, λ j. get_state-insert entry _ j found refl)
  ]

  -- A removed sandbox is not found again, and no other entry changes.
  pub remove_sandbox_lem :
      (j : String) → lookup j (remove_sandbox m id).0 ≡ (if id == j then none else lookup j m)
  unfolding remove_sandbox
  remove_sandbox_lem j = lookup-remove id j m
