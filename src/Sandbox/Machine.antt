-- ===== src/Sandbox/Machine.antt =====
-- crates/bastion-domain/src/provider/state_machine.rs. The `DashMap` is a map by sandbox id; the
-- opaque payload is a value of any type `P`, and a downcast is an argument. Time is an argument.
pub mod Diagram
pub mod Laws
pub mod History
pub mod Counts
use Prim.Native.String.{String}
use mathlib.Core.Option
use bastion.Base.{
  ℕ, ◌+◌, Bool, true, false, Option, none, some, List, [], ◌∷◌, map, if◌then◌else◌, string_eq,
}
use bastion.Base.Map.{lookup, insert, remove}
use bastion.Sandbox.Status.{SandboxStatus, pending, running, paused, stopped, failed, status_eq}
use bastion.Sandbox.Errors.{Result, ok, err, not_found, already_exists, validation}

pub record StateEntry (P : Type 0) : Type 0 where
  pub status : SandboxStatus
  pub payload : Option P
  pub registered_at : ℕ

-- `matches!((from, to), …)`.
unfoldable pub is_valid_transition : SandboxStatus → SandboxStatus → Bool
is_valid_transition pending running = true
is_valid_transition pending stopped = true
is_valid_transition pending failed = true
is_valid_transition running paused = true
is_valid_transition running stopped = true
is_valid_transition running failed = true
is_valid_transition paused running = true
is_valid_transition paused stopped = true
is_valid_transition _ _ = false

abbrev pub States : Type 0 → Type 0
States P = List (String × StateEntry P)

-- One round of `*counts.entry(status).or_default() += 1`.
add_one_to : SandboxStatus → List (SandboxStatus × ℕ) → List (SandboxStatus × ℕ)
add_one_to s counts = elim (lookup s counts) [
  | none ↦ insert s 1 counts
  | some n ↦ insert s (n + 1) counts
]

module _ {P : Type 0} where
  abbrev pub fresh_entry : ℕ → StateEntry P
  fresh_entry now = record { status = pending; payload = none; registered_at = now }

  -- The insertion comes first, and its result says whether an entry was there.
  unfoldable pub register : States P → String → ℕ → States P × Result (Unit {0})
  register m id now =
      let m' = insert id (fresh_entry now) m in
      elim (lookup id m) [
        | some old ↦ (m', err (already_exists "Sandbox already registered"))
        | none ↦ (m', ok tt)
      ]

  unfoldable pub transition : States P → String → SandboxStatus → States P × Result SandboxStatus
  transition m id new_status = elim (lookup id m) [
    | none ↦ (m, err (not_found id))
    | some entry ↦
        if is_valid_transition entry.status new_status
        then (insert id (record entry { status = new_status }) m, ok entry.status)
        else (m, err (validation id))
  ]

  unfoldable pub get_state : States P → String → Option SandboxStatus
  get_state m id = Option.map (λ entry. entry.status) (lookup id m)

  unfoldable pub attach_payload : States P → String → P → States P × Result (Unit {0})
  attach_payload m id payload = elim (lookup id m) [
    | none ↦ (m, err (not_found id))
    | some entry ↦ (insert id (record entry { payload = some payload }) m, ok tt)
  ]

  unfoldable pub get_payload : {T : Type 0} → (P → Option T) → States P → String → Option T
  get_payload downcast m id =
      Option.bind (Option.bind (lookup id m) (λ entry. entry.payload)) downcast

  unfoldable pub remove_sandbox : States P → String → States P × Option P
  remove_sandbox m id = (remove id m, Option.bind (lookup id m) (λ entry. entry.payload))

  unfoldable pub list_active : States P → List String
  list_active m = map (λ item. item.0) m

  count_from : List (SandboxStatus × ℕ) → States P → List (SandboxStatus × ℕ)
  count_from counts [] = counts
  count_from counts (item ∷ m) = count_from (add_one_to item.1.status counts) m

  unfoldable pub count_by_status : States P → List (SandboxStatus × ℕ)
  unfolding count_from add_one_to
  count_by_status m = count_from [] m
