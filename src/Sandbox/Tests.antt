-- ===== src/Sandbox/Tests.antt =====
-- Runs of the sandbox's operations, and each theorem at a concrete input.
use Prim.Native.String.{String}
use bastion.Base.{
  ℕ, ◌+◌, ◌-◌, ◌≡◌, refl, ◌↔◌, Bool, true, false, none, some, List, [], ◌∷◌, ltb, string_eq, ◌==◌,
}
use bastion.Base.Int.{ℤ, pos, pos_part, neg_part}
use bastion.Base.Map.{lookup, insert, remove}
use bastion.Sandbox.Status.{pending, running, paused, stopped, status_beq}
use bastion.Sandbox.Errors.{ok, err, already_exists, validation}
use bastion.Sandbox.Entity.{
  Sandbox, new_sandbox, default_resources, default_network, mark_running, terminate,
}
use bastion.Sandbox.Entity.Lifecycle.{terminate_once}
use bastion.Sandbox.Machine.{
  StateEntry, States, is_valid_transition, fresh_entry, register, transition, get_state,
  attach_payload, remove_sandbox, list_active, count_by_status,
}
use bastion.Sandbox.Machine.Diagram.{◌⟶◌, is_valid_transition_iff}
use bastion.Sandbox.Machine.Laws.{
  Moved, transition-Moved, transition-ok_iff, transition_error_unchanged, register_existing_resets,
}
use bastion.Sandbox.Machine.History.{
  Call, registers, transitions, attaches, removes, run, Advanced, run-Advanced, run_terminal,
}

-- Two sandboxes: one is stopped and holds a payload, the other runs.
abbrev old_entry : StateEntry ℕ
old_entry = record { status = stopped; payload = some 7; registered_at = 1 }

abbrev two : States ℕ
two = ("a", old_entry) ∷ ("b", record { status = running; payload = none; registered_at = 2 }) ∷ []

machine : Unit {0}
unfolding register transition get_state attach_payload remove_sandbox is_valid_transition lookup
    insert remove
machine = tt

machine_tests :
    ((transition two "b" paused).1 ≡ ok running)
    × ((transition two "a" running).1 ≡ err (validation "a"))
    × (get_state (register two "c" 9).0 "c" ≡ some pending)
    × (list_active two ≡ "a" ∷ "b" ∷ [])
unfolding machine list_active
machine_tests = (refl, refl, refl, refl)

count_test : count_by_status two ≡ (stopped, 1) ∷ (running, 1) ∷ []
unfolding count_by_status lookup insert status_beq
count_test = refl

transition-Moved_example : Moved two (transition two "b" paused).0 "b" running paused
transition-Moved_example = transition-Moved two "b" paused running machine_tests.0

transition-ok_iff_example :
    ((transition two "b" paused).1 ≡ ok running)
    ↔ ((get_state two "b" ≡ some running) × (running ⟶ paused))
transition-ok_iff_example = transition-ok_iff two "b" paused running

transition_error_unchanged_example : (transition two "a" running).0 ≡ two
transition_error_unchanged_example =
    transition_error_unchanged two "a" running (validation "a") machine_tests.1

found_a : lookup "a" two ≡ some old_entry
unfolding machine
found_a = refl

register_existing_resets_example :
    ((register two "a" 9).1 ≡ err (already_exists "Sandbox already registered"))
    × (lookup "a" (register two "a" 9).0 ≡ some (fresh_entry 9))
    × ((j : String) → ("a" == j) ≡ false → lookup j (register two "a" 9).0 ≡ lookup j two)
register_existing_resets_example = register_existing_resets two "a" 9 old_entry found_a

attached : (attach_payload two "b" 5).1 ≡ ok tt
unfolding machine
attached = refl

is_valid_transition_iff_example : (is_valid_transition pending running ≡ true) ↔ (pending ⟶ running)
is_valid_transition_iff_example = is_valid_transition_iff pending running

abbrev calls : List (Call ℕ)
calls =
    transitions "b" paused
    ∷ registers "c" 4
    ∷ transitions "a" running
    ∷ attaches "a" 3
    ∷ removes "c"
    ∷ []

running_b : get_state two "b" ≡ some running
unfolding machine
running_b = refl

stopped_a : get_state two "a" ≡ some stopped
unfolding machine
stopped_a = refl

run-Advanced_example : Advanced (run two calls) "b" running
run-Advanced_example =
    run-Advanced two calls "b" running (tt, (refl, (tt, (tt, (refl, tt))))) running_b

run_terminal_example : get_state (run two calls) "a" ≡ some stopped
run_terminal_example =
    run_terminal two calls "a" stopped (tt, (refl, (tt, (tt, (refl, tt))))) refl stopped_a

-- A sandbox whose times are numbers of milliseconds.
abbrev fresh : Sandbox ℤ
fresh = record {
  id = "s";
  template_id = "t";
  provider_id = "podman";
  provider_instance_id = none;
  status = pending;
  created_at = pos 100;
  expires_at = none;
  resources = default_resources;
  network = default_network;
  metadata = [];
  project_id = none;
  purpose = none;
}

new_sandbox_test :
    new_sandbox "s" "t" "podman" none default_resources default_network (pos 100) ≡ fresh
unfolding new_sandbox
new_sandbox_test = refl

terminated : terminate fresh ≡ ok (record fresh { status = stopped })
unfolding terminate
terminated = refl

terminate_once_example :
    (terminate (record fresh { status = stopped }) ≡ err (validation "s"))
    × (mark_running (record fresh { status = stopped }) ≡ err (validation "s"))
terminate_once_example = terminate_once fresh (record fresh { status = stopped }) terminated

abbrev ended : Sandbox ℤ
ended = record fresh { status = stopped }

-- Sums and order of times, for instants at or after the epoch.
abbrev add_times : ℤ → ℤ → ℤ
add_times a b = pos (pos_part a + pos_part b - neg_part b)

abbrev later_time : ℤ → ℤ → Bool
later_time a b = ltb (pos_part b) (pos_part a)
