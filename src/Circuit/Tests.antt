-- ===== src/Circuit/Tests.antt =====
-- Runs of the circuit breaker, and each theorem at a concrete input.
use bastion.Base.{◌≡◌, ◌<◌, ◌↔◌, refl, true, false, none, List, [], ◌∷◌}
use bastion.Circuit.{
  half_open, new_handle, get_circuit_state, is_circuit_open, record_success, record_failure,
  Outcome, success, failure, after,
}
use bastion.Circuit.Laws.{failures_since_success, after-closed}

abbrev four : List Outcome
four = failure 1 ∷ success 2 ∷ failure 3 ∷ failure 4 ∷ []

circuit_test :
    (is_circuit_open 6 (after four new_handle) ≡ false)
    × (is_circuit_open 30004 (record_failure 5 (after four new_handle)) ≡ true)
    × (get_circuit_state 30005 (record_failure 5 (after four new_handle)) ≡ half_open)
unfolding is_circuit_open after record_failure record_success
circuit_test = (refl, refl, refl)

after-closed_example :
    ((after four new_handle).circuit_open_until ≡ none) ↔ (failures_since_success 0 four < 3)
after-closed_example = after-closed four
