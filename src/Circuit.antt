-- ===== src/Circuit.antt =====
-- The circuit breaker of a worker's handle, in crates/bastion-gateway/src/registry.rs. An instant is a
-- number of milliseconds; the reading of the clock is an argument. The lock is never poisoned, since
-- no call fails while it holds it.
pub mod Laws
mod Tests
use bastion.Base.{
  ℕ, ◌+◌, ◌%◌, ◌^◌, Bool, true, false, Option, none, some, List, [], ◌∷◌, ltb, leb, if◌then◌else◌,
}

pub data CircuitState : Type 0 where
  closed half_open opened : CircuitState

-- `consecutive_failures`, an `AtomicU32` that wraps around, and `circuit_open_until`.
pub record WorkerHandle : Type 0 where
  pub consecutive_failures : ℕ
  pub circuit_open_until : Option ℕ

abbrev pub new_handle : WorkerHandle
new_handle = record { consecutive_failures = 0; circuit_open_until = none }

unfoldable pub get_circuit_state : ℕ → WorkerHandle → CircuitState
get_circuit_state now w = elim w.circuit_open_until [
  | none ↦ closed
  | some until ↦ if ltb now until then opened else half_open
]

abbrev matches_open : CircuitState → Bool
matches_open opened = true
matches_open _ = false

unfoldable pub is_circuit_open : ℕ → WorkerHandle → Bool
unfolding get_circuit_state
is_circuit_open now w = matches_open (get_circuit_state now w)

unfoldable pub record_success : WorkerHandle → WorkerHandle
record_success w = record { consecutive_failures = 0; circuit_open_until = none }

-- `Instant::now() + Duration::from_secs(30)`.
abbrev pub open_from : ℕ → WorkerHandle → WorkerHandle
open_from now w = record w { circuit_open_until = some (now + 30000) }

-- The `match` on the state before the failure.
abbrev pub react : CircuitState → ℕ → ℕ → WorkerHandle → WorkerHandle
react half_open failures now w = open_from now w
react closed failures now w = if leb 3 failures then open_from now w else w
react opened failures now w = w

unfoldable pub record_failure : ℕ → WorkerHandle → WorkerHandle
unfolding get_circuit_state
record_failure now w =
    let failures = (w.consecutive_failures + 1) % 2 ^ 32 in
    react (get_circuit_state now w) failures now (record w { consecutive_failures = failures })

-- What a command to the worker ended in, and when.
pub data Outcome : Type 0 where
  success failure : ℕ → Outcome

unfoldable pub after : List Outcome → WorkerHandle → WorkerHandle
unfolding record_success record_failure
after [] w = w
after (success now ∷ rest) w = after rest (record_success w)
after (failure now ∷ rest) w = after rest (record_failure now w)
