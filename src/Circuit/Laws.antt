-- ===== src/Circuit/Laws.antt =====
-- When the circuit breaker of crates/bastion-gateway/src/registry.rs opens and closes.
use bastion.Base.{
  ℕ, ◌+◌, ◌%◌, ◌^◌, ◌≡◌, ◌≤◌, ◌<◌, ◌↔◌, refl, ap, inl, inr, true, false, Option, none, some, List,
  [], ◌∷◌, ltb, leb, leb→le, arith, Bool-cases,
}
use bastion.Circuit.{
  CircuitState, closed, half_open, opened, WorkerHandle, new_handle, get_circuit_state,
  is_circuit_open, record_success, open_from, react, record_failure, Outcome, success, failure,
  after,
}

-- The failures since the last success, `n` of them before the list.
abbrev pub failures_since_success : ℕ → List Outcome → ℕ
failures_since_success n [] = n
failures_since_success n (success now ∷ rest) = failures_since_success 0 rest
failures_since_success n (failure now ∷ rest) = failures_since_success (n + 1) rest

abbrev handle : ℕ → Option ℕ → WorkerHandle
handle n until = record { consecutive_failures = n; circuit_open_until = until }

-- The handle after `n` failures: no time is set before the third, and one is set from there on.
abbrev Tracks : ℕ → WorkerHandle → Type 0
Tracks n w = elim w.circuit_open_until [
  | none ↦ (n < 3) × (w.consecutive_failures ≡ n)
  | some until ↦ 3 ≤ n
]

failure-Tracks :
    (n now m : ℕ) (until : Option ℕ)
    → Tracks n (handle m until)
    → Tracks (n + 1) (record_failure now (handle m until))
unfolding record_failure
failure-Tracks n now m none (few, same) = elim (Bool-cases (leb 3 ((m + 1) % 2 ^ 32))) [
  | inl many ↦
      let third : 3 ≤ (m + 1) % 2 ^ 32 = leb→le 3 ((m + 1) % 2 ^ 32) many in
      rw (record_failure, many) (omega (arith, third))
  | inr below ↦
      let small : (m + 1) % 2 ^ 32 < 3 = ground arith in
      rw (record_failure, below) (omega (arith, small), omega (arith, small))
]
failure-Tracks n now m (some until) many = elim (Bool-cases (ltb now until)) [
  | inl before ↦ rw (record_failure, before) (omega arith)
  | inr passed ↦ rw (record_failure, passed) (omega arith)
]

after-Tracks :
    (n : ℕ) (w : WorkerHandle) (outcomes : List Outcome)
    → Tracks n w
    → Tracks (failures_since_success n outcomes) (after outcomes w)
unfolding after record_success
after-Tracks n w [] t = t
after-Tracks n w (success now ∷ rest) t = after-Tracks 0 (record_success w) rest (omega arith, refl)
after-Tracks n w (failure now ∷ rest) t =
    after-Tracks (n + 1) (record_failure now w) rest
      (failure-Tracks n now w.consecutive_failures w.circuit_open_until t)

Tracks-closed : (n m : ℕ) (until : Option ℕ) → Tracks n (handle m until) → (until ≡ none) ↔ (n < 3)
Tracks-closed n m none (few, same) = ((λ e. few), (λ h. refl))
Tracks-closed n m (some until) many = ((λ e. cc), (λ h. absurd (omega (arith, h, many))))

-- After any outcomes the circuit is closed, with no time set, exactly if fewer than three failures
-- have come since the last success.
pub after-closed :
    (outcomes : List Outcome)
    → ((after outcomes new_handle).circuit_open_until ≡ none)
      ↔ (failures_since_success 0 outcomes < 3)
after-closed outcomes =
    let w = after outcomes new_handle in
    Tracks-closed (failures_since_success 0 outcomes) w.consecutive_failures w.circuit_open_until
      (after-Tracks 0 new_handle outcomes (omega arith, refl))

open_from-open :
    (now t : ℕ) (w : WorkerHandle) → is_circuit_open t (open_from now w) ≡ ltb t (now + 30000)
unfolding is_circuit_open
open_from-open now t w = elim (Bool-cases (ltb t (now + 30000))) [
  | inl before ↦ rw (is_circuit_open, before) refl
  | inr passed ↦ rw (is_circuit_open, passed) refl
]

third : (n : ℕ) → 2 ≤ n → n + 1 < 2 ^ 32 → leb 3 ((n + 1) % 2 ^ 32) ≡ true
third n many small = let same : (n + 1) % 2 ^ 32 ≡ n + 1 = omega arith in rw same (ground arith)

not_third : (n : ℕ) → n < 2 → leb 3 ((n + 1) % 2 ^ 32) ≡ false
not_third n few = let same : (n + 1) % 2 ^ 32 ≡ n + 1 = omega arith in rw same (ground arith)

-- The failure as the `match` on the state before it.
abbrev counted : WorkerHandle → WorkerHandle
counted w = record w { consecutive_failures = (w.consecutive_failures + 1) % 2 ^ 32 }

record_failure-react :
    (now : ℕ) (w : WorkerHandle) (s : CircuitState)
    → get_circuit_state now w ≡ s
    → record_failure now w ≡ react s ((w.consecutive_failures + 1) % 2 ^ 32) now (counted w)
unfolding record_failure
record_failure-react now w s e =
    ap (λ x. react x ((w.consecutive_failures + 1) % 2 ^ 32) now (counted w)) e

none-closed :
    (now n : ℕ) (until : Option ℕ) → until ≡ none → get_circuit_state now (handle n until) ≡ closed
unfolding get_circuit_state
none-closed now n none e = refl
none-closed now n (some until) e = cc

-- A failure that finds the circuit open changes no time. One that finds it half open, or closed as
-- the third in a row, opens it for the thirty seconds that follow and no longer. Below the third the
-- circuit stays closed at every time.
pub record_failure_lem :
    (now t : ℕ) (w : WorkerHandle)
    → (get_circuit_state now w ≡ opened
        → (record_failure now w).circuit_open_until ≡ w.circuit_open_until)
      × (get_circuit_state now w ≡ half_open
          → is_circuit_open t (record_failure now w) ≡ ltb t (now + 30000))
      × (get_circuit_state now w ≡ closed
          → 2 ≤ w.consecutive_failures
          → w.consecutive_failures + 1 < 2 ^ 32
          → is_circuit_open t (record_failure now w) ≡ ltb t (now + 30000))
      × (w.circuit_open_until ≡ none
          → w.consecutive_failures < 2
          → is_circuit_open t (record_failure now w) ≡ false)
unfolding is_circuit_open
record_failure_lem now t w =
    let n = w.consecutive_failures in
    (
      λ e. rw (record_failure-react now w opened e) refl,
      λ e. rw (record_failure-react now w half_open e) (open_from-open now t (counted w)),
      λ e many small.
          rw (record_failure-react now w closed e, third n many small)
            (open_from-open now t (counted w)),
      λ e few.
          let shut = none-closed now n w.circuit_open_until e in
          rw (record_failure-react now w closed shut, not_third n few, is_circuit_open, e) refl,
    )
