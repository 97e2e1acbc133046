-- ===== src/Pool/Filling.antt =====
-- How far `refill_and_evict` of crates/bastion-infrastructure/src/pool/manager.rs
-- fills a queue, and the fuel of its loop.
use Prim.Native.String.{String}
use bastion.Base.{
  ℕ, zero, suc, ◌+◌, ◌≡◌, ◌≤◌, ◌<◌, refl, sym, inl, inr, Bool, true, false, arith, length, ltb,
  lt→ltb, Bool-cases,
}
use bastion.Sandbox.Errors.{Result, ok, err}
use bastion.Sandbox.Entity.{Sandbox}
use bastion.Pool.Queue.{PoolQueue, push, needs_refill}
use bastion.Pool.Queue.Laws.{Pushes, push-Pushes}
use bastion.Pool.Ports.{Ports}
use bastion.Pool.Manager.{create_sandbox}
use bastion.Pool.Refill.{Filling, after_push, add_made, refill_round, refill_loop, deficit}

module _ {Time World : Type 0} (ports : Ports Time World) where
  -- What a round does: the loop ends, or one sandbox has come in.
  record Grew (s : Filling Time World) (r : Bool × Filling Time World) : Type 0 where
    goes_on :
        r.0 ≡ true
        → (length r.1.queue.entries ≡ 1 + length s.queue.entries)
          × (r.1.queue.min_idle ≡ s.queue.min_idle)
          × (r.1.queue.max_idle ≡ s.queue.max_idle)

  after_push-Grew :
      (made : Sandbox Time) (s : Filling Time World) (r : Bool × PoolQueue Time)
      → Pushes s.queue made r
      → Grew s (after_push ports r s)
  after_push-Grew made s (false, q) pushes = record { goes_on = λ e. cc }
  after_push-Grew made s (true, q) pushes = record {
    goes_on = λ e. (pushes.longer, pushes.same_min, pushes.same_bound);
  }

  add_made-Grew :
      (now : ℕ) (r : Result (Sandbox Time)) (s : Filling Time World) (w : World)
      → Grew s (add_made ports now r (record s { world = w }))
  unfolding add_made
  add_made-Grew now (err e) s w = record { goes_on = λ e'. cc }
  add_made-Grew now (ok made) s w =
      let grew =
        after_push-Grew made (record s { world = w }) (push made now s.queue)
          (push-Pushes made now s.queue) in
      record { goes_on = grew.goes_on }

  refill_round-Grew :
      (now permits : ℕ) (t : String) (s : Filling Time World)
      → Grew s (refill_round ports now permits t s)
  unfolding refill_round
  refill_round-Grew now permits t s =
      let (made, w) = create_sandbox ports t 3600000 s.world in
      elim (Bool-cases (ltb 0 permits)) [
        | inl permit ↦ rw (refill_round, permit) (add_made-Grew now made s w)
        | inr waits ↦ rw (refill_round, waits) (record { goes_on = λ e. cc })
      ]

  full : (q : PoolQueue Time) → deficit ports q ≤ 0 → needs_refill q ≡ false
  unfolding needs_refill
  full q h = ground arith

  full-loop :
      (fuel now permits : ℕ) (t : String) (s : Filling Time World)
      → needs_refill s.queue ≡ false
      → refill_loop ports fuel now permits t s ≡ s
  unfolding refill_loop
  full-loop zero now permits t s h = refl
  full-loop (suc f) now permits t s h = rw (refill_loop, h) refl

  enough :
      (q : PoolQueue Time)
      → needs_refill q ≡ false
      → length q.entries ≡ length q.entries + deficit ports q
  unfolding needs_refill
  enough q h = ground arith

  below :
      (q : PoolQueue Time)
      → needs_refill q ≡ true
      → q.min_idle ≤ q.max_idle
      → length q.entries < q.max_idle
  unfolding needs_refill
  below q h k = ground arith

  smaller :
      (q q' : PoolQueue Time)
      → needs_refill q ≡ true
      → length q'.entries ≡ 1 + length q.entries
      → q'.min_idle ≡ q.min_idle
      → deficit ports q' < deficit ports q
  unfolding needs_refill
  smaller q q' missing longer same = ground arith

  -- The loop of `refill_and_evict` ends: any fuel that is not below the number of missing sandboxes,
  -- which is the fuel that it gets, does the same.
  pub refill_loop-enough :
      (f g now permits : ℕ) (t : String) (s : Filling Time World)
      → deficit ports s.queue ≤ f
      → deficit ports s.queue ≤ g
      → refill_loop ports f now permits t s ≡ refill_loop ports g now permits t s
  unfolding refill_loop
  refill_loop-enough zero g now permits t s h k = sym (full-loop g now permits t s (full s.queue h))
  refill_loop-enough (suc f) zero now permits t s h k =
      full-loop (suc f) now permits t s (full s.queue k)
  refill_loop-enough (suc f) (suc g) now permits t s h k =
      let r = refill_round ports now permits t s in
      elim (Bool-cases (needs_refill s.queue)) [
        | inr filled ↦ rw (refill_loop, filled) refl
        | inl missing ↦ elim (Bool-cases r.0) [
          | inr ended ↦ rw (refill_loop, missing, ended) refl
          | inl again ↦
              let grew = (refill_round-Grew now permits t s).goes_on again in
              let less : deficit ports r.1.queue < deficit ports s.queue =
                smaller s.queue r.1.queue missing grew.0 grew.1 in
              rw (refill_loop, missing, again)
                (refill_loop-enough f g now permits t r.1 (omega arith) (omega arith))
        ]
      ]

  after_push-room :
      (made : Sandbox Time) (s : Filling Time World) (r : Bool × PoolQueue Time)
      → Pushes s.queue made r
      → length s.queue.entries < s.queue.max_idle
      → (after_push ports r s).0 ≡ true
  after_push-room made s (true, q) pushes room = refl
  after_push-room made s (false, q) pushes room = absurd (omega (arith, pushes.0))

  -- Every creation succeeds.
  abbrev pub Creates : Type 0
  Creates =
      (u : String) (ms : ℕ) (w : World)
      → (made : Sandbox Time) × ((create_sandbox ports u ms w).0 ≡ ok made)

  refill_round-room :
      (now permits : ℕ) (t : String) (s : Filling Time World)
      → ltb 0 permits ≡ true
      → Creates
      → length s.queue.entries < s.queue.max_idle
      → (refill_round ports now permits t s).0 ≡ true
  unfolding refill_round add_made
  refill_round-room now permits t s permit creates room =
      let (made, e) = creates t 3600000 s.world in
      rw (refill_round, permit, e)
        (after_push-room made _ (push made now s.queue) (push-Pushes made now s.queue) room)

  -- If there is a permit, every creation succeeds and the lower bound is within the upper one, then
  -- the loop leaves the larger of the lower bound and what the queue held.
  pub refill_loop-fills :
      (fuel now permits : ℕ) (t : String) (s : Filling Time World)
      → 0 < permits
      → Creates
      → s.queue.min_idle ≤ s.queue.max_idle
      → deficit ports s.queue ≤ fuel
      → length (refill_loop ports fuel now permits t s).queue.entries
        ≡ length s.queue.entries + deficit ports s.queue
  unfolding refill_loop
  refill_loop-fills zero now permits t s permit creates room h = omega arith
  refill_loop-fills (suc f) now permits t s permit creates room h =
      let r = refill_round ports now permits t s in
      elim (Bool-cases (needs_refill s.queue)) [
        | inr filled ↦ rw (refill_loop, filled) (enough s.queue filled)
        | inl missing ↦
            let space : length s.queue.entries < s.queue.max_idle = below s.queue missing room in
            let again = refill_round-room now permits t s (lt→ltb 0 permits permit) creates space in
            let grew = (refill_round-Grew now permits t s).goes_on again in
            let less : deficit ports r.1.queue < deficit ports s.queue =
              smaller s.queue r.1.queue missing grew.0 grew.1 in
            let rest =
              refill_loop-fills f now permits t r.1 permit creates (omega arith) (omega arith) in
            rw (refill_loop, missing, again) (omega arith)
      ]
