-- ===== src/Pool/Invariant/Background.antt =====
-- The invariant and the background task, `refill_and_evict` of
-- crates/bastion-infrastructure/src/pool/manager.rs.
pub mod Recovering
use Prim.Native.String.{String}
use bastion.Base.{
  ℕ, zero, suc, ◌+◌, ◌-◌, ◌%◌, ◌^◌, ◌≡◌, ◌≤◌, ◌<◌, refl, inl, inr, Bool, true, false, Option, none,
  some, List, [], ◌∷◌, if◌then◌else◌, arith, length, ltb, Bool-cases, either-branch, All,
}
use bastion.Sandbox.Errors.{Result, ok, err}
use bastion.Sandbox.Entity.{Sandbox}
use bastion.Pool.Queue.{PoolQueue, idle_count, push, evict_idle, needs_refill}
use bastion.Pool.Queue.Laws.{Bounded, Pushed, Pushes, push-Pushes, Evicts, evict_idle-Evicts}
use bastion.Pool.Ports.{Ports}
use bastion.Pool.Manager.{
  Pools, PoolState, idle_sum, fetch_add, fetch_sub, create_sandbox, evict_all, dispose, stop,
}
use bastion.Pool.Refill.{
  Filling, after_push, add_made, refill_round, refill_loop, deficit, refill_all, refill_and_evict,
}
use bastion.Pool.Invariant.{AllBounded, Counts, Valid}
use bastion.Pool.Invariant.Sums.{count_one_more, count_less}

module _ {Time World : Type 0} (ports : Ports Time World) where
  -- What eviction leaves of the queues: the bound holds, and the evicted are the ones that are gone.
  evict_all-sum :
      (now : ℕ) (pools : Pools Time) (w : World)
      → let r = evict_all ports now pools w in r.1 + idle_sum r.0 ≡ idle_sum pools
  unfolding evict_all idle_count
  evict_all-sum now [] w = omega arith
  evict_all-sum now ((t, q) ∷ pools) w = omega (
    arith,
    evict_all-sum now pools (dispose ports (evict_idle now q).0 w),
    (evict_idle-Evicts now q).parted,
  )

  evict_all-bounded :
      (now : ℕ) (pools : Pools Time) (w : World)
      → AllBounded pools
      → AllBounded (evict_all ports now pools w).0
  unfolding evict_all
  evict_all-bounded now [] w h = tt
  evict_all-bounded now ((t, q) ∷ pools) w (h, hs) =
      let e = evict_idle-Evicts now q in
      (
        omega (arith, h, e.parted, e.same_bound),
        evict_all-bounded now pools (dispose ports (evict_idle now q).0 w) hs,
      )

  -- What the loop over one queue leaves, `others` being the number in the other queues.
  record Filled (others : ℕ) (s : Filling Time World) : Type 0 where
    within : Bounded s.queue
    exact : s.idle ≡ (length s.queue.entries + others) % 2 ^ 64

  after_push-Filled :
      (others : ℕ) (made : Sandbox Time) (s : Filling Time World) (r : Bool × PoolQueue Time)
      → Pushes s.queue made r
      → Filled others s
      → Filled others (after_push ports r s).1
  after_push-Filled others made s (false, q) pushes f = record {
    within = f.within;
    exact = f.exact;
  }
  after_push-Filled others made s (true, q) pushes f = record {
    within = omega (arith, pushes.room, pushes.longer, pushes.same_bound);
    exact = count_one_more s.idle _ _ f.exact (omega (arith, pushes.longer));
  }

  add_made-Filled :
      (others now : ℕ) (r : Result (Sandbox Time)) (s : Filling Time World)
      → Filled others s
      → Filled others (add_made ports now r s).1
  unfolding add_made
  add_made-Filled others now (err e) s f = f
  add_made-Filled others now (ok made) s f =
      after_push-Filled others made s (push made now s.queue) (push-Pushes made now s.queue) f

  refill_round-Filled :
      (others now permits : ℕ) (t : String) (s : Filling Time World)
      → Filled others s
      → Filled others (refill_round ports now permits t s).1
  unfolding refill_round
  refill_round-Filled others now permits t s f = elim (Bool-cases (ltb 0 permits)) [
    | inl permit ↦
        rw (refill_round, permit)
          (add_made-Filled others now (create_sandbox ports t 3600000 s.world).0 _
            (record { within = f.within; exact = f.exact }))
    | inr waits ↦ rw (refill_round, waits) f
  ]

  refill_loop-Filled :
      (fuel others now permits : ℕ) (t : String) (s : Filling Time World)
      → Filled others s
      → Filled others (refill_loop ports fuel now permits t s)
  unfolding refill_loop
  refill_loop-Filled zero others now permits t s f = f
  refill_loop-Filled (suc fuel) others now permits t s f =
      let round = refill_round-Filled others now permits t s f in
      let rest =
        refill_loop-Filled fuel others now permits t (refill_round ports now permits t s).1 round in
      either-branch (Filled others) (needs_refill s.queue) _ _
        (either-branch (Filled others) (refill_round ports now permits t s).0 _ _ rest round) f

  refill_all-Filled :
      (now permits others idle : ℕ) (pools : Pools Time) (w : World)
      → AllBounded pools
      → idle ≡ (idle_sum pools + others) % 2 ^ 64
      → let r = refill_all ports now permits pools idle w in
        AllBounded r.0 × (r.1 ≡ (idle_sum r.0 + others) % 2 ^ 64)
  unfolding refill_all idle_count
  refill_all-Filled now permits others idle [] w h e = (tt, e)
  refill_all-Filled now permits others idle ((t, q) ∷ pools) w (h, hs) e =
      let start : Filling Time World = record { queue = q; idle = idle; world = w } in
      let filled = refill_loop ports (deficit ports q) now permits t start in
      let f =
        refill_loop-Filled (deficit ports q) (idle_sum pools + others) now permits t start
          (record { within = h; exact = omega (arith, e) }) in
      let rest =
        refill_all-Filled now permits (length filled.queue.entries + others) filled.idle pools
          filled.world hs (omega (arith, f.exact)) in
      ((f.within, rest.0), omega (arith, rest.1))

  -- One run of the background task keeps the invariant.
  pub Valid-refill_and_evict :
      (now : ℕ) (st : PoolState Time World) → Valid st → Valid (refill_and_evict ports now st)
  unfolding refill_and_evict
  Valid-refill_and_evict now st v =
      let kept = evict_all ports now st.pools st.world in
      let left =
        count_less st.total_idle kept.1 _ _ v.counted (evict_all-sum now st.pools st.world) in
      let r =
        refill_all-Filled now st.permits 0 (fetch_sub st.total_idle kept.1) kept.0 kept.2
          (evict_all-bounded now st.pools st.world v.bounded) (omega (arith, left)) in
      record { bounded = r.0; counted = omega (arith, r.1) }
