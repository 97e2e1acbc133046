-- ===== src/Pool/Refill.antt =====
-- `refill_and_evict`, the work of the background task, in
-- crates/bastion-infrastructure/src/pool/manager.rs. One reading of the clock serves a whole run.
use Prim.Native.String.{String}
use bastion.Base.{
  ℕ, zero, suc, ◌-◌, Bool, true, false, [], ◌∷◌, ltb, if◌then◌else◌, length, string_eq,
}
use bastion.Sandbox.Errors.{Result, ok, err}
use bastion.Sandbox.Entity.{Sandbox}
use bastion.Pool.Queue.{PoolQueue, push, needs_refill}
use bastion.Pool.Ports.{Ports}
use bastion.Pool.Manager.{fetch_add, fetch_sub, Pools, PoolState, create_sandbox, evict_all}

-- What the loop over one queue changes.
pub record Filling (Time World : Type 0) : Type 0 where
  pub queue : PoolQueue Time
  pub idle : ℕ
  pub world : World

module _ {Time World : Type 0} (ports : Ports Time World) where
  -- A push that failed: a sandbox with a newly made id is terminated.
  abbrev pub refused : Filling Time World → Filling Time World
  refused s =
      let (id, w1) = ports.generate s.world in
      let (terminated, w2) = ports.terminate id w1 in record s { world = w2 }

  abbrev pub after_push : Bool × PoolQueue Time → Filling Time World → Bool × Filling Time World
  after_push (false, q) s = (false, refused s)
  after_push (true, q) s = (true, record s { queue = q; idle = fetch_add s.idle 1 })

  -- The rest of a round, from what `create_sandbox` gave. The flag tells the loop to go on.
  unfoldable pub add_made :
      ℕ → Result (Sandbox Time) → Filling Time World → Bool × Filling Time World
  unfolding push
  add_made now (err e) s = (false, s)
  add_made now (ok made) s = after_push (push made now s.queue) s

  -- One round of the loop: with a permit, a sandbox is created and pushed.
  unfoldable pub refill_round : ℕ → ℕ → String → Filling Time World → Bool × Filling Time World
  unfolding add_made create_sandbox
  refill_round now permits template s =
      let (made, w) = create_sandbox ports template 3600000 s.world in
      if ltb 0 permits then add_made now made (record s { world = w }) else (false, s)

  -- The loop, on fuel.
  unfoldable pub refill_loop : ℕ → ℕ → ℕ → String → Filling Time World → Filling Time World
  unfolding refill_round needs_refill
  refill_loop zero now permits template s = s
  refill_loop (suc f) now permits template s =
      let (again, s') = refill_round now permits template s in
      let rest = refill_loop f now permits template s' in
      if needs_refill s.queue then (if again then rest else s') else s

  abbrev pub deficit : PoolQueue Time → ℕ
  deficit q = q.min_idle - length q.entries

  unfoldable pub refill_all : ℕ → ℕ → Pools Time → ℕ → World → Pools Time × ℕ × World
  unfolding refill_loop
  refill_all now permits [] idle w = ([], idle, w)
  refill_all now permits ((template, q) ∷ pools) idle w =
      let start : Filling Time World = record { queue = q; idle = idle; world = w } in
      let filled = refill_loop (deficit q) now permits template start in
      let (pools', idle', w') = refill_all now permits pools filled.idle filled.world in
      ((template, filled.queue) ∷ pools', idle', w')

  unfoldable pub refill_and_evict : ℕ → PoolState Time World → PoolState Time World
  unfolding evict_all refill_all
  refill_and_evict now st =
      let (kept, evicted, w) = evict_all ports now st.pools st.world in
      let (pools, idle, w') = refill_all now st.permits kept (fetch_sub st.total_idle evicted) w in
      record st { world = w'; pools = pools; total_idle = idle }
