-- ===== src/Pool/Reuse.antt =====
-- What becomes of a sandbox that is checked in, of the queued ones on `stop`, and of a queue whose
-- template is registered again, in crates/bastion-infrastructure/src/pool/manager.rs.
use Prim.Native.String.{String}
use bastion.Base.{
  ℕ, ◌+◌, ◌-◌, ◌^◌, ◌≡◌, ◌<◌, refl, ap, ◌∙◌, inl, inr, Bool, true, false, some, List, [], ◌∷◌,
  arith, length, Option-cases, All, string_eq, ==_refl, text_eq,
}
use bastion.Base.Map.{lookup, insert, lookup-insert}
use bastion.Sandbox.Errors.{ok}
use bastion.Sandbox.Entity.{Sandbox}
use bastion.Pool.Queue.{PoolQueue, new_entry, new_queue, is_idle_timeout, idle_count, pop, push}
use bastion.Pool.Queue.Laws.{evict_idle-none, push-empty}
use bastion.Pool.Ports.{Ports}
use bastion.Pool.Manager.{
  Pools, PoolState, idle_sum, fetch_add, fetch_sub, register_template, checkout, hand_out, checkin,
  check_in_found, take_back, queue_back, evict_all, dispose, stop,
}
use bastion.Pool.Invariant.Sums.{idle_sum-insert}

module _ {Time World : Type 0} where
  -- Registering a template again puts an empty queue in the place of its queue: what was queued is
  -- gone from the pool, and the counter of idle sandboxes stays.
  pub register_template_again :
      (t : String) (q : PoolQueue Time) (st : PoolState Time World)
      → lookup t st.pools ≡ some q
      → (idle_sum (register_template t st).pools + idle_count q ≡ idle_sum st.pools)
        × ((register_template t st).total_idle ≡ st.total_idle)
  unfolding register_template new_queue idle_count
  register_template_again t q st found =
      let fresh : PoolQueue Time =
        new_queue st.config.min_idle st.config.max_idle st.config.idle_timeout_ms in
      (omega (arith, idle_sum-insert t q fresh st.pools found), refl)

  module _ (ports : Ports Time World) where
    queue_back-active :
        (s : Sandbox Time) (r : Bool × PoolQueue Time) (st : PoolState Time World)
        → (queue_back ports s r st).total_active ≡ fetch_sub st.total_active 1
    queue_back-active s (true, q) st = refl
    queue_back-active s (false, q) st = refl

    take_back-active :
        (s : Sandbox Time) (now : ℕ) (st : PoolState Time World)
        → (take_back ports s now (lookup s.template_id st.pools) st).total_active
          ≡ fetch_sub st.total_active 1
    unfolding take_back
    take_back-active s now st = elim (Option-cases (lookup s.template_id st.pools)) [
      | inl e ↦ rw (e, take_back) refl
      | inr (q, e) ↦ rw (e, take_back) (queue_back-active s (push s now q) st)
    ]

    -- Whatever the queue does, a sandbox that the repository finds takes one from the counter of
    -- active sandboxes; at zero it wraps around to the greatest number of 64 bits.
    pub checkin_wraps :
        (id : String) (now : ℕ) (s : Sandbox Time) (w : World) (st : PoolState Time World)
        → ports.find_by_id id st.world ≡ (ok (some s), w)
        → st.total_active ≡ 0
        → (checkin ports id now st).1.total_active ≡ 2 ^ 64 - 1
    unfolding checkin check_in_found take_back push
    checkin_wraps id now s w st found active =
        let terminated : PoolState Time World = record st { world = (ports.terminate id w).1 } in
        rw (checkin, found) (take_back-active s now terminated ∙ ap (λ n. fetch_sub n 1) active)

    -- If a template's queue is empty and has room, then a sandbox of the template that is checked in
    -- is the one that the next `checkout` hands out: it was terminated before it was queued, and no
    -- other call but the update of the repository comes in between.
    pub checkin-checkout :
        (id : String) (now timeout_ms : ℕ) (s : Sandbox Time) (w : World) (q : PoolQueue Time)
        (st : PoolState Time World)
        → ports.find_by_id id st.world ≡ (ok (some s), w)
        → lookup s.template_id st.pools ≡ some q
        → q.entries ≡ []
        → 0 < q.max_idle
        → let w' = (ports.update s (ports.terminate id w).1).1 in
          (st' : PoolState Time World) × (checkout ports s.template_id timeout_ms
              (checkin ports id now st).1
            ≡ some (ok s, st'))
          × (st'.world ≡ w')
    unfolding checkin checkout check_in_found take_back push pop hand_out
    checkin-checkout id now timeout_ms s w q st found registered empty room =
        let q1 : PoolQueue Time = record q { entries = new_entry s now ∷ [] } in
        let st1 : PoolState Time World = record st {
          world = (ports.terminate id w).1;
          pools = insert s.template_id q1 st.pools;
          total_active = fetch_sub st.total_active 1;
          total_idle = fetch_add st.total_idle 1;
        } in
        let returned : (checkin ports id now st).1 ≡ st1 =
          rw (checkin, found, take_back, registered, push-empty s now q empty room) refl in
        let queued : lookup s.template_id st1.pools ≡ some q1 =
          lookup-insert s.template_id s.template_id q1 st.pools ∙ rw (==_refl s.template_id) refl in
        let q2 : PoolQueue Time = record q { entries = [] } in
        (hand_out ports s.template_id q2 s st1, rw (returned, checkout, queued) refl, refl)

    -- No entry of the queues is past its queue's time.
    abbrev pub AllFresh : ℕ → Pools Time → Type 0
    AllFresh now pools =
        All (λ p. All (λ e. is_idle_timeout now p.1.idle_timeout_ms e ≡ false) p.1.entries) pools

    evict_all-fresh :
        (now : ℕ) (pools : Pools Time) (w : World)
        → AllFresh now pools
        → evict_all ports now pools w ≡ (pools, 0, w)
    unfolding evict_all dispose
    evict_all-fresh now [] w h = refl
    evict_all-fresh now ((t, q) ∷ pools) w (h, hs) =
        ap
          (λ (r : List (Sandbox Time) × PoolQueue Time).
            let rest = evict_all ports now pools (dispose ports r.0 w) in
            ((t, r.1) ∷ rest.0, length r.0 + rest.1, rest.2))
          (evict_idle-none now q h)
        ∙ ap (λ (r : Pools Time × ℕ × World). ((t, q) ∷ r.0, 0 + r.1, r.2))
            (evict_all-fresh now pools w hs)

    -- If no queued sandbox is past its queue's time then `stop` terminates none of them: the queues
    -- and the world stay, and both counters are reset.
    pub stop-keeps :
        (now : ℕ) (st : PoolState Time World)
        → AllFresh now st.pools
        → ((stop ports now st).pools ≡ st.pools)
          × ((stop ports now st).world ≡ st.world)
          × ((stop ports now st).total_active ≡ 0)
          × ((stop ports now st).total_idle ≡ 0)
    unfolding stop
    stop-keeps now st fresh =
        rw (stop, evict_all-fresh now st.pools st.world fresh) (refl, refl, refl, refl)
