-- ===== src/Pool/Invariant/Clients.antt =====
-- The invariant and the calls of the pool's clients: `register_template`, `checkout` and `checkin` of
-- crates/bastion-infrastructure/src/pool/manager.rs.
use Prim.Native.String.{String}
use mathlib.Core.Option
use bastion.Base.{
  ℕ, ◌+◌, ◌≡◌, refl, inl, inr, Bool, true, false, Option, none, some, [], ◌∷◌, arith, ltb,
  Bool-cases, Option-cases, string_eq,
}
use bastion.Base.Map.{lookup, insert}
use bastion.Sandbox.Errors.{Result, ok, err}
use bastion.Sandbox.Entity.{Sandbox}
use bastion.Pool.Queue.{PoolConfig, PoolQueue, idle_count, pop, push, new_queue}
use bastion.Pool.Queue.Laws.{Bounded, Popped, Pops, pop-Pops, Pushed, Pushes, push-Pushes}
use bastion.Pool.Ports.{Ports}
use bastion.Pool.Manager.{
  Pools, PoolState, idle_sum, fetch_add, fetch_sub, new_pool, register_template, count_made,
  create_sandbox, create_directly, hand_out, serve, checkout, queue_back, take_back, check_in_found,
  checkin,
}
use bastion.Pool.Invariant.{Valid}
use bastion.Pool.Invariant.Sums.{
  idle_sum-insert, AllBounded-insert, AllBounded-lookup, count_one_more, count_less,
}

module _ {Time : Type 0} where
  idle_sum-new :
      (t : String) (q : PoolQueue Time) (pools : Pools Time)
      → lookup t pools ≡ none
      → idle_sum (insert t q pools) ≡ idle_sum pools + idle_count q
  unfolding lookup insert
  idle_sum-new t q [] h = omega arith
  idle_sum-new t q ((u, p) ∷ pools) h = ground (arith, idle_sum-new t q pools)

module _ {Time World : Type 0} where
  pub Valid-new_pool : (config : PoolConfig) (w : World) → Valid (new_pool {Time = Time} config w)
  unfolding new_pool
  Valid-new_pool config w = record { bounded = tt; counted = refl }

  pub Valid-register_template :
      (t : String) (st : PoolState Time World)
      → lookup t st.pools ≡ none
      → Valid st
      → Valid (register_template t st)
  unfolding register_template new_queue idle_count
  Valid-register_template t st fresh v =
      let config = st.config in
      let q : PoolQueue Time = new_queue config.min_idle config.max_idle config.idle_timeout_ms in
      record {
        bounded = AllBounded-insert t q st.pools (omega arith) v.bounded;
        counted = rw (idle_sum-new t q st.pools fresh) (omega (arith, v.counted));
      }

  -- The state after one queue has lost its oldest entry.
  Valid-Popped :
      (t : String) (q q' : PoolQueue Time) (s : Sandbox Time) (st st' : PoolState Time World)
      → lookup t st.pools ≡ some q
      → Popped q s q'
      → st'.pools ≡ insert t q' st.pools
      → st'.total_idle ≡ fetch_sub st.total_idle 1
      → Valid st
      → Valid st'
  unfolding idle_count
  Valid-Popped t q q' s st st' found popped pools idle v =
      let below : Bounded q = AllBounded-lookup t q st.pools found v.bounded in
      let sum = idle_sum-insert t q q' st.pools found in
      let less : 1 + idle_sum (insert t q' st.pools) ≡ idle_sum st.pools =
        omega (arith, sum, popped.shorter) in
      record {
        bounded = rw pools (
            AllBounded-insert t q' st.pools
              (omega (arith, below, popped.shorter, popped.same_bound)) v.bounded);
        counted = rw (pools, idle) (count_less st.total_idle 1 _ _ v.counted less);
      }

  -- The state after one queue has got a new entry.
  pub Valid-Pushed :
      (t : String) (q q' : PoolQueue Time) (s : Sandbox Time) (st st' : PoolState Time World)
      → lookup t st.pools ≡ some q
      → Pushed q s q'
      → st'.pools ≡ insert t q' st.pools
      → st'.total_idle ≡ fetch_add st.total_idle 1
      → Valid st
      → Valid st'
  unfolding idle_count
  Valid-Pushed t q q' s st st' found pushed pools idle v =
      let sum = idle_sum-insert t q q' st.pools found in
      let more : idle_sum (insert t q' st.pools) ≡ 1 + idle_sum st.pools =
        omega (arith, sum, pushed.longer) in
      record {
        bounded = rw pools (
            AllBounded-insert t q' st.pools
              (omega (arith, pushed.room, pushed.longer, pushed.same_bound)) v.bounded);
        counted = rw (pools, idle) (count_one_more st.total_idle _ _ v.counted more);
      }

  pub Valid-same :
      (st st' : PoolState Time World)
      → st'.pools ≡ st.pools
      → st'.total_idle ≡ st.total_idle
      → Valid st
      → Valid st'
  Valid-same st st' pools idle v = record {
    bounded = rw pools v.bounded;
    counted = rw (pools, idle) v.counted;
  }

  module _ (ports : Ports Time World) where
    -- What a call of `checkout` leaves, if it returns.
    abbrev ValidAfter : Option (Result (Sandbox Time) × PoolState Time World) → Type 0
    ValidAfter none = Unit {0}
    ValidAfter (some (r, st)) = Valid st

    count_made-Valid :
        (r : Result (Sandbox Time)) (st : PoolState Time World)
        → Valid st
        → Valid (count_made ports r st)
    count_made-Valid (ok s) st v = Valid-same st _ refl refl v
    count_made-Valid (err e) st v = v

    create_directly-Valid :
        (t : String) (timeout_ms : ℕ) (st : PoolState Time World)
        → Valid st
        → ValidAfter (create_directly ports t timeout_ms st)
    unfolding create_directly
    create_directly-Valid t timeout_ms st v = elim (Bool-cases (ltb 0 st.permits)) [
      | inl permit ↦
          rw (create_directly, permit)
            (count_made-Valid (create_sandbox ports t timeout_ms st.world).0 _
              (Valid-same st _ refl refl v))
      | inr waits ↦ rw (create_directly, waits) tt
    ]

    serve-Valid :
        (t : String) (timeout_ms : ℕ) (q : PoolQueue Time) (st : PoolState Time World)
        (r : Option (Sandbox Time) × PoolQueue Time)
        → lookup t st.pools ≡ some q
        → Pops q r
        → Valid st
        → ValidAfter (serve ports t timeout_ms (Option.map (λ s. (s, r.1)) r.0) st)
    unfolding hand_out
    serve-Valid t timeout_ms q st (none, q') found pops v = create_directly-Valid t timeout_ms st v
    serve-Valid t timeout_ms q st (some s, q') found pops v =
        Valid-Popped t q q' s st _ found pops refl refl v

    checkout-Valid :
        (t : String) (timeout_ms : ℕ) (st : PoolState Time World)
        → Valid st
        → ValidAfter (checkout ports t timeout_ms st)
    unfolding checkout
    checkout-Valid t timeout_ms st v = elim (Option-cases (lookup t st.pools)) [
      | inl e ↦ rw (checkout, e) (create_directly-Valid t timeout_ms st v)
      | inr (q, e) ↦ rw (checkout, e) (serve-Valid t timeout_ms q st (pop q) e (pop-Pops q) v)
    ]

    -- A call of `checkout` that returns keeps the invariant.
    pub Valid-checkout :
        (t : String) (timeout_ms : ℕ) (st st' : PoolState Time World) (r : Result (Sandbox Time))
        → checkout ports t timeout_ms st ≡ some (r, st')
        → Valid st
        → Valid st'
    Valid-checkout t timeout_ms st st' r e v =
        let after = checkout-Valid t timeout_ms st v in rw e at after

    queue_back-Valid :
        (s : Sandbox Time) (q : PoolQueue Time) (r : Bool × PoolQueue Time)
        (st : PoolState Time World)
        → lookup s.template_id st.pools ≡ some q
        → Pushes q s r
        → Valid st
        → Valid (queue_back ports s r st)
    queue_back-Valid s q (false, q') st found pushes v = Valid-same st _ refl refl v
    queue_back-Valid s q (true, q') st found pushes v =
        Valid-Pushed s.template_id q q' s st _ found pushes refl refl v

    take_back-Valid :
        (s : Sandbox Time) (now : ℕ) (st : PoolState Time World)
        → Valid st
        → Valid (take_back ports s now (lookup s.template_id st.pools) st)
    unfolding take_back
    take_back-Valid s now st v = elim (Option-cases (lookup s.template_id st.pools)) [
      | inl e ↦ rw (e, take_back) (Valid-same st _ refl refl v)
      | inr (q, e) ↦
          rw (e, take_back) (queue_back-Valid s q (push s now q) st e (push-Pushes s now q) v)
    ]

    check_in_found-Valid :
        (id : String) (now : ℕ) (r : Result (Option (Sandbox Time))) (st : PoolState Time World)
        → Valid st
        → Valid (check_in_found ports id now r st).1
    unfolding check_in_found
    check_in_found-Valid id now (err e) st v = v
    check_in_found-Valid id now (ok none) st v = v
    check_in_found-Valid id now (ok (some s)) st v =
        take_back-Valid s now _ (Valid-same st _ refl refl v)

    -- Every call of `checkin`, also one that fails, keeps the invariant.
    pub Valid-checkin :
        (id : String) (now : ℕ) (st : PoolState Time World)
        → Valid st
        → Valid (checkin ports id now st).1
    unfolding checkin
    Valid-checkin id now st v =
        check_in_found-Valid id now (ports.find_by_id id st.world).0 _ (Valid-same st _ refl refl v)
