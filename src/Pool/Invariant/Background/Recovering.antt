-- ===== src/Pool/Invariant/Background/Recovering.antt =====
-- The invariant and `recover_active_sandboxes` of
-- crates/bastion-infrastructure/src/pool/manager.rs, and what its result counts.
use bastion.Base.{
  ℕ, ◌+◌, ◌≡◌, refl, inl, inr, Bool, true, false, Option, none, some, List, [], ◌∷◌, arith, leb,
  length, any, Option-cases, either-branch, string_eq, ◌==◌,
}
use bastion.Base.Map.{lookup}
use bastion.Sandbox.Errors.{Result, ok, err}
use bastion.Sandbox.Entity.{Sandbox, terminate}
use bastion.Pool.Queue.{PoolQueue, push, idle_count}
use bastion.Pool.Queue.Laws.{Pushes, push-Pushes}
use bastion.Pool.Ports.{Ports}
use bastion.Pool.Manager.{PoolState}
use bastion.Pool.Recovery.{
  RecoveryResult, default_result, Recovering, queue_running, reintegrate, reintegrate_if_room,
  mark_repository, in_world, after_save, recover_found, recover_one, recover_each, count_orphan,
  update_orphan, mark_orphans, orphans_of, recover_listed, recover_active_sandboxes,
}
use bastion.Pool.Invariant.{Valid}
use bastion.Pool.Invariant.Clients.{Valid-same, Valid-Pushed}

-- The sandboxes that the first phase has dealt with.
abbrev pub dealt_with : RecoveryResult → ℕ
dealt_with r = r.reintegrated + r.skipped_pool_full + r.skipped_not_registered + r.failed

module _ {Time World : Type 0} where
  -- After one more sandbox: the invariant holds and the count has gone up by one.
  record Step (r r' : Recovering Time World) : Type 0 where
    valid : Valid r.state → Valid r'.state
    dealt : dealt_with r'.result ≡ 1 + dealt_with r.result

  queue_running-Step :
      (s : Sandbox Time) (q : PoolQueue Time) (p : Bool × PoolQueue Time)
      (r : Recovering Time World)
      → lookup s.template_id r.state.pools ≡ some q
      → Pushes q s p
      → Step r (queue_running s p r)
  queue_running-Step s q (false, q') r found pushes = record { valid = λ v. v; dealt = omega arith }
  queue_running-Step s q (true, q') r found pushes = record {
    valid = λ v. Valid-Pushed s.template_id q q' s r.state _ found pushes refl refl v;
    dealt = omega arith;
  }

  reintegrate-Step :
      (s : Sandbox Time) (now : ℕ) (q : PoolQueue Time) (r : Recovering Time World)
      → lookup s.template_id r.state.pools ≡ some q
      → Step r (reintegrate s now (some q) r)
  unfolding reintegrate
  reintegrate-Step s now q r found =
      queue_running-Step s q (push s now q) r found (push-Pushes s now q)

  reintegrate_if_room-Step :
      (s : Sandbox Time) (now : ℕ) (q : PoolQueue Time) (r : Recovering Time World)
      → lookup s.template_id r.state.pools ≡ some q
      → Step r (reintegrate_if_room s now (some q) r)
  unfolding reintegrate_if_room
  reintegrate_if_room-Step s now q r found =
      either-branch (Step r) (leb q.max_idle (idle_count q)) _ _
        (record { valid = λ v. v; dealt = omega arith }) (reintegrate-Step s now q r found)

  module _ (ports : Ports Time World) where
    from_world :
        (r r' : Recovering Time World) (w : World) → Step (in_world ports r w) r' → Step r r'
    from_world r r' w step = record {
      valid = λ v. step.valid (Valid-same r.state _ refl refl v);
      dealt = step.dealt;
    }

    after_save-Step :
        (saved : Result (Unit {0})) (s : Sandbox Time) (now : ℕ) (q : PoolQueue Time)
        (r : Recovering Time World)
        → lookup s.template_id r.state.pools ≡ some q
        → Step r (after_save ports saved s now r)
    after_save-Step (err e) s now q r found = record { valid = λ v. v; dealt = omega arith }
    after_save-Step (ok _) s now q r found = rw found (reintegrate-Step s now q r found)

    recover_found-Step :
        (s : Sandbox Time) (now : ℕ) (q : PoolQueue Time) (known : Result (Option (Sandbox Time)))
        (r : Recovering Time World)
        → lookup s.template_id r.state.pools ≡ some q
        → Step r (recover_found ports s now known r)
    unfolding recover_found
    recover_found-Step s now q (err e) r found = record { valid = λ v. v; dealt = omega arith }
    recover_found-Step s now q (ok none) r found =
        let (saved, w) = ports.save s r.state.world in
        from_world r _ w (after_save-Step saved s now q (in_world ports r w) found)
    recover_found-Step s now q (ok (some known)) r found =
        let w = mark_repository ports known r.state.world in
        rw found (from_world r _ w (reintegrate_if_room-Step s now q (in_world ports r w) found))

    recover_one-Step :
        (now : ℕ) (s : Sandbox Time) (r : Recovering Time World)
        → Step r (recover_one ports now s r)
    unfolding recover_one
    recover_one-Step now s r =
        let (known, w) = ports.find_by_id s.id r.state.world in
        elim (Option-cases (lookup s.template_id r.state.pools)) [
          | inl e ↦ rw (recover_one, e) (record { valid = λ v. v; dealt = omega arith })
          | inr (q, e) ↦
              rw (recover_one, e)
                (from_world r _ w (recover_found-Step s now q known (in_world ports r w) e))
        ]

    recover_each-Valid :
        (now : ℕ) (listed : List (Sandbox Time)) (r : Recovering Time World)
        → Valid r.state
        → Valid (recover_each ports now listed r).state
    unfolding recover_each
    recover_each-Valid now [] r v = v
    recover_each-Valid now (s ∷ rest) r v =
        recover_each-Valid now rest (recover_one ports now s r) ((recover_one-Step now s r).valid v)

    -- The first phase deals with every sandbox that it is given: it is queued, skipped or failed.
    pub recover_each-dealt_with :
        (now : ℕ) (listed : List (Sandbox Time)) (r : Recovering Time World)
        → dealt_with (recover_each ports now listed r).result ≡ length listed + dealt_with r.result
    unfolding recover_each
    recover_each-dealt_with now [] r = omega arith
    recover_each-dealt_with now (s ∷ rest) r = omega (
      arith,
      recover_each-dealt_with now rest (recover_one ports now s r),
      (recover_one-Step now s r).dealt,
    )

    count_orphan-Valid :
        (updated : Result (Unit {0})) (w : World) (r : Recovering Time World)
        → Valid r.state
        → Valid (count_orphan ports updated (in_world ports r w)).state
    count_orphan-Valid (ok _) w r v = Valid-same r.state _ refl refl v
    count_orphan-Valid (err e) w r v = Valid-same r.state _ refl refl v

    update_orphan-Valid :
        (o : Result (Sandbox Time)) (r : Recovering Time World)
        → Valid r.state
        → Valid (update_orphan ports o r).state
    update_orphan-Valid (err e) r v = v
    update_orphan-Valid (ok s) r v =
        let (updated, w) = ports.update s r.state.world in count_orphan-Valid updated w r v

    mark_orphans-Valid :
        (listed active : List (Sandbox Time)) (r : Recovering Time World)
        → Valid r.state
        → Valid (mark_orphans ports listed active r).state
    unfolding mark_orphans
    mark_orphans-Valid listed [] r v = v
    mark_orphans-Valid listed (s ∷ rest) r v =
        either-branch (λ (x : Recovering Time World). Valid x.state)
          (any (λ p. p.id == s.id) listed) _ _ (mark_orphans-Valid listed rest r v)
          (mark_orphans-Valid listed rest _ (update_orphan-Valid (terminate s) r v))

    orphans_of-Valid :
        (active : Result (List (Sandbox Time))) (listed : List (Sandbox Time))
        (r : Recovering Time World)
        → Valid r.state
        → Valid (orphans_of ports active listed r).state
    orphans_of-Valid (err e) listed r v = v
    orphans_of-Valid (ok active) listed r v = mark_orphans-Valid listed active r v

    recover_listed-Valid :
        (now : ℕ) (listed : Result (List (Sandbox Time))) (r : Recovering Time World)
        → Valid r.state
        → Valid (recover_listed ports now listed r).state
    recover_listed-Valid now (err e) r v = v
    recover_listed-Valid now (ok listed) r v =
        let r1 = recover_each ports now listed r in
        let (active, w) = ports.find_active r1.state.world in
        orphans_of-Valid active listed _
          (Valid-same r1.state _ refl refl (recover_each-Valid now listed r v))

    -- The recovery keeps the invariant, whatever the provider and the repository answer.
    pub Valid-recover_active_sandboxes :
        (now : ℕ) (st : PoolState Time World)
        → Valid st
        → Valid (recover_active_sandboxes ports now st).state
    unfolding recover_active_sandboxes
    Valid-recover_active_sandboxes now st v =
        let (listed, w) = ports.list_running st.world in
        recover_listed-Valid now listed
          (record { state = record st { world = w }; result = default_result })
          (Valid-same st _ refl refl v)
