-- ===== src/Pool/Recovery.antt =====
-- `recover_active_sandboxes` of crates/bastion-infrastructure/src/pool/manager.rs. One
-- reading of the clock serves the whole run.
use bastion.Base.{
  ℕ, ◌+◌, Bool, true, false, Option, none, some, List, [], ◌∷◌, leb, if◌then◌else◌, any, string_eq,
  ◌==◌,
}
use bastion.Base.Map.{lookup, insert}
use bastion.Sandbox.Status.{running, status_beq}
use bastion.Sandbox.Errors.{Result, ok, err}
use bastion.Sandbox.Entity.{Sandbox, mark_running, terminate}
use bastion.Pool.Queue.{PoolQueue, push, idle_count}
use bastion.Pool.Ports.{Ports}
use bastion.Pool.Manager.{fetch_add, PoolState}

pub record RecoveryResult : Type 0 where
  pub reintegrated : ℕ
  pub skipped_pool_full : ℕ
  pub skipped_not_registered : ℕ
  pub orphaned_terminated : ℕ
  pub failed : ℕ

abbrev pub default_result : RecoveryResult
default_result = record {
  reintegrated = 0;
  skipped_pool_full = 0;
  skipped_not_registered = 0;
  orphaned_terminated = 0;
  failed = 0;
}

-- The pool and the result so far.
pub record Recovering (Time World : Type 0) : Type 0 where
  pub state : PoolState Time World
  pub result : RecoveryResult

module _ {Time World : Type 0} where
  abbrev pub skip_full : Recovering Time World → Recovering Time World
  skip_full r = record r {
    result = record r.result { skipped_pool_full = r.result.skipped_pool_full + 1 };
  }

  abbrev pub fail : Recovering Time World → Recovering Time World
  fail r = record r { result = record r.result { failed = r.result.failed + 1 } }

  abbrev pub queue_running :
      Sandbox Time → Bool × PoolQueue Time → Recovering Time World → Recovering Time World
  queue_running s (false, q) r = skip_full r
  queue_running s (true, q) r = record {
    state = record r.state {
      pools = insert s.template_id q r.state.pools;
      total_idle = fetch_add r.state.total_idle 1;
    };
    result = record r.result { reintegrated = r.result.reintegrated + 1 };
  }

  -- The push of a running sandbox into the queue of its template.
  unfoldable pub reintegrate :
      Sandbox Time → ℕ → Option (PoolQueue Time) → Recovering Time World → Recovering Time World
  unfolding push
  reintegrate s now none r = r
  reintegrate s now (some q) r = queue_running s (push s now q) r

  -- The branch of a sandbox that the repository knows looks at the capacity first.
  unfoldable pub reintegrate_if_room :
      Sandbox Time → ℕ → Option (PoolQueue Time) → Recovering Time World → Recovering Time World
  unfolding reintegrate idle_count
  reintegrate_if_room s now none r = r
  reintegrate_if_room s now (some q) r =
      if leb q.max_idle (idle_count q) then skip_full r else reintegrate s now (some q) r

  module _ (ports : Ports Time World) where
    -- The update of a repository's sandbox that could be changed; its error is ignored.
    abbrev pub update_changed : Result (Sandbox Time) → World → World
    update_changed (err e) w = w
    update_changed (ok s) w = let (updated, w') = ports.update s w in w'

    -- The repository's copy is marked running if it is not.
    abbrev pub mark_repository : Sandbox Time → World → World
    mark_repository s w =
        if status_beq s.status running then w else update_changed (mark_running s) w

    abbrev pub in_world : Recovering Time World → World → Recovering Time World
    in_world r w = record r { state = record r.state { world = w } }

    abbrev pub after_save :
        Result (Unit {0}) → Sandbox Time → ℕ → Recovering Time World → Recovering Time World
    after_save (ok _) s now r = reintegrate s now (lookup s.template_id r.state.pools) r
    after_save (err e) s now r = fail r

    -- The match on what the repository knows of a running sandbox.
    unfoldable pub recover_found :
        Sandbox Time
        → ℕ
        → Result (Option (Sandbox Time))
        → Recovering Time World
        → Recovering Time World
    unfolding reintegrate_if_room status_beq mark_running
    recover_found s now (err e) r = fail r
    recover_found s now (ok none) r =
        let (saved, w) = ports.save s r.state.world in after_save saved s now (in_world r w)
    recover_found s now (ok (some known)) r =
        let r' = in_world r (mark_repository known r.state.world) in
        reintegrate_if_room s now (lookup s.template_id r'.state.pools) r'

    abbrev pub skip_unregistered : Recovering Time World → Recovering Time World
    skip_unregistered r = record r {
      result = record r.result { skipped_not_registered = r.result.skipped_not_registered + 1 };
    }

    -- One round of the first phase.
    unfoldable pub recover_one : ℕ → Sandbox Time → Recovering Time World → Recovering Time World
    unfolding recover_found
    recover_one now s r =
        let (found, w) = ports.find_by_id s.id r.state.world in
        elim (lookup s.template_id r.state.pools) [
          | none ↦ skip_unregistered r
          | some q ↦ recover_found s now found (in_world r w)
        ]

    unfoldable pub recover_each :
        ℕ → List (Sandbox Time) → Recovering Time World → Recovering Time World
    unfolding recover_one
    recover_each now [] r = r
    recover_each now (s ∷ rest) r = recover_each now rest (recover_one now s r)

    abbrev pub count_orphan : Result (Unit {0}) → Recovering Time World → Recovering Time World
    count_orphan (ok _) r = record r {
      result = record r.result { orphaned_terminated = r.result.orphaned_terminated + 1 };
    }
    count_orphan (err e) r = r

    abbrev pub update_orphan : Result (Sandbox Time) → Recovering Time World → Recovering Time World
    update_orphan (err e) r = r
    update_orphan (ok s) r =
        let (updated, w) = ports.update s r.state.world in count_orphan updated (in_world r w)

    -- The second phase: an active sandbox that the provider does not list is marked as terminated.
    unfoldable pub mark_orphans :
        List (Sandbox Time) → List (Sandbox Time) → Recovering Time World → Recovering Time World
    unfolding terminate
    mark_orphans listed [] r = r
    mark_orphans listed (s ∷ rest) r =
        let marked = mark_orphans listed rest (update_orphan (terminate s) r) in
        let others = mark_orphans listed rest r in
        if any (λ p. p.id == s.id) listed then others else marked

    abbrev pub orphans_of :
        Result (List (Sandbox Time))
        → List (Sandbox Time)
        → Recovering Time World
        → Recovering Time World
    orphans_of (err e) listed r = r
    orphans_of (ok active) listed r = mark_orphans listed active r

    abbrev pub recover_listed :
        ℕ → Result (List (Sandbox Time)) → Recovering Time World → Recovering Time World
    recover_listed now (err e) r = r
    recover_listed now (ok listed) r =
        let r1 = recover_each now listed r in
        let (active, w) = ports.find_active r1.state.world in
        orphans_of active listed (in_world r1 w)

    unfoldable pub recover_active_sandboxes : ℕ → PoolState Time World → Recovering Time World
    unfolding recover_each mark_orphans
    recover_active_sandboxes now st =
        let (listed, w) = ports.list_running st.world in
        recover_listed now listed
          (record { state = record st { world = w }; result = default_result })
