-- ===== src/Pool/Tests.antt =====
-- Runs of the pool manager's calls, and each theorem at a concrete input.
use Prim.Native.String.{String}
use bastion.Base.{ℕ, ◌+◌, ◌≡◌, ◌<◌, refl, none, some, [], ◌∷◌, arith, length, string_eq}
use bastion.Base.Map.{lookup, insert}
use bastion.Sandbox.Status.{running, status_beq}
use bastion.Sandbox.Errors.{ok}
use bastion.Sandbox.Entity.{Sandbox, default_resources, default_network}
use bastion.Pool.Queue.{
  PoolQueue, default_config, new_entry, is_idle_timeout, new_queue, pop, push, idle_count,
  evict_idle, needs_refill,
}
use bastion.Pool.Queue.Laws.{Pushes, push-Pushes}
use bastion.Pool.Ports.{Ports}
use bastion.Pool.Manager.{
  PoolState, new_pool, register_template, idle_sum, create_sandbox, checkout, checkin, stop,
  evict_all,
}
use bastion.Pool.Refill.{Filling, refill_loop, refill_and_evict}
use bastion.Pool.Recovery.{Recovering, default_result, recover_each, recover_active_sandboxes}
use bastion.Pool.Invariant.{Valid}
use bastion.Pool.Invariant.Clients.{
  Valid-new_pool, Valid-register_template, Valid-checkout, Valid-checkin,
}
use bastion.Pool.Invariant.Background.{Valid-refill_and_evict}
use bastion.Pool.Invariant.Background.Recovering.{Valid-recover_active_sandboxes}
use bastion.Pool.Filling.{Creates, refill_loop-fills}
use bastion.Pool.Reuse.{checkin-checkout, AllFresh, stop-keeps}

abbrev sandbox_of : String → String → Sandbox ℕ
sandbox_of id template = record {
  id = id;
  template_id = template;
  provider_id = "docker";
  provider_instance_id = none;
  status = running;
  created_at = 0;
  expires_at = none;
  resources = default_resources;
  network = default_network;
  metadata = [];
  project_id = none;
  purpose = none;
}

-- A world that counts the calls; every call succeeds, and the repository knows one sandbox.
abbrev ports : Ports ℕ ℕ
ports = record {
  generate = λ w. ("new", w + 1);
  create = λ id t r n env ms w. (ok (sandbox_of id t), w + 1);
  terminate = λ id w. (ok tt, w + 1);
  list_running = λ w. (ok (sandbox_of "a" "t" ∷ sandbox_of "b" "u" ∷ []), w);
  save = λ s w. (ok tt, w + 1);
  update = λ s w. (ok tt, w + 1);
  delete = λ id w. (ok tt, w + 1);
  find_by_id = λ id w. (ok (some (sandbox_of "a" "t")), w);
  find_active = λ w. (ok [], w);
}

abbrev empty_pool : PoolState ℕ ℕ
empty_pool = register_template "t" (new_pool default_config 0)

calls : Unit {0}
unfolding new_pool register_template new_queue checkout checkin refill_and_evict evict_all
    refill_loop needs_refill create_sandbox push pop idle_count lookup insert evict_idle
    is_idle_timeout recover_each recover_active_sandboxes status_beq
calls = tt

calls_test :
    (idle_sum (refill_and_evict ports 7 empty_pool).pools ≡ 5)
    × ((refill_and_evict ports 7 empty_pool).total_idle ≡ 5)
    × ((recover_active_sandboxes ports 7 empty_pool).result.reintegrated ≡ 1)
    × ((recover_active_sandboxes ports 7 empty_pool).result.skipped_not_registered ≡ 1)
unfolding calls
calls_test = (refl, refl, refl, refl)

fresh_template : lookup "t" (new_pool {Time = ℕ} {World = ℕ} default_config 0).pools ≡ none
unfolding calls
fresh_template = refl

Valid-register_template_example : Valid empty_pool
Valid-register_template_example =
    Valid-register_template "t" (new_pool default_config 0) fresh_template
      (Valid-new_pool default_config 0)

abbrev filled_pool : PoolState ℕ ℕ
filled_pool = refill_and_evict ports 7 empty_pool

empty_pool-Valid : Valid empty_pool
empty_pool-Valid =
    Valid-register_template "t" (new_pool default_config 0) fresh_template
      (Valid-new_pool default_config 0)

Valid-refill_and_evict_example : Valid filled_pool
Valid-refill_and_evict_example = Valid-refill_and_evict ports 7 empty_pool empty_pool-Valid

abbrev after_checkout : PoolState ℕ ℕ
after_checkout = record empty_pool { world = 3; total_active = 1 }

checked_out : checkout ports "t" 60000 empty_pool ≡ some (ok (sandbox_of "new" "t"), after_checkout)
unfolding calls
checked_out = refl

Valid-checkout_example : Valid after_checkout
Valid-checkout_example =
    Valid-checkout ports "t" 60000 empty_pool after_checkout (ok (sandbox_of "new" "t")) checked_out
      empty_pool-Valid

Valid-checkin_example : Valid (checkin ports "a" 7 empty_pool).1
Valid-checkin_example = Valid-checkin ports "a" 7 empty_pool empty_pool-Valid

Valid-recover_active_sandboxes_example : Valid (recover_active_sandboxes ports 7 empty_pool).state
Valid-recover_active_sandboxes_example =
    Valid-recover_active_sandboxes ports 7 empty_pool empty_pool-Valid

abbrev recovering : Recovering ℕ ℕ
recovering = record { state = empty_pool; result = default_result }

abbrev small_queue : PoolQueue ℕ
small_queue = record {
  entries = new_entry (sandbox_of "x" "t") 1 ∷ new_entry (sandbox_of "y" "t") 9 ∷ [];
  min_idle = 3;
  max_idle = 4;
  idle_timeout_ms = 5;
}

push-Pushes_example :
    Pushes small_queue (sandbox_of "z" "t") (push (sandbox_of "z" "t") 11 small_queue)
push-Pushes_example = push-Pushes (sandbox_of "z" "t") 11 small_queue

abbrev filling : Filling ℕ ℕ
filling = record { queue = small_queue; idle = 2; world = 0 }

always_creates : Creates ports
unfolding create_sandbox
always_creates template timeout_ms w = (sandbox_of "new" template, refl)

refill_loop-fills_example : length (refill_loop ports 1 7 1 "t" filling).queue.entries ≡ 3
refill_loop-fills_example =
    refill_loop-fills ports 1 7 1 "t" filling (omega arith) always_creates (omega arith)
      (omega arith)

abbrev one_pool : PoolState ℕ ℕ
one_pool = record empty_pool { pools = ("t", small_queue) ∷ []; total_idle = 2 }

found_queue : lookup "t" one_pool.pools ≡ some small_queue
unfolding calls
found_queue = refl

no_active : empty_pool.total_active ≡ 0
unfolding calls
no_active = refl

abbrev empty_queue : PoolQueue ℕ
empty_queue = new_queue 5 20 600000

queue_facts :
    (lookup "t" empty_pool.pools ≡ some empty_queue)
    × (empty_queue.entries ≡ [])
    × (0 < empty_queue.max_idle)
unfolding calls
queue_facts = (refl, refl, omega arith)

checkin-checkout_example :
    (st' : PoolState ℕ ℕ) × (checkout ports "t" 60000 (checkin ports "a" 7 empty_pool).1
      ≡ some (ok (sandbox_of "a" "t"), st'))
    × (st'.world ≡ empty_pool.world + 1 + 1)
checkin-checkout_example =
    checkin-checkout ports "a" 7 60000 (sandbox_of "a" "t") empty_pool.world empty_queue empty_pool
      refl queue_facts.0 queue_facts.1 queue_facts.2

none_old : AllFresh ports 3 one_pool.pools
unfolding calls
none_old = ((refl, (refl, tt)), tt)

stop-keeps_example :
    ((stop ports 3 one_pool).pools ≡ one_pool.pools)
    × ((stop ports 3 one_pool).world ≡ one_pool.world)
    × ((stop ports 3 one_pool).total_active ≡ 0)
    × ((stop ports 3 one_pool).total_idle ≡ 0)
stop-keeps_example = stop-keeps ports 3 one_pool none_old
