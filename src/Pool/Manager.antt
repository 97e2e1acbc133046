-- ===== src/Pool/Manager.antt =====
-- `SandboxPoolManager` of crates/bastion-infrastructure/src/pool/manager.rs, one call at a time. The
-- counters are `AtomicUsize` of 64 bits; `permits` is what the semaphore has left for this call,
-- which gives back on return what it takes.
use Prim.Native.String.{String}
use mathlib.Core.Option
use bastion.Base.{
  ℕ, ◌+◌, ◌-◌, ◌%◌, ◌^◌, Bool, true, false, Option, none, some, List, [], ◌∷◌, ltb, if◌then◌else◌,
  length, string_eq,
}
use bastion.Base.Map.{lookup, insert}
use bastion.Sandbox.Errors.{Result, ok, err, not_found}
use bastion.Sandbox.Entity.{Sandbox, default_resources, default_network}
use bastion.Pool.Queue.{PoolConfig, PoolQueue, new_queue, pop, push, idle_count, evict_idle}
use bastion.Pool.Ports.{Ports, ◌and_then◌}

-- `fetch_add` and `fetch_sub`, which wrap around.
abbrev pub fetch_add : ℕ → ℕ → ℕ
fetch_add a n = (a + n) % 2 ^ 64

abbrev pub fetch_sub : ℕ → ℕ → ℕ
fetch_sub a n = (a + (2 ^ 64 - n % 2 ^ 64)) % 2 ^ 64

abbrev pub Pools : Type 0 → Type 0
Pools Time = List (String × PoolQueue Time)

pub record PoolState (Time World : Type 0) : Type 0 where
  pub world : World
  pub pools : Pools Time
  pub config : PoolConfig
  pub total_active : ℕ
  pub total_idle : ℕ
  pub permits : ℕ

pub record TemplateStats : Type 0 where
  pub template : String
  pub idle : ℕ
  pub min_idle : ℕ
  pub max_idle : ℕ

pub record PoolStats : Type 0 where
  pub templates : List TemplateStats
  pub active : ℕ
  pub idle : ℕ
  pub total : ℕ

module _ {Time : Type 0} where
  abbrev pub idle_sum : Pools Time → ℕ
  idle_sum [] = 0
  idle_sum ((template, q) ∷ pools) = idle_count q + idle_sum pools

  template_stats : Pools Time → List TemplateStats
  template_stats [] = []
  template_stats ((template, q) ∷ pools) =
      record {
        template = template;
        idle = idle_count q;
        min_idle = q.min_idle;
        max_idle = q.max_idle;
      }
      ∷ template_stats pools

module _ {Time World : Type 0} where
  unfoldable pub new_pool : PoolConfig → World → PoolState Time World
  new_pool config world = record {
    world = world;
    pools = [];
    config = config;
    total_active = 0;
    total_idle = 0;
    permits = config.max_total;
  }

  unfoldable pub register_template : String → PoolState Time World → PoolState Time World
  unfolding new_queue
  register_template template st = record st {
    pools =
        insert template (new_queue st.config.min_idle st.config.max_idle st.config.idle_timeout_ms)
          st.pools;
  }

  unfoldable pub stats : PoolState Time World → PoolStats
  unfolding template_stats
  stats st = record {
    templates = template_stats st.pools;
    active = st.total_active;
    idle = idle_sum st.pools;
    total = fetch_add (idle_sum st.pools) st.total_active;
  }

  module _ (ports : Ports Time World) where
    -- A new sandbox from the provider, saved in the repository.
    unfoldable pub create_sandbox : String → ℕ → World → Result (Sandbox Time) × World
    create_sandbox template timeout_ms world =
        let (id, w) = ports.generate world in
        ports.create id template default_resources default_network [] timeout_ms w
        and_then (λ s w'. ports.save s w' and_then (λ _ w''. (ok s, w'')))

    abbrev pub count_made : Result (Sandbox Time) → PoolState Time World → PoolState Time World
    count_made (ok s) st = record st { total_active = fetch_add st.total_active 1 }
    count_made (err e) st = st

    -- What `checkout` does without a warm sandbox; `none` if it waits for a permit.
    unfoldable pub create_directly :
        String → ℕ → PoolState Time World → Option (Result (Sandbox Time) × PoolState Time World)
    unfolding create_sandbox
    create_directly template timeout_ms st =
        let (made, w) = create_sandbox template timeout_ms st.world in
        let counted = count_made made (record st { world = w }) in
        if ltb 0 st.permits then some (made, counted) else none

    -- `checkout` with a warm sandbox taken from the queue of the template.
    unfoldable pub hand_out :
        String → PoolQueue Time → Sandbox Time → PoolState Time World → PoolState Time World
    hand_out template q s st =
        let (updated, w) = ports.update s st.world in
        record st {
          world = w;
          pools = insert template q st.pools;
          total_idle = fetch_sub st.total_idle 1;
          total_active = fetch_add st.total_active 1;
        }

    abbrev pub pop_from : Option (PoolQueue Time) → Option (Sandbox Time × PoolQueue Time)
    pop_from none = none
    pop_from (some q) = let (s, q') = pop q in Option.map (λ s'. (s', q')) s

    -- A warm sandbox is handed out; without one a sandbox is created.
    abbrev pub serve :
        String
        → ℕ
        → Option (Sandbox Time × PoolQueue Time)
        → PoolState Time World
        → Option (Result (Sandbox Time) × PoolState Time World)
    serve template timeout_ms none st = create_directly template timeout_ms st
    serve template timeout_ms (some (s, q)) st = some (ok s, hand_out template q s st)

    unfoldable pub checkout :
        String → ℕ → PoolState Time World → Option (Result (Sandbox Time) × PoolState Time World)
    unfolding create_directly hand_out pop
    checkout template timeout_ms st =
        serve template timeout_ms (pop_from (lookup template st.pools)) st

    abbrev pub queue_back :
        Sandbox Time → Bool × PoolQueue Time → PoolState Time World → PoolState Time World
    queue_back s (false, q) st = record st { total_active = fetch_sub st.total_active 1 }
    queue_back s (true, q) st = record st {
      pools = insert s.template_id q st.pools;
      total_active = fetch_sub st.total_active 1;
      total_idle = fetch_add st.total_idle 1;
    }

    -- The end of `checkin`: the sandbox goes to the queue of its template if that has room.
    unfoldable pub take_back :
        Sandbox Time → ℕ → Option (PoolQueue Time) → PoolState Time World → PoolState Time World
    take_back s now none st = record st { total_active = fetch_sub st.total_active 1 }
    take_back s now (some q) st = queue_back s (push s now q) st

    -- `checkin` of what the repository found.
    unfoldable pub check_in_found :
        String
        → ℕ
        → Result (Option (Sandbox Time))
        → PoolState Time World
        → Result (Unit {0}) × PoolState Time World
    unfolding take_back push
    check_in_found id now (err e) st = (err e, st)
    check_in_found id now (ok none) st = (err (not_found id), st)
    check_in_found id now (ok (some s)) st =
        let (terminated, w) = ports.terminate id st.world in
        (ok tt, take_back s now (lookup s.template_id st.pools) (record st { world = w }))

    unfoldable pub checkin :
        String → ℕ → PoolState Time World → Result (Unit {0}) × PoolState Time World
    unfolding check_in_found
    checkin id now st =
        let (found, w) = ports.find_by_id id st.world in
        check_in_found id now found (record st { world = w })

    -- Terminates the evicted sandboxes and deletes them from the repository; errors are ignored.
    unfoldable pub dispose : List (Sandbox Time) → World → World
    dispose [] w = w
    dispose (s ∷ rest) w =
        let (terminated, w1) = ports.terminate s.id w in
        let (deleted, w2) = ports.delete s.id w1 in dispose rest w2

    -- The loop over the queues that evicts, with the number of the evicted.
    unfoldable pub evict_all : ℕ → Pools Time → World → Pools Time × ℕ × World
    unfolding evict_idle dispose
    evict_all now [] w = ([], 0, w)
    evict_all now ((template, q) ∷ pools) w =
        let (evicted, q') = evict_idle now q in
        let (pools', n, w') = evict_all now pools (dispose evicted w) in
        ((template, q') ∷ pools', length evicted + n, w')

    -- `stop`, after the background task has ended.
    unfoldable pub stop : ℕ → PoolState Time World → PoolState Time World
    unfolding evict_all
    stop now st =
        let (pools, n, w) = evict_all now st.pools st.world in
        record st { world = w; pools = pools; total_idle = 0; total_active = 0 }
