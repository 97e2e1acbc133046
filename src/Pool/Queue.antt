-- ===== src/Pool/Queue.antt =====
-- `PoolConfig`, `PoolEntry` and `PoolQueue` of crates/bastion-infrastructure/src/pool/manager.rs. An
-- instant is a number of milliseconds; the reading of the clock is an argument.
pub mod Laws
use Prim.Native.String.{String}
use bastion.Base.{
  ℕ, ◌+◌, ◌-◌, Bool, true, false, Option, none, some, List, [], ◌∷◌, ◌++◌, ltb, leb, if◌then◌else◌,
  length,
}
use bastion.Sandbox.Entity.{Sandbox}

pub record PoolConfig : Type 0 where
  pub min_idle : ℕ
  pub max_idle : ℕ
  pub max_total : ℕ
  pub idle_timeout_ms : ℕ
  pub refill_interval_ms : ℕ

abbrev pub default_config : PoolConfig
default_config = record {
  min_idle = 5;
  max_idle = 20;
  max_total = 200;
  idle_timeout_ms = 600000;
  refill_interval_ms = 5000;
}

module _ (Time : Type 0) where
  pub record PoolEntry : Type 0 where
    pub sandbox : Sandbox Time
    pub created_at : ℕ
    pub last_used_at : ℕ

  pub record PoolQueue : Type 0 where
    pub entries : List PoolEntry
    pub min_idle : ℕ
    pub max_idle : ℕ
    pub idle_timeout_ms : ℕ

module _ {Time : Type 0} where
  abbrev pub new_entry : Sandbox Time → ℕ → PoolEntry Time
  new_entry s now = record { sandbox = s; created_at = now; last_used_at = now }

  -- `elapsed` is zero for an instant that lies ahead.
  unfoldable pub is_idle_timeout : ℕ → ℕ → PoolEntry Time → Bool
  is_idle_timeout now timeout_ms entry = ltb timeout_ms (now - entry.last_used_at)

  unfoldable pub new_queue : ℕ → ℕ → ℕ → PoolQueue Time
  new_queue min_idle max_idle idle_timeout_ms = record {
    entries = [];
    min_idle = min_idle;
    max_idle = max_idle;
    idle_timeout_ms = idle_timeout_ms;
  }

  -- `pop_front`.
  unfoldable pub pop : PoolQueue Time → Option (Sandbox Time) × PoolQueue Time
  pop q = elim q.entries [
    | [] ↦ (none, q)
    | entry ∷ entries ↦ (some entry.sandbox, record q { entries = entries })
  ]

  -- `push_back`, unless the queue is full.
  unfoldable pub push : Sandbox Time → ℕ → PoolQueue Time → Bool × PoolQueue Time
  push s now q =
      if leb q.max_idle (length q.entries)
      then (false, q)
      else (true, record q { entries = q.entries ++ new_entry s now ∷ [] })

  unfoldable pub idle_count : PoolQueue Time → ℕ
  idle_count q = length q.entries

  -- One entry of `retain`: to the evicted or to the kept.
  abbrev sort_entry :
      Bool
      → PoolEntry Time
      → List (Sandbox Time) × List (PoolEntry Time)
      → List (Sandbox Time) × List (PoolEntry Time)
  sort_entry true entry (evicted, kept) = (entry.sandbox ∷ evicted, kept)
  sort_entry false entry (evicted, kept) = (evicted, entry ∷ kept)

  retain :
      (PoolEntry Time → Bool) → List (PoolEntry Time) → List (Sandbox Time) × List (PoolEntry Time)
  retain timed_out [] = ([], [])
  retain timed_out (entry ∷ entries) = sort_entry (timed_out entry) entry (retain timed_out entries)

  -- All entries of a call are compared with one reading of the clock.
  unfoldable pub evict_idle : ℕ → PoolQueue Time → List (Sandbox Time) × PoolQueue Time
  unfolding retain is_idle_timeout
  evict_idle now q =
      let (evicted, kept) = retain (is_idle_timeout now q.idle_timeout_ms) q.entries in
      (evicted, record q { entries = kept })

  unfoldable pub needs_refill : PoolQueue Time → Bool
  needs_refill q = ltb (length q.entries) q.min_idle
