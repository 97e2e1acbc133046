-- ===== src/Enrichment/Metrics.antt =====
-- The counters of the enrichment engine, crates/enrichment-engine/src/metrics.rs. An instant is a number
-- of milliseconds; each reading of the clock is an argument. The locks are never poisoned, since no
-- call fails while it holds one.
pub mod Laws
pub mod Ring
pub mod History
mod Tests
use bastion.Base.{
  ℕ, zero, suc, ◌+◌, ◌-◌, ◌%◌, ◌^◌, Bool, true, false, List, [], ◌∷◌, ◌++◌, ltb, if◌then◌else◌,
  length, drop,
}

pub record EnrichmentMetrics : Type 0 where
  pub total_success : ℕ
  pub total_failure : ℕ
  pub saturation_drops : ℕ
  pub facts_total : ℕ
  pub latencies : List ℕ
  pub run_timestamps : List ℕ

abbrev pub new_metrics : EnrichmentMetrics
new_metrics = record {
  total_success = 0;
  total_failure = 0;
  saturation_drops = 0;
  facts_total = 0;
  latencies = [];
  run_timestamps = [];
}

-- `RING_CAPACITY`, and the five minutes of the window.
abbrev pub ring_capacity : ℕ
ring_capacity = 10000

abbrev pub window : ℕ
window = 300000

-- `fetch_add` on an `AtomicU64` wraps around.
abbrev pub fetch_add : ℕ → ℕ → ℕ
fetch_add n counter = (counter + n) % 2 ^ 64

-- Whether the instant lies before `now - 300 s`.
abbrev pub expired : ℕ → ℕ → Bool
expired now t = ltb (t + window) now

unfoldable pub prune_old : ℕ → List ℕ → List ℕ
prune_old now [] = []
prune_old now (t ∷ timestamps) =
    let rest = prune_old now timestamps in if expired now t then rest else t ∷ timestamps

-- `while timestamps.len() > RING_CAPACITY { timestamps.pop_front(); }`
unfoldable pub cap_ring : List ℕ → List ℕ
cap_ring [] = []
cap_ring (t ∷ timestamps) =
    let rest = cap_ring timestamps in
    if ltb ring_capacity (length (t ∷ timestamps)) then rest else t ∷ timestamps

-- A run that ends: the clock is read once for the entry and once for the window.
unfoldable pub add_run : ℕ → ℕ → List ℕ → List ℕ
unfolding prune_old cap_ring
add_run at now timestamps = cap_ring (prune_old now (timestamps ++ at ∷ []))

unfoldable pub record_success : ℕ → ℕ → EnrichmentMetrics → EnrichmentMetrics
unfolding add_run
record_success at now m = record m {
  total_success = fetch_add 1 m.total_success;
  run_timestamps = add_run at now m.run_timestamps;
}

unfoldable pub record_failure : ℕ → ℕ → EnrichmentMetrics → EnrichmentMetrics
unfolding add_run
record_failure at now m = record m {
  total_failure = fetch_add 1 m.total_failure;
  run_timestamps = add_run at now m.run_timestamps;
}

unfoldable pub recent_runs_5min : ℕ → EnrichmentMetrics → ℕ × EnrichmentMetrics
unfolding prune_old
recent_runs_5min now m =
    let timestamps = prune_old now m.run_timestamps in
    (length timestamps, record m { run_timestamps = timestamps })

unfoldable pub record_saturation_drop : EnrichmentMetrics → EnrichmentMetrics
record_saturation_drop m = record m { saturation_drops = fetch_add 1 m.saturation_drops }

-- The count is a `u32`.
unfoldable pub record_facts : ℕ → EnrichmentMetrics → EnrichmentMetrics
record_facts count m = record m { facts_total = fetch_add count m.facts_total }

unfoldable pub record_latency : ℕ → EnrichmentMetrics → EnrichmentMetrics
record_latency elapsed_ms m = record m { latencies = m.latencies ++ elapsed_ms ∷ [] }
