-- ===== src/Enrichment/Metrics/Tests.antt =====
-- Runs of the counters, and their theorems at concrete inputs.
use bastion.Base.{◌≡◌, ◌-◌, ◌^◌, refl, [], ◌∷◌, ltb, length, if◌then◌else◌, arith}
use bastion.Enrichment.Metrics.{
  EnrichmentMetrics, new_metrics, ring_capacity, record_success, record_failure, recent_runs_5min,
  record_facts, record_latency, record_saturation_drop,
}
use bastion.Enrichment.Metrics.History.{
  Recorded, started, succeeded, failed, within, recent_runs-within,
}

-- Two runs, the first of which has left the window when the number is asked for.
abbrev two_runs : EnrichmentMetrics
two_runs = record_failure 200000 200001 (record_success 1000 1000 new_metrics)

recorded : Recorded (1000 ∷ 200000 ∷ []) 200001 two_runs
recorded =
    failed 200000 200001 (succeeded 1000 1000 (started 0) (omega arith) (omega arith)) (omega arith)
      (omega arith)

window_test : (recent_runs_5min 350000 two_runs).0 ≡ 1
unfolding recent_runs_5min record_failure record_success
window_test = refl

counter_test :
    ((record_facts (2 ^ 32 - 1) (record_facts 1 new_metrics)).facts_total ≡ 2 ^ 32)
    × ((record_saturation_drop two_runs).saturation_drops ≡ 1)
    × ((record_latency 7 (record_latency 5 new_metrics)).latencies ≡ 5 ∷ 7 ∷ [])
unfolding record_facts record_saturation_drop record_latency record_failure record_success
counter_test = (refl, refl, refl)

recent_runs-within_example : (recent_runs_5min 350000 two_runs).0 ≡ (
    if ltb ring_capacity (length (within 350000 (1000 ∷ 200000 ∷ [])))
    then ring_capacity
    else length (within 350000 (1000 ∷ 200000 ∷ [])))
recent_runs-within_example = recent_runs-within 350000 recorded (omega arith)
