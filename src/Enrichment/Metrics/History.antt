-- ===== src/Enrichment/Metrics/History.antt =====
-- Sequences of calls of crates/enrichment-engine/src/metrics.rs, with a clock that does not go back.
use mathlib.Core.Path.{subst}
use bastion.Base.{
  ℕ, ◌+◌, ◌≤◌, ◌≡◌, refl, ◌∙◌, ap, true, not, List, [], ◌∷◌, ◌++◌, ltb, if◌then◌else◌, length,
  filter, All, inl, inr, arith,
}
use bastion.Enrichment.Metrics.{
  EnrichmentMetrics, new_metrics, ring_capacity, expired, prune_old, add_run, record_success,
  record_failure, recent_runs_5min, record_saturation_drop, record_facts, record_latency,
}
use bastion.Enrichment.Metrics.Laws.{IsRising, prune_old-first}
use bastion.Enrichment.Metrics.Ring.{IsRing, IsRing-later, IsRing-push, IsRing-prune, IsRing-cap}

-- The calls that led to a state, with the instants of the runs and the last reading of the clock.
pub data Recorded : List ℕ → ℕ → EnrichmentMetrics → Type 0 where
  started : (now : ℕ) → Recorded [] now new_metrics
  succeeded :
      {log : List ℕ} {last : ℕ} {m : EnrichmentMetrics} (at now : ℕ)
      → Recorded log last m
      → last ≤ at
      → at ≤ now
      → Recorded (log ++ at ∷ []) now (record_success at now m)
  failed :
      {log : List ℕ} {last : ℕ} {m : EnrichmentMetrics} (at now : ℕ)
      → Recorded log last m
      → last ≤ at
      → at ≤ now
      → Recorded (log ++ at ∷ []) now (record_failure at now m)
  asked :
      {log : List ℕ} {last : ℕ} {m : EnrichmentMetrics} (now : ℕ)
      → Recorded log last m
      → last ≤ now
      → Recorded log now (recent_runs_5min now m).1
  dropped :
      {log : List ℕ} {last : ℕ} {m : EnrichmentMetrics}
      → Recorded log last m
      → Recorded log last (record_saturation_drop m)
  found :
      {log : List ℕ} {last : ℕ} {m : EnrichmentMetrics} (count : ℕ)
      → Recorded log last m
      → Recorded log last (record_facts count m)
  measured :
      {log : List ℕ} {last : ℕ} {m : EnrichmentMetrics} (elapsed_ms : ℕ)
      → Recorded log last m
      → Recorded log last (record_latency elapsed_ms m)

IsRing-add_run :
    {log : List ℕ} {last : ℕ} {ts : List ℕ} (at now : ℕ)
    → IsRing ring_capacity log last ts
    → last ≤ at
    → at ≤ now
    → IsRing ring_capacity (log ++ at ∷ []) now (add_run at now ts)
unfolding add_run
IsRing-add_run at now r h k = IsRing-cap (IsRing-prune (IsRing-later now k (IsRing-push at h r)))

Recorded-IsRing :
    {log : List ℕ} {last : ℕ} {m : EnrichmentMetrics}
    → Recorded log last m
    → IsRing ring_capacity log last m.run_timestamps
unfolding record_success record_failure recent_runs_5min record_saturation_drop record_facts
    record_latency
Recorded-IsRing (started now) = record {
  lost = [];
  split_log = refl;
  rising = tt;
  until = tt;
  fits = omega arith;
  gone = inl tt;
}
Recorded-IsRing (succeeded at now r h k) = IsRing-add_run at now (Recorded-IsRing r) h k
Recorded-IsRing (failed at now r h k) = IsRing-add_run at now (Recorded-IsRing r) h k
Recorded-IsRing (asked now r h) = IsRing-prune (IsRing-later now h (Recorded-IsRing r))
Recorded-IsRing (dropped r) = Recorded-IsRing r
Recorded-IsRing (found count r) = Recorded-IsRing r
Recorded-IsRing (measured elapsed_ms r) = Recorded-IsRing r

-- The runs of the last five minutes.
abbrev pub within : ℕ → List ℕ → List ℕ
within now log = filter (λ t. not (expired now t)) log

within-append :
    (now : ℕ) (front back : List ℕ)
    → length (within now (front ++ back)) ≡ length (within now front) + length (within now back)
within-append now [] back = omega arith
within-append now (t ∷ front) back = ground (arith, within-append now front back)

within-lost :
    (now : ℕ) (lost : List ℕ) → All (λ t. expired now t ≡ true) lost → length (within now lost) ≡ 0
within-lost now [] h = refl
within-lost now (t ∷ lost) h = ground (arith, within-lost now lost)

IsRising-back : (front back : List ℕ) → IsRising (front ++ back) → IsRising back
IsRising-back [] back h = h
IsRising-back (t ∷ front) back h = IsRising-back front back h.1

ring_count :
    {log : List ℕ} {ts : List ℕ} (now : ℕ)
    → IsRing ring_capacity log now ts
    → length (prune_old now ts) ≡ (
        if ltb ring_capacity (length (within now log))
        then ring_capacity
        else length (within now log))
ring_count {log} {ts} now ring =
    let pruned = IsRing-prune ring in
    let left = prune_old now ts in
    let sorted : IsRising ts =
      IsRising-back ring.lost ts (subst IsRising ring.split_log ring.rising) in
    let all_in : length (within now left) ≡ length left =
      ap length (prune_old-first now ts sorted) in
    let total : length (within now log) ≡ length (within now pruned.lost) + length left =
      ap (λ l. length (within now l)) pruned.split_log
      ∙ within-append now pruned.lost left
      ∙ ap (λ n. length (within now pruned.lost) + n) all_in in
    elim pruned.gone [
      | inl old ↦ ground (arith, total, within-lost now pruned.lost old, pruned.fits)
      | inr full ↦ ground (arith, total, full, pruned.fits)
    ]

-- However the calls came, the number of recent runs is that of all runs recorded within five minutes
-- of the reading of the clock, and 10000 where there are more.
pub recent_runs-within :
    {log : List ℕ} {last : ℕ} {m : EnrichmentMetrics} (now : ℕ)
    → Recorded log last m
    → last ≤ now
    → (recent_runs_5min now m).0 ≡ (
        if ltb ring_capacity (length (within now log))
        then ring_capacity
        else length (within now log))
unfolding recent_runs_5min
recent_runs-within now r h = ring_count now (IsRing-later now h (Recorded-IsRing r))
