-- ===== src/Metrics/Aggregate.antt =====
-- `aggregate_worker_metrics` of src/metrics.rs and its two parts.
use rusty_comms.Prelude.{
  ℕ, Option, none, some, List, [], ◌∷◌, map, ltb, if◌then◌else◌, add_usize, Result, ok, err, best,
  least, greatest, Choice,
}
use rusty_comms.Metrics.{
  Numeric, Fault, no_metrics, no_latency_metrics, LatencyMetrics, PercentileValue,
  ThroughputMetrics, PerformanceMetrics, rate,
}

-- `.min().unwrap_or(0)` and `.max().unwrap_or(0)`
abbrev pub extreme : Choice → List ℕ → ℕ
extreme choice [] = 0
extreme choice (x ∷ xs) = best choice x xs

-- `.sum()`
abbrev pub sum : List ℕ → ℕ → ℕ
sum [] acc = acc
sum (x ∷ xs) acc = sum xs (add_usize acc x)

module _ (num : Numeric) where
  open num use {F64, of_u64, decimal, plus, times, divide, minus, sqrt, abs, below}

  unfoldable pub aggregate_throughput_metrics : List (ThroughputMetrics num) → ThroughputMetrics num
  aggregate_throughput_metrics ms =
      let total_messages = sum (map (λ m. m.total_messages) ms) 0 in
      let total_bytes = sum (map (λ m. m.total_bytes) ms) 0 in
      let max_duration_ns = extreme greatest (map (λ m. m.duration_ns) ms) in
      let secs = divide (of_u64 max_duration_ns) (decimal 1_000_000_000 1) in
      record {
        messages_per_second = rate num total_messages secs;
        bytes_per_second = rate num total_bytes secs;
        total_messages = total_messages;
        total_bytes = total_bytes;
        duration_ns = max_duration_ns;
      }

  -- A sum over the workers, each weighted with its samples.
  abbrev pub weighted : (LatencyMetrics num → F64) → List (LatencyMetrics num) → F64 → F64
  weighted f [] acc = acc
  weighted f (m ∷ ms) acc = weighted f ms (plus acc (times (f m) (of_u64 m.total_samples)))

  -- `max_by_key(|m| m.total_samples)`: of several maxima the last.
  abbrev pub representative : LatencyMetrics num → List (LatencyMetrics num) → LatencyMetrics num
  representative m [] = m
  representative m (x ∷ xs) =
      representative (if ltb x.total_samples m.total_samples then m else x) xs

  -- The value of the first percentile within 0.1 of `p`.
  abbrev pub find_percentile : F64 → List (PercentileValue num) → Option ℕ
  find_percentile p [] = none
  find_percentile p (v ∷ vs) =
      let rest = find_percentile p vs in
      if below (abs (minus v.percentile p)) (decimal 1 10) then some v.value_ns else rest

  abbrev pub if_samples : ℕ → F64 → F64
  if_samples n x = if ltb 0 n then x else decimal 0 1

  unfoldable pub aggregate_latency_metrics :
      List (LatencyMetrics num) → List F64 → Result Fault (LatencyMetrics num)
  aggregate_latency_metrics [] percentiles = err no_latency_metrics
  aggregate_latency_metrics (m ∷ ms) percentiles =
      let total_samples = sum (map (λ x. x.total_samples) (m ∷ ms)) 0 in
      let values =
        map
          (λ p. record {
            percentile = p;
            value_ns = elim (find_percentile p (representative m ms).percentiles) [
              | some v ↦ v
              | none ↦ 0
            ];
          })
          percentiles in
      ok (record {
        latency_type = m.latency_type;
        min_ns = extreme least (map (λ x. x.min_ns) (m ∷ ms));
        max_ns = extreme greatest (map (λ x. x.max_ns) (m ∷ ms));
        mean_ns =
            if_samples total_samples
              (divide (weighted (λ x. x.mean_ns) (m ∷ ms) (decimal 0 1)) (of_u64 total_samples));
        median_ns = elim (find_percentile (decimal 50 1) values) [
          | some v ↦ of_u64 v
          | none ↦ decimal 0 1
        ];
        std_dev_ns = if_samples total_samples (
            sqrt (
              divide (weighted (λ x. times x.std_dev_ns x.std_dev_ns) (m ∷ ms) (decimal 0 1))
                (of_u64 total_samples)));
        percentiles = values;
        total_samples = total_samples;
        histogram_data = [];
      })

  -- `filter_map(|m| m.latency.as_ref())`
  abbrev pub latencies : List (PerformanceMetrics num) → List (LatencyMetrics num)
  latencies [] = []
  latencies (m ∷ ms) = elim m.latency [ none ↦ latencies ms | some l ↦ l ∷ latencies ms ]

  abbrev pub optional :
      List (LatencyMetrics num) → List F64 → Result Fault (Option (LatencyMetrics num))
  optional [] percentiles = ok none
  optional (l ∷ ls) percentiles = elim (aggregate_latency_metrics (l ∷ ls) percentiles) [
    | ok a ↦ ok (some a)
    | err e ↦ err e
  ]

  unfoldable pub aggregate_worker_metrics :
      ℕ → List (PerformanceMetrics num) → List F64 → Result Fault (PerformanceMetrics num)
  aggregate_worker_metrics utc [] percentiles = err no_metrics
  aggregate_worker_metrics utc (w ∷ ws) percentiles =
      elim (optional (latencies (w ∷ ws)) percentiles) [
        | err e ↦ err e
        | ok latency ↦ ok (record {
          latency = latency;
          throughput = aggregate_throughput_metrics (map (λ x. x.throughput) (w ∷ ws));
          timestamp = utc;
        })
      ]
