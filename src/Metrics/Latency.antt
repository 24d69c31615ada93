-- ===== src/Metrics/Latency.antt =====
-- `LatencyCollector` of src/metrics.rs.
use rusty_comms.Prelude.{ℕ, ◌%◌, ◌^◌, none, some, List, map, min, max, add_usize, Result, ok, err}
use rusty_comms.Metrics.{
  Numeric, Fault, histogram_failed, LatencyType, LatencyMetrics, LatencyCollector, updated,
}

module _ (num : Numeric) where
  open num use {
    F64, of_u64, decimal, divide, clamp_unit, as_secs_f64, new_histogram, record_value,
    reset_histogram, lowest, highest, mean, stdev, value_at_quantile, iter_quantiles,
  }

  unfoldable pub new : ℕ → LatencyType → Result Fault (LatencyCollector num)
  new now t = elim new_histogram [
    | none ↦ err histogram_failed
    | some h ↦ ok (record {
      histogram = h;
      latency_type = t;
      start_time = now;
      sample_count = 0;
      observed_min_ns = none;
      observed_max_ns = none;
    })
  ]

  -- `latency` in nanoseconds; `as u64` keeps the low 64 bits.
  unfoldable pub record_latency : LatencyCollector num → ℕ → Result Fault (LatencyCollector num)
  record_latency c latency =
      let latency_ns = latency % 2 ^ 64 in
      elim (record_value latency_ns c.histogram) [
        | none ↦ err histogram_failed
        | some h ↦ ok (record c {
          histogram = h;
          sample_count = add_usize c.sample_count 1;
          observed_min_ns = updated min c.observed_min_ns latency_ns;
          observed_max_ns = updated max c.observed_max_ns latency_ns;
        })
      ]

  unfoldable pub get_metrics : LatencyCollector num → List F64 → LatencyMetrics num
  get_metrics c percentiles = record {
    latency_type = c.latency_type;
    min_ns = elim c.observed_min_ns [ some x ↦ x | none ↦ lowest c.histogram ];
    max_ns = elim c.observed_max_ns [ some x ↦ x | none ↦ highest c.histogram ];
    mean_ns = mean c.histogram;
    median_ns = of_u64 (value_at_quantile (decimal 50 100) c.histogram);
    std_dev_ns = stdev c.histogram;
    percentiles =
        map
          (λ p. record {
            percentile = p;
            value_ns = value_at_quantile (clamp_unit (divide p (decimal 100 1))) c.histogram;
          })
          percentiles;
    total_samples = c.sample_count;
    histogram_data = iter_quantiles c.histogram;
  }

  unfoldable pub reset : ℕ → LatencyCollector num → LatencyCollector num
  reset now c = record c {
    histogram = reset_histogram c.histogram;
    sample_count = 0;
    start_time = now;
    observed_min_ns = none;
    observed_max_ns = none;
  }
