-- ===== src/Metrics.antt =====
-- src/metrics.rs: latency and throughput collectors, and the aggregation of the workers' metrics.
-- Floating-point numbers and the HDR histogram are not part of the repository: their operations are
-- parameters. Times are nanoseconds of the clock that the code reads.
pub mod Latency
pub mod Throughput
pub mod Collector
pub mod Aggregate
pub mod Workers
pub mod Totals
pub mod Takes
pub mod Tests
use rusty_comms.Prelude.{
  ℕ, ◌-◌, ◌%◌, ◌^◌, Bool, true, false, Option, none, some, List, [], ◌∷◌, map, min, max, ltb, leb,
  if◌then◌else◌, add_usize, Result, ok, err, ◌>>=◌, best, least, greatest,
}

pub data LatencyType : Type 0 where
  one_way round_trip : LatencyType

pub data Fault : Type 0 where
  histogram_failed no_metrics no_latency_metrics : Fault

-- What the code uses of `f64` and of `Histogram<u64>`. A decimal is a quotient of two integers.
pub record Numeric : Type 1 where
  pub F64 : Type 0
  pub of_u64 : ℕ → F64
  pub decimal : ℕ → ℕ → F64
  pub plus : F64 → F64 → F64
  pub times : F64 → F64 → F64
  pub divide : F64 → F64 → F64
  pub minus : F64 → F64 → F64
  pub sqrt : F64 → F64
  pub abs : F64 → F64
  pub clamp_unit : F64 → F64
  pub below : F64 → F64 → Bool
  pub as_secs_f64 : ℕ → F64
  pub Histogram : Type 0
  pub new_histogram : Option Histogram
  pub record_value : ℕ → Histogram → Option Histogram
  pub reset_histogram : Histogram → Histogram
  pub lowest : Histogram → ℕ
  pub highest : Histogram → ℕ
  pub mean : Histogram → F64
  pub stdev : Histogram → F64
  pub value_at_quantile : F64 → Histogram → ℕ
  pub iter_quantiles : Histogram → List ℕ

-- `match` on the extreme so far: the pick of it and the new value, or the new value.
abbrev pub updated : (ℕ → ℕ → ℕ) → Option ℕ → ℕ → Option ℕ
updated pick (some current) x = some (pick current x)
updated pick none x = some x

module _ (num : Numeric) where
  open num use {
    F64, of_u64, decimal, plus, times, divide, minus, sqrt, abs, clamp_unit, below, as_secs_f64,
    Histogram, new_histogram, record_value, reset_histogram, lowest, highest, mean, stdev,
    value_at_quantile, iter_quantiles,
  }

  pub record PercentileValue : Type 0 where
    pub percentile : F64
    pub value_ns : ℕ

  pub record LatencyMetrics : Type 0 where
    pub latency_type : LatencyType
    pub min_ns : ℕ
    pub max_ns : ℕ
    pub mean_ns : F64
    pub median_ns : F64
    pub std_dev_ns : F64
    pub percentiles : List PercentileValue
    pub total_samples : ℕ
    pub histogram_data : List ℕ

  pub record ThroughputMetrics : Type 0 where
    pub messages_per_second : F64
    pub bytes_per_second : F64
    pub total_messages : ℕ
    pub total_bytes : ℕ
    pub duration_ns : ℕ

  pub record PerformanceMetrics : Type 0 where
    pub latency : Option LatencyMetrics
    pub throughput : ThroughputMetrics
    pub timestamp : ℕ

  pub record LatencyCollector : Type 0 where
    pub histogram : Histogram
    pub latency_type : LatencyType
    pub start_time : ℕ
    pub sample_count : ℕ
    pub observed_min_ns : Option ℕ
    pub observed_max_ns : Option ℕ

  pub record ThroughputCalculator : Type 0 where
    pub start_time : ℕ
    pub message_count : ℕ
    pub byte_count : ℕ

  pub record MetricsCollector : Type 0 where
    pub latency_collector : Option LatencyCollector
    pub throughput_calculator : ThroughputCalculator
    pub percentiles : List F64

  -- `if duration_secs > 0.0 { count / duration_secs } else { 0.0 }`
  abbrev pub rate : ℕ → F64 → F64
  rate count secs = if below (decimal 0 1) secs then divide (of_u64 count) secs else decimal 0 1
