-- ===== src/Metrics/Tests.antt =====
-- Collectors over whole numbers and a list for the histogram, and the theorems at concrete inputs.
use rusty_comms.Prelude.{
  ℕ, ◌*◌, ◌/◌, ◌+◌, ◌-◌, ◌≡◌, refl, arith, none, some, List, [], ◌∷◌, ltb, ok, inl, inr,
}
use rusty_comms.Metrics.{Numeric, LatencyCollector, LatencyMetrics, ThroughputMetrics, one_way}
use rusty_comms.Metrics.Latency.{get_metrics}
use rusty_comms.Metrics.Workers.{Measured, Worker, aggregate-Measured}
use rusty_comms.Metrics.Aggregate.{aggregate_latency_metrics}

abbrev head_or_zero : List ℕ → ℕ
head_or_zero [] = 0
head_or_zero (x ∷ xs) = x

abbrev pub whole : Numeric
whole = record {
  F64 = ℕ;
  of_u64 = λ n. n;
  decimal = λ n d. n / d;
  plus = λ a b. a + b;
  times = λ a b. a * b;
  divide = λ a b. a / b;
  minus = λ a b. a - b;
  sqrt = λ a. a;
  abs = λ a. a;
  clamp_unit = λ a. a;
  below = ltb;
  as_secs_f64 = λ ns. ns / 1_000_000_000;
  Histogram = List ℕ;
  new_histogram = some [];
  record_value = λ x h. some (x ∷ h);
  reset_histogram = λ h. [];
  lowest = head_or_zero;
  highest = head_or_zero;
  mean = head_or_zero;
  stdev = head_or_zero;
  value_at_quantile = λ q h. head_or_zero h;
  iter_quantiles = λ h. h;
}

-- A collector that has recorded 30, 10 and 20 nanoseconds.
abbrev three : LatencyCollector whole
three = record {
  histogram = 20 ∷ 10 ∷ 30 ∷ [];
  latency_type = one_way;
  start_time = 0;
  sample_count = 3;
  observed_min_ns = some 10;
  observed_max_ns = some 30;
}

abbrev empty : LatencyCollector whole
empty = record {
  histogram = [];
  latency_type = one_way;
  start_time = 0;
  sample_count = 0;
  observed_min_ns = none;
  observed_max_ns = none;
}

worker-Measured : Measured whole (get_metrics whole three []) (30 ∷ 10 ∷ 20 ∷ [])
unfolding get_metrics
worker-Measured = ((omega arith, inr (inl refl)), (omega arith, inl refl), omega arith)

abbrev worker : Worker whole
worker = (get_metrics whole three [], 30 ∷ 10 ∷ 20 ∷ [])

aggregate-Measured_example :
    (a : LatencyMetrics whole) × (aggregate_latency_metrics whole (worker.0 ∷ worker.0 ∷ []) []
      ≡ ok a)
    × Measured whole a (30 ∷ 10 ∷ 20 ∷ 30 ∷ 10 ∷ 20 ∷ [])
aggregate-Measured_example =
    aggregate-Measured whole worker (worker ∷ []) [] (worker-Measured, (worker-Measured, tt))

abbrev counted : ℕ → ThroughputMetrics whole
counted d = record {
  messages_per_second = 0;
  bytes_per_second = 0;
  total_messages = 2;
  total_bytes = 192;
  duration_ns = d;
}
