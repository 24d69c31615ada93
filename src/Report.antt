-- ===== src/Report.antt =====
-- `BenchmarkResults` of src/results.rs: the record of one mechanism's tests and its summary, which is
-- computed again whenever a test's metrics are added. Floating-point operations are those of `Numeric`.
pub mod Overall
pub mod Ranking
pub mod Summary
pub mod Table
pub mod Choice
pub mod Tests
use rusty_comms.Prelude.{
  ℕ, Bool, Option, none, some, List, [], ◌∷◌, ◌++◌, map, length, min, max, ltb, if◌then◌else◌,
  add_usize,
}
use rusty_comms.Metrics.{Numeric, LatencyMetrics, PercentileValue, PerformanceMetrics, updated}
use rusty_comms.Metrics.Aggregate.{sum, weighted, representative, latencies}
use rusty_comms.Results.Record.{IpcMechanism}

-- A failure carries its text.
pub data BenchmarkStatus : Type 0 where
  success : BenchmarkStatus
  failure : List ℕ → BenchmarkStatus

module _ (num : Numeric) where
  open num use {F64, of_u64, decimal, plus, times, divide, minus, abs, below}

  pub record TestConfiguration : Type 0 where
    pub message_size : ℕ
    pub buffer_size : ℕ
    pub concurrency : ℕ
    pub msg_count : Option ℕ
    pub duration : Option ℕ
    pub one_way_enabled : Bool
    pub round_trip_enabled : Bool
    pub warmup_iterations : ℕ
    pub percentiles : List F64

  pub record BenchmarkSummary : Type 0 where
    pub total_messages_sent : ℕ
    pub total_bytes_transferred : ℕ
    pub average_throughput_megabytes_per_sec : F64
    pub peak_throughput_megabytes_per_sec : F64
    pub average_latency_ns : Option F64
    pub min_latency_ns : Option ℕ
    pub max_latency_ns : Option ℕ
    pub p95_latency_ns : Option ℕ
    pub p99_latency_ns : Option ℕ
    pub error_count : ℕ

  -- Without the description of the host.
  pub record BenchmarkResults : Type 0 where
    pub mechanism : IpcMechanism
    pub status : BenchmarkStatus
    pub test_config : TestConfiguration
    pub one_way_results : Option (PerformanceMetrics num)
    pub round_trip_results : Option (PerformanceMetrics num)
    pub summary : BenchmarkSummary
    pub timestamp : ℕ
    pub test_duration : ℕ

  unfoldable pub default_summary : BenchmarkSummary
  default_summary = record {
    total_messages_sent = 0;
    total_bytes_transferred = 0;
    average_throughput_megabytes_per_sec = decimal 0 1;
    peak_throughput_megabytes_per_sec = decimal 0 1;
    average_latency_ns = none;
    min_latency_ns = none;
    max_latency_ns = none;
    p95_latency_ns = none;
    p99_latency_ns = none;
    error_count = 0;
  }

  -- `utc` is the time of `chrono::Utc::now()`.
  unfoldable pub new :
      ℕ → IpcMechanism → ℕ → ℕ → ℕ → Option ℕ → Option ℕ → ℕ → Bool → Bool → BenchmarkResults
  new utc mechanism message_size buffer_size concurrency msg_count duration warmup_iterations
        one_way round_trip =
      record {
        mechanism = mechanism;
        status = success;
        test_config = record {
          message_size = message_size;
          buffer_size = buffer_size;
          concurrency = concurrency;
          msg_count = msg_count;
          duration = duration;
          one_way_enabled = one_way;
          round_trip_enabled = round_trip;
          warmup_iterations = warmup_iterations;
          percentiles = decimal 50 1 ∷ decimal 95 1 ∷ decimal 99 1 ∷ decimal 999 10 ∷ [];
        };
        one_way_results = none;
        round_trip_results = none;
        summary = default_summary;
        timestamp = utc;
        test_duration = 0;
      }

  unfoldable pub set_failure : List ℕ → BenchmarkResults → BenchmarkResults
  set_failure error_message r = record r { status = failure error_message }

  abbrev pub present : Option (PerformanceMetrics num) → List (PerformanceMetrics num)
  present none = []
  present (some m) = m ∷ []

  -- The metrics that are there: one way first.
  unfoldable pub tests : BenchmarkResults → List (PerformanceMetrics num)
  tests r = present r.one_way_results ++ present r.round_trip_results

  unfoldable pub calculate_weighted_average_latency : BenchmarkResults → Option F64
  calculate_weighted_average_latency r =
      let found = latencies num (tests r) in
      let total_samples = sum (map (λ l. l.total_samples) found) 0 in
      if ltb 0 total_samples
      then some (divide (weighted num (λ l. l.mean_ns) found (decimal 0 1)) (of_u64 total_samples))
      else none

  -- The loop over the percentiles keeps the last one within 0.1.
  unfoldable pub last_percentile : F64 → Option ℕ → List (PercentileValue num) → Option ℕ
  last_percentile p acc [] = acc
  last_percentile p acc (v ∷ vs) =
      last_percentile p
        (if below (abs (minus v.percentile p)) (decimal 1 10) then some v.value_ns else acc) vs

  abbrev pub fold_extreme :
      (ℕ → ℕ → ℕ) → (LatencyMetrics num → ℕ) → Option ℕ → List (LatencyMetrics num) → Option ℕ
  fold_extreme pick f acc [] = acc
  fold_extreme pick f acc (l ∷ ls) = fold_extreme pick f (updated pick acc (f l)) ls

  -- The metrics whose percentiles are taken: the only ones, or those with the most samples.
  abbrev pub percentile_of : F64 → List (LatencyMetrics num) → Option ℕ
  percentile_of p [] = none
  percentile_of p (l ∷ ls) = last_percentile p none (representative num l ls).percentiles

  unfoldable pub extract_latency_stats :
      BenchmarkResults → Option ℕ × Option ℕ × Option ℕ × Option ℕ
  extract_latency_stats r =
      let found = latencies num (tests r) in
      (
        fold_extreme min (λ l. l.min_ns) none found,
        fold_extreme max (λ l. l.max_ns) none found,
        percentile_of (decimal 95 1) found,
        percentile_of (decimal 99 1) found,
      )

  abbrev pub sum_f64 : List F64 → F64 → F64
  sum_f64 [] acc = acc
  sum_f64 (x ∷ xs) acc = sum_f64 xs (plus acc x)

  -- `fold(0.0, f64::max)`
  abbrev pub peak : List F64 → F64 → F64
  peak [] acc = acc
  peak (x ∷ xs) acc = peak xs (if below acc x then x else acc)

  unfoldable pub update_summary : BenchmarkResults → BenchmarkResults
  update_summary r =
      let throughput_values = map (λ m. m.throughput.bytes_per_second) (tests r) in
      let (min_latency_ns, max_latency_ns, p95_latency_ns, p99_latency_ns) =
        extract_latency_stats r in
      record r {
        summary = record {
          total_messages_sent = sum (map (λ m. m.throughput.total_messages) (tests r)) 0;
          total_bytes_transferred = sum (map (λ m. m.throughput.total_bytes) (tests r)) 0;
          average_throughput_megabytes_per_sec =
              divide
                (divide (sum_f64 throughput_values (decimal 0 1))
                  (of_u64 (length throughput_values)))
                (decimal 1_000_000 1);
          peak_throughput_megabytes_per_sec =
              divide (peak throughput_values (decimal 0 1)) (decimal 1_000_000 1);
          average_latency_ns = calculate_weighted_average_latency r;
          min_latency_ns = min_latency_ns;
          max_latency_ns = max_latency_ns;
          p95_latency_ns = p95_latency_ns;
          p99_latency_ns = p99_latency_ns;
          error_count = 0;
        };
      }

  unfoldable pub add_one_way_results : PerformanceMetrics num → BenchmarkResults → BenchmarkResults
  add_one_way_results m r = update_summary (record r { one_way_results = some m })

  unfoldable pub add_round_trip_results :
      PerformanceMetrics num → BenchmarkResults → BenchmarkResults
  add_round_trip_results m r = update_summary (record r { round_trip_results = some m })
