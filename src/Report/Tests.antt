-- ===== src/Report/Tests.antt =====
-- The theorems on reports at concrete inputs.
use rusty_comms.Prelude.{
  ℕ, ◌≡◌, ◌≢◌, ◌⊎◌, refl, arith, true, none, some, Option, List, [], ◌∷◌, All, ltb, inl, inr, least,
  greatest, length, ◌%◌, ◌^◌, if◌then◌else◌, ◌==◌,
}
use rusty_comms.Metrics.{LatencyMetrics, PerformanceMetrics, one_way, round_trip}
use rusty_comms.Metrics.Tests.{whole}
use rusty_comms.Metrics.Totals.{total}
use rusty_comms.Results.Record.{IpcMechanism, tcp_socket, shared_memory, posix_message_queue, name}
use rusty_comms.Report.{BenchmarkResults, new, tests, update_summary, success, default_summary}
use rusty_comms.Report.Summary.{Extreme, Test, all_logs, all_sizes, update_summary-Describes}
use rusty_comms.Report.Ranking.{Ordering, less, equal, greater, at_most, Order, IsLastMax}
use rusty_comms.Report.Overall.{
  OverallSummary, throughput, with_latency, lookup, collect_mechanisms, mechanism_summary,
  calculate_overall_summary,
}
use rusty_comms.Report.Table.{collect-last}
use rusty_comms.Report.Choice.{Lowest, calculate_overall_summary-Ranks}

-- Latencies from 10 to 30 nanoseconds, of three messages of 8 bytes, and from 25 to 60, of two.
abbrev pub one_way_part : LatencyMetrics whole
one_way_part = record {
  latency_type = one_way;
  min_ns = 10;
  max_ns = 30;
  mean_ns = 20;
  median_ns = 20;
  std_dev_ns = 0;
  percentiles = record { percentile = 95; value_ns = 30 } ∷ [];
  total_samples = 3;
  histogram_data = [];
}

abbrev pub one_way_metrics : PerformanceMetrics whole
one_way_metrics = record {
  latency = some one_way_part;
  throughput = record {
    messages_per_second = 3;
    bytes_per_second = 24;
    total_messages = 3;
    total_bytes = 24;
    duration_ns = 1_000_000_000;
  };
  timestamp = 7;
}

abbrev pub round_trip_metrics : PerformanceMetrics whole
round_trip_metrics = record {
  latency = some (record one_way_part {
    latency_type = round_trip;
    min_ns = 25;
    max_ns = 60;
    total_samples = 2;
  });
  throughput = record {
    messages_per_second = 2;
    bytes_per_second = 16;
    total_messages = 2;
    total_bytes = 16;
    duration_ns = 1_000_000_000;
  };
  timestamp = 8;
}

abbrev empty : IpcMechanism → BenchmarkResults whole
empty mechanism = record {
  mechanism = mechanism;
  status = success;
  test_config = record {
    message_size = 8;
    buffer_size = 65536;
    concurrency = 1;
    msg_count = some 3;
    duration = none;
    one_way_enabled = true;
    round_trip_enabled = true;
    warmup_iterations = 0;
    percentiles = 50 ∷ 95 ∷ 99 ∷ 99 ∷ [];
  };
  one_way_results = none;
  round_trip_results = none;
  summary = record {
    total_messages_sent = 0;
    total_bytes_transferred = 0;
    average_throughput_megabytes_per_sec = 0;
    peak_throughput_megabytes_per_sec = 0;
    average_latency_ns = none;
    min_latency_ns = none;
    max_latency_ns = none;
    p95_latency_ns = none;
    p99_latency_ns = none;
    error_count = 0;
  };
  timestamp = 9;
  test_duration = 0;
}

fresh : new whole 9 tcp_socket 8 65536 1 (some 3) none 0 true true ≡ empty tcp_socket
unfolding new default_summary
fresh = refl

abbrev filled : BenchmarkResults whole
filled = record (empty tcp_socket) {
  one_way_results = some one_way_metrics;
  round_trip_results = some round_trip_metrics;
}

abbrev logs : List (Test whole)
logs =
    (one_way_metrics, (30 ∷ 10 ∷ 20 ∷ [], 8 ∷ 8 ∷ 8 ∷ []))
    ∷ (round_trip_metrics, (60 ∷ 25 ∷ [], 8 ∷ 8 ∷ []))
    ∷ []

update_summary-Describes_example :
    ((update_summary whole filled).summary.total_messages_sent
      ≡ length (all_sizes whole logs) % 2 ^ 64)
    × ((update_summary whole filled).summary.total_bytes_transferred
        ≡ total (all_sizes whole logs) % 2 ^ 64)
    × Extreme least (update_summary whole filled).summary.min_latency_ns (all_logs whole logs)
    × Extreme greatest (update_summary whole filled).summary.max_latency_ns (all_logs whole logs)
unfolding tests
update_summary-Describes_example = update_summary-Describes whole filled logs refl (
  (
    ((omega arith, inr (inl refl)), (omega arith, inl refl), omega arith),
    (omega arith, omega arith),
  ),
  (
    (
      ((omega arith, inr (inl refl)), (omega arith, inl refl), omega arith),
      (omega arith, omega arith),
    ),
    tt,
  ),
)

abbrev compare : ℕ → ℕ → Option Ordering
compare a b = if ltb a b then some less else if a == b then some equal else some greater

compare-total : (a b : ℕ) → (at_most (compare a b) ≡ true) ⊎ (compare a b ≡ some greater)
compare-total a b = ground arith

compare-flip : (a b : ℕ) → compare a b ≡ some greater → at_most (compare b a) ≡ true
compare-flip a b h = ground arith

compare_trans :
    (a b c : ℕ)
    → at_most (compare a b) ≡ true
    → at_most (compare b c) ≡ true
    → at_most (compare a c) ≡ true
compare_trans a b c h k = ground arith

compare-greater :
    (a b c : ℕ)
    → at_most (compare a b) ≡ true
    → compare a c ≡ some greater
    → compare b c ≡ some greater
compare-greater a b c h k = ground arith

natural : Order ℕ
natural = record {
  partial_cmp = compare;
  Number = λ _. Unit;
  total = λ a b _ _. compare-total a b;
  flip = compare-flip;
  at_most_trans = compare_trans;
  at_most_greater = compare-greater;
}

-- Three results, of which the last two have the same throughput, and the outer two the same latency.
abbrev measured : IpcMechanism → ℕ → Option ℕ → BenchmarkResults whole
measured mechanism throughput latency = record (empty mechanism) {
  summary = record (empty mechanism).summary {
    average_throughput_megabytes_per_sec = throughput;
    average_latency_ns = latency;
  };
}

abbrev first : BenchmarkResults whole
first = measured tcp_socket 5 (some 40)

abbrev second : BenchmarkResults whole
second = measured shared_memory 9 none

abbrev third : BenchmarkResults whole
third = measured tcp_socket 9 (some 40)

collect-last_example :
    (lookup whole compare
        (name tcp_socket)
        (collect_mechanisms whole compare [] (first ∷ second ∷ third ∷ []))
      ≡ some (mechanism_summary whole compare third))
    × (All (λ x. x.mechanism ≢ posix_message_queue) (first ∷ second ∷ third ∷ [])
        → lookup whole compare
            (name posix_message_queue)
            (collect_mechanisms whole compare [] (first ∷ second ∷ third ∷ []))
          ≡ none)
collect-last_example =
    collect-last whole compare (first ∷ second ∷ []) [] third posix_message_queue tt

calculate_overall_summary-Ranks_example :
    (s : OverallSummary whole compare) × (b : BenchmarkResults whole) × (calculate_overall_summary
        whole compare
        (first ∷ second ∷ third ∷ [])
      ≡ some s)
    × (s.fastest_mechanism ≡ some (name b.mechanism))
    × IsLastMax natural (throughput whole compare) b (first ∷ second ∷ third ∷ [])
    × Lowest whole natural s.lowest_latency_mechanism
        (with_latency whole compare (first ∷ second ∷ third ∷ []))
unfolding natural
calculate_overall_summary-Ranks_example =
    calculate_overall_summary-Ranks whole natural first (second ∷ third ∷ [])
      ((tt, tt), ((tt, tt), ((tt, tt), tt)))
