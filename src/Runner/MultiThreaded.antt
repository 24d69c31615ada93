-- ===== src/Runner/MultiThreaded.antt =====
-- `run_multi_threaded_one_way` and `run_multi_threaded_round_trip` of src/benchmark.rs, which have the
-- same body but for the test that each worker runs in its turn.
use rusty_comms.Prelude.{ℕ, zero, suc, none, some, List, [], ◌∷◌, Result, ok, err}
use rusty_comms.Metrics.{Numeric, Fault, LatencyType, MetricsCollector, PerformanceMetrics}
use rusty_comms.Metrics.Collector.{new, record_message, get_metrics}
use rusty_comms.Metrics.Aggregate.{aggregate_worker_metrics}
use rusty_comms.Server.Handling.{record_all}

-- The single-threaded test of a worker: the latencies that it records between the time at which the
-- worker's collector is made and that at which its metrics are taken.
pub record Test : Type 0 where
  pub start : ℕ
  pub now : ℕ
  pub utc : ℕ
  pub latencies : List ℕ

module _ (num : Numeric) where
  abbrev pub Metrics : Type 0
  Metrics = PerformanceMetrics num

  unfoldable pub worker_metrics : LatencyType → List num.F64 → ℕ → Test → Result Fault Metrics
  worker_metrics t percentiles message_size test = elim (new num test.start (some t) percentiles) [
    | err e ↦ err e
    | ok c ↦ elim (record_all num message_size c test.latencies) [
      | err e ↦ err e
      | ok c' ↦ ok (get_metrics num test.now test.utc c')
    ]
  ]

  abbrev pub in_front : Metrics → Result Fault (List Metrics) → Result Fault (List Metrics)
  in_front m (ok ms) = ok (m ∷ ms)
  in_front m (err e) = err e

  unfoldable pub all_worker_metrics :
      LatencyType → List num.F64 → ℕ → List Test → Result Fault (List Metrics)
  all_worker_metrics t percentiles message_size [] = ok []
  all_worker_metrics t percentiles message_size (test ∷ tests) =
      elim (worker_metrics t percentiles message_size test) [
        | err e ↦ err e
        | ok m ↦ in_front m (all_worker_metrics t percentiles message_size tests)
      ]

  -- `n` times `record_message` without a latency.
  unfoldable pub record_times : ℕ → ℕ → MetricsCollector num → Result Fault (MetricsCollector num)
  record_times message_size zero c = ok c
  record_times message_size (suc n) c =
      let (outcome, c') = record_message num c message_size none in
      elim outcome [ err e ↦ err e | ok _ ↦ record_times message_size n c' ]

  abbrev pub record_samples :
      ℕ → Metrics → MetricsCollector num → Result Fault (MetricsCollector num)
  record_samples message_size a c = elim a.latency [
    | none ↦ ok c
    | some latency ↦ record_times message_size latency.total_samples c
  ]

  abbrev pub record_aggregate :
      ℕ → Metrics → MetricsCollector num → Result Fault (MetricsCollector num)
  record_aggregate message_size a c = elim (record_samples message_size a c) [
    | err e ↦ err e
    | ok c' ↦ record_times message_size a.throughput.total_messages c'
  ]

  -- One test for each worker, up to the concurrency; `c` is the main collector.
  unfoldable pub run_multi_threaded :
      LatencyType
      → List num.F64
      → ℕ
      → ℕ
      → List Test
      → MetricsCollector num
      → Result Fault (MetricsCollector num)
  run_multi_threaded t percentiles utc message_size tests c =
      elim (all_worker_metrics t percentiles message_size tests) [
        | err e ↦ err e
        | ok ms ↦ elim (aggregate_worker_metrics num utc ms percentiles) [
          | err e ↦ err e
          | ok a ↦ record_aggregate message_size a c
        ]
      ]
