-- ===== src/Metrics/Collector.antt =====
-- `MetricsCollector` of src/metrics.rs, without the aggregation.
use rusty_comms.Prelude.{ℕ, Option, none, some, List, add_usize, Result, ok, err}
use rusty_comms.Metrics.{Numeric, Fault, LatencyType, PerformanceMetrics, MetricsCollector}
use rusty_comms.Metrics.Latency as Latency
use rusty_comms.Metrics.Throughput as Throughput

module _ (num : Numeric) where
  open num use {F64}

  unfoldable pub new : ℕ → Option LatencyType → List F64 → Result Fault (MetricsCollector num)
  new now none percentiles = ok (record {
    latency_collector = none;
    throughput_calculator = Throughput.new num now;
    percentiles = percentiles;
  })
  new now (some t) percentiles = elim (Latency.new num now t) [
    | err e ↦ err e
    | ok c ↦ ok (record {
      latency_collector = some c;
      throughput_calculator = Throughput.new num now;
      percentiles = percentiles;
    })
  ]

  -- The message is counted before its latency is recorded, which may fail.
  unfoldable pub record_message :
      MetricsCollector num → ℕ → Option ℕ → Result Fault (Unit {0}) × MetricsCollector num
  record_message c message_size latency =
      let counted = record c {
        throughput_calculator = Throughput.record_message num c.throughput_calculator message_size;
      } in
      elim c.latency_collector [
        | none ↦ (ok tt, counted)
        | some collector ↦ elim latency [
          | none ↦ (ok tt, counted)
          | some lat ↦ elim (Latency.record_latency num collector lat) [
            | ok collector' ↦ (ok tt, record counted { latency_collector = some collector' })
            | err e ↦ (err e, counted)
          ]
        ]
      ]

  unfoldable pub get_metrics : ℕ → ℕ → MetricsCollector num → PerformanceMetrics num
  get_metrics now utc c = record {
    latency = elim c.latency_collector [
      | none ↦ none
      | some collector ↦ some (Latency.get_metrics num collector c.percentiles)
    ];
    throughput = Throughput.get_metrics num now c.throughput_calculator;
    timestamp = utc;
  }

  unfoldable pub reset : ℕ → MetricsCollector num → MetricsCollector num
  reset now c = record c {
    latency_collector = elim c.latency_collector [
      | none ↦ none
      | some collector ↦ some (Latency.reset num now collector)
    ];
    throughput_calculator = Throughput.reset num now c.throughput_calculator;
  }

  -- Latencies are not taken over.
  unfoldable pub add_worker_metrics :
      PerformanceMetrics num → MetricsCollector num → MetricsCollector num
  add_worker_metrics worker c = record c {
    throughput_calculator = record c.throughput_calculator {
      message_count =
          add_usize c.throughput_calculator.message_count worker.throughput.total_messages;
      byte_count = add_usize c.throughput_calculator.byte_count worker.throughput.total_bytes;
    };
  }
