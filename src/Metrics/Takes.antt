-- ===== src/Metrics/Takes.antt =====
-- Collectors over a histogram that takes every value do not fail.
use rusty_comms.Prelude.{
  ℕ, ◌%◌, ◌^◌, ◌≡◌, refl, ap, Option-cases, inl, inr, some, none, List, Result, ok, err,
}
use rusty_comms.Metrics.{Numeric, LatencyType, MetricsCollector, LatencyCollector}
use rusty_comms.Metrics as Metrics
use rusty_comms.Metrics.Collector.{record_message}
use rusty_comms.Metrics.Collector as Collector
use rusty_comms.Metrics.Latency.{record_latency}
use rusty_comms.Metrics.Latency as Latency
use rusty_comms.Metrics.Throughput as Throughput

module _ (num : Numeric) where
  -- A histogram takes every value, and a new one can be made.
  abbrev pub Takes : Type 0
  Takes =
      ((x : ℕ) (h : num.Histogram) → (h' : num.Histogram) × (num.record_value x h ≡ some h'))
      × ((h : num.Histogram) × (num.new_histogram ≡ some h))

  pub record_message-ok :
      Takes
      → (c : MetricsCollector num) (size l : ℕ) → (record_message num c size (some l)).0 ≡ ok tt
  unfolding record_message record_latency
  record_message-ok takes c size l = elim (Option-cases c.latency_collector) [
    | inl e ↦ rw (e) refl
    | inr (lc, e) ↦
        rw (e, (takes.0 (l % 2 ^ 64) lc.histogram).1, record_message, record_latency) refl
  ]

  latency_new-ok :
      Takes
      → (t : LatencyType) (start : ℕ)
      → (c : LatencyCollector num) × (Latency.new num start t ≡ ok c)
  unfolding Latency.new
  latency_new-ok takes t start = (
    _,
    ap
        (λ x. elim x as (λ z. Result Metrics.Fault (LatencyCollector num)) [
          | none ↦ err Metrics.histogram_failed
          | some h ↦ ok (record {
            histogram = h;
            latency_type = t;
            start_time = start;
            sample_count = 0;
            observed_min_ns = none;
            observed_max_ns = none;
          })
        ])
        takes.1.1,
  )

  pub collector_new-ok :
      Takes
      → (t : LatencyType) (start : ℕ) (percentiles : List num.F64)
      → (c : MetricsCollector num) × (Collector.new num start (some t) percentiles ≡ ok c)
  unfolding Collector.new
  collector_new-ok takes t start percentiles = (
    _,
    ap
        (λ x. elim x as (λ z. Result Metrics.Fault (MetricsCollector num)) [
          | err e ↦ err e
          | ok lc ↦ ok (record {
            latency_collector = some lc;
            throughput_calculator = Throughput.new num start;
            percentiles = percentiles;
          })
        ])
        (latency_new-ok takes t start).1,
  )
