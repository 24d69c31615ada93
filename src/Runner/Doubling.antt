-- ===== src/Runner/Doubling.antt =====
-- How many messages a multi-threaded test reports.
use rusty_comms.Prelude.{
  ℕ, zero, suc, ◌+◌, ◌*◌, ◌%◌, ◌^◌, ◌<◌, ◌≡◌, refl, ap, Option-cases, inl, inr, ◌∙◌, some, none,
  List, [], ◌∷◌, map, Result, ok, err, arith, add_usize,
}
use rusty_comms.Metrics.{
  Numeric, Fault, LatencyType, MetricsCollector, LatencyMetrics, PerformanceMetrics,
}
use rusty_comms.Metrics.Collector.{record_message}
use rusty_comms.Metrics.Throughput as Throughput
use rusty_comms.Metrics.Aggregate.{
  sum, latencies, aggregate_worker_metrics, aggregate_latency_metrics, aggregate_throughput_metrics,
}
use rusty_comms.Metrics.Takes.{Takes}
use rusty_comms.Runner.MultiThreaded.{
  Test, all_worker_metrics, record_times, record_aggregate, run_multi_threaded,
}
use rusty_comms.Runner.Reporting.{
  counted, Reports, AllReport, all_worker_metrics-AllReport, total, sum-latencies, sum-messages,
}

module _ (num : Numeric) where
  aggregate_latency_metrics-total :
      (l : LatencyMetrics num) (ls : List (LatencyMetrics num)) (percentiles : List num.F64)
      → (a : LatencyMetrics num) × (aggregate_latency_metrics num (l ∷ ls) percentiles ≡ ok a)
        × (a.total_samples ≡ sum (map (λ x. x.total_samples) (l ∷ ls)) 0)
  unfolding aggregate_latency_metrics
  aggregate_latency_metrics-total l ls percentiles = (_, refl, refl)

  aggregate-Reports :
      (utc : ℕ) (percentiles : List num.F64) (m : PerformanceMetrics num)
      (ms : List (PerformanceMetrics num)) (test : Test) (tests : List Test)
      → AllReport num (m ∷ ms) (test ∷ tests)
      → (a : PerformanceMetrics num) × (aggregate_worker_metrics num utc (m ∷ ms) percentiles
          ≡ ok a)
        × Reports num a (total (test ∷ tests))
  unfolding aggregate_worker_metrics aggregate_throughput_metrics
  aggregate-Reports utc percentiles m ms test tests (((l, e, samples), messages), all) =
      let (al, eal, samples') = aggregate_latency_metrics-total l (latencies num ms) percentiles in
      (
        record {
          latency = some al;
          throughput = aggregate_throughput_metrics num (map (λ x. x.throughput) (m ∷ ms));
          timestamp = utc;
        },
        rw (e, eal, aggregate_worker_metrics) refl,
        (
          (
            al,
            refl,
            samples'
                ∙ sum-latencies num ms tests (add_usize 0 l.total_samples) all (omega arith)
                ∙ omega (arith, samples),
          ),
          sum-messages num ms tests (add_usize 0 m.throughput.total_messages) all (omega arith)
              ∙ omega (arith, messages),
        ),
      )

  -- The collector after `n` more messages without a latency.
  abbrev More : MetricsCollector num → ℕ → MetricsCollector num → Type 0
  More c n c' =
      (c'.latency_collector ≡ c.latency_collector) × (counted num c' ≡ (counted num c + n) % 2 ^ 64)

  -- `record_message` without a latency.
  abbrev silent : MetricsCollector num → ℕ → MetricsCollector num
  silent c size = record c {
    throughput_calculator = Throughput.record_message num c.throughput_calculator size;
  }

  record_message-none :
      (c : MetricsCollector num) (size : ℕ)
      → record_message num c size none ≡ (ok tt, silent c size)
  unfolding record_message
  record_message-none c size = elim (Option-cases c.latency_collector) [
    | inl e ↦ rw (e) refl
    | inr (lc, e) ↦ rw (e) refl
  ]

  record_times-step :
      (size n : ℕ) (c : MetricsCollector num)
      → record_times num size (suc n) c ≡ record_times num size n (silent c size)
  unfolding record_times
  record_times-step size n c =
      ap
        (λ (p : Result Fault (Unit {0}) × MetricsCollector num).
          elim p.0 as (λ z. Result Fault (MetricsCollector num)) [
            | err e ↦ err e
            | ok _ ↦ record_times num size n p.1
          ])
        (record_message-none c size)

  record_times-More :
      (size n : ℕ) (c : MetricsCollector num)
      → counted num c < 2 ^ 64
      → (c' : MetricsCollector num) × (record_times num size n c ≡ ok c') × More c n c'
  unfolding Throughput.record_message
  record_times-More size zero c small = (c, (unfold record_times in refl), (refl, omega arith))
  record_times-More size (suc n) c small =
      let (c', run, (same, count)) = record_times-More size n (silent c size) (omega arith) in
      (c', record_times-step size n c ∙ run, (same, count ∙ omega arith))

  record_aggregate-step :
      (size : ℕ) (a : PerformanceMetrics num) (l : LatencyMetrics num) (c c' : MetricsCollector num)
      → a.latency ≡ some l
      → record_times num size l.total_samples c ≡ ok c'
      → record_aggregate num size a c ≡ record_times num size a.throughput.total_messages c'
  record_aggregate-step size a l c c' e run =
      ap
        (λ r. elim r as (λ z. Result Fault (MetricsCollector num)) [
          | err f ↦ err f
          | ok d ↦ record_times num size a.throughput.total_messages d
        ])
        (ap
            (λ o. elim o as (λ z. Result Fault (MetricsCollector num)) [
              | none ↦ ok c
              | some latency ↦ record_times num size latency.total_samples c
            ])
            e
          ∙ run)

  record_aggregate-More :
      (size n : ℕ) (a : PerformanceMetrics num) (c : MetricsCollector num)
      → counted num c < 2 ^ 64
      → Reports num a n
      → (c' : MetricsCollector num) × (record_aggregate num size a c ≡ ok c') × More c (2 * n) c'
  record_aggregate-More size n a c small ((l, e, samples), messages) =
      let (c1, run1, (same1, count1)) = record_times-More size l.total_samples c small in
      let (c2, run2, (same2, count2)) =
        record_times-More size a.throughput.total_messages c1 (omega (arith, count1)) in
      (
        c2,
        record_aggregate-step size a l c c1 e run1 ∙ run2,
        (same2 ∙ same1, count2 ∙ omega (arith, count1, samples, messages)),
      )

  abbrev Doubled : Result Fault (MetricsCollector num) → List Test → MetricsCollector num → Type 0
  Doubled r tests c = (c' : MetricsCollector num) × (r ≡ ok c') × More c (2 * total tests) c'

  run-Doubled :
      (ms : List (PerformanceMetrics num)) (t : LatencyType) (percentiles : List num.F64)
      (utc size : ℕ) (test : Test) (tests : List Test) (c : MetricsCollector num)
      → all_worker_metrics num t percentiles size (test ∷ tests) ≡ ok ms
      → AllReport num ms (test ∷ tests)
      → counted num c < 2 ^ 64
      → Doubled (run_multi_threaded num t percentiles utc size (test ∷ tests) c) (test ∷ tests) c
  unfolding run_multi_threaded
  run-Doubled [] t percentiles utc size test tests c gathered all small = absurd (ground arith)
  run-Doubled (m ∷ ms) t percentiles utc size test tests c gathered all small =
      let (a, aggregated, reports) = aggregate-Reports utc percentiles m ms test tests all in
      let (c', run, more) = record_aggregate-More size (total (test ∷ tests)) a c small reports in
      (c', rw (gathered, aggregated, run_multi_threaded) run, more)

  -- When the histogram takes every value, a multi-threaded test succeeds, and its main collector has
  -- then counted twice as many messages as the workers' tests had, and has recorded none of their
  -- latencies.
  pub run_multi_threaded-total :
      Takes num
      → (t : LatencyType) (percentiles : List num.F64) (utc size : ℕ) (test : Test)
        (tests : List Test) (c : MetricsCollector num)
      → c.throughput_calculator.message_count < 2 ^ 64
      → (c' : MetricsCollector num) × (run_multi_threaded num t percentiles utc size
            (test ∷ tests)
            c
          ≡ ok c')
        × (c'.latency_collector ≡ c.latency_collector)
        × (c'.throughput_calculator.message_count
            ≡ (c.throughput_calculator.message_count + 2 * total (test ∷ tests)) % 2 ^ 64)
  run_multi_threaded-total takes t percentiles utc size test tests c small =
      let (ms, gathered, reports) =
        all_worker_metrics-AllReport num takes t percentiles size (test ∷ tests) in
      let (c', run, (same, count)) =
        run-Doubled ms t percentiles utc size test tests c gathered reports small in
      (c', run, same, count)
