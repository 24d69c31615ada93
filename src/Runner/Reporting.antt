-- ===== src/Runner/Reporting.antt =====
-- What the workers of a multi-threaded test report, as counts.
use rusty_comms.Prelude.{
  ℕ, suc, ◌+◌, ◌%◌, ◌^◌, ◌<◌, ◌≡◌, refl, true, false, subst, ◌∙◌, some, none, List, [], ◌∷◌, map,
  length, min, max, ok, arith, add_usize,
}
use rusty_comms.Metrics.{
  Numeric, LatencyType, MetricsCollector, LatencyCollector, LatencyMetrics, PerformanceMetrics,
  updated,
}
use rusty_comms.Metrics.Collector.{new, record_message, get_metrics}
use rusty_comms.Metrics.Latency.{record_latency}
use rusty_comms.Metrics.Latency as Latency
use rusty_comms.Metrics.Throughput as Throughput
use rusty_comms.Metrics.Aggregate.{sum, latencies}
use rusty_comms.Metrics.Takes.{Takes, record_message-ok}
use rusty_comms.Server.Handling.{record_all}
use rusty_comms.Runner.MultiThreaded.{Test, worker_metrics, all_worker_metrics}

pub add_zero : (n : ℕ) → n ≡ n + 0
add_zero n = omega arith

pub zero_add : (n : ℕ) → 0 + n ≡ n
zero_add n = omega arith

pub add_suc : (n m : ℕ) → suc n + m ≡ n + suc m
add_suc n m = omega arith

-- The messages of all tests together.
abbrev pub total : List Test → ℕ
total [] = 0
total (test ∷ tests) = length test.latencies + total tests

module _ (num : Numeric) where
  abbrev pub counted : MetricsCollector num → ℕ
  counted c = c.throughput_calculator.message_count

  -- A collector that has counted `n` messages and as many samples.
  abbrev pub HasCounted : MetricsCollector num → ℕ → Type 0
  HasCounted c n =
      ((lc : LatencyCollector num) × (c.latency_collector ≡ some lc)
        × (lc.sample_count ≡ n % 2 ^ 64))
      × (counted c ≡ n % 2 ^ 64)

  pub HasCounted-record_message :
      Takes num
      → (c : MetricsCollector num) (n size l : ℕ) → HasCounted c n
      → HasCounted (record_message num c size (some l)).1 (suc n)
  unfolding record_message record_latency Throughput.record_message
  HasCounted-record_message takes c n size l ((lc, e, samples), messages) =
      let (h, he) = takes.0 (l % 2 ^ 64) lc.histogram in
      (
        (
          record lc {
            histogram = h;
            sample_count = add_usize lc.sample_count 1;
            observed_min_ns = updated min lc.observed_min_ns (l % 2 ^ 64);
            observed_max_ns = updated max lc.observed_max_ns (l % 2 ^ 64);
          },
          rw (e, he, record_message, record_latency) refl,
          omega (arith, samples),
        ),
        rw (e, he, record_message, record_latency) (omega (arith, messages)),
      )

  pub record_all-HasCounted :
      Takes num
      → (size : ℕ) (c : MetricsCollector num) (n : ℕ) (ls : List ℕ) → HasCounted c n
      → (c' : MetricsCollector num) × (record_all num size c ls ≡ ok c')
        × HasCounted c' (n + length ls)
  record_all-HasCounted takes size c n [] has = (c, refl, subst (HasCounted c) (add_zero n) has)
  record_all-HasCounted takes size c n (l ∷ ls) has =
      let (c', e, has') =
        record_all-HasCounted takes size (record_message num c size (some l)).1 (suc n) ls
          (HasCounted-record_message takes c n size l has) in
      (
        c',
        rw (record_message-ok num takes c size l, record_all) e,
        subst (HasCounted c') (add_suc n (length ls)) has',
      )

  pub new-HasCounted :
      Takes num
      → (t : LatencyType) (start : ℕ) (percentiles : List num.F64)
      → (c : MetricsCollector num) × (new num start (some t) percentiles ≡ ok c) × HasCounted c 0
  unfolding new Latency.new Throughput.new
  new-HasCounted takes t start percentiles =
      let (h, he) = takes.1 in
      (
        record {
          latency_collector = some (record {
            histogram = h;
            latency_type = t;
            start_time = start;
            sample_count = 0;
            observed_min_ns = none;
            observed_max_ns = none;
          });
          throughput_calculator = Throughput.new num start;
          percentiles = percentiles;
        },
        rw (he, new, Latency.new) refl,
        ((_, refl, refl), refl),
      )

  -- What a worker reports for a test of `n` messages.
  abbrev pub Reports : PerformanceMetrics num → ℕ → Type 0
  Reports m n =
      ((l : LatencyMetrics num) × (m.latency ≡ some l) × (l.total_samples ≡ n % 2 ^ 64))
      × (m.throughput.total_messages ≡ n % 2 ^ 64)

  pub get_metrics-Reports :
      (now utc : ℕ) (c : MetricsCollector num) (n : ℕ)
      → HasCounted c n
      → Reports (get_metrics num now utc c) n
  unfolding get_metrics Latency.get_metrics Throughput.get_metrics
  get_metrics-Reports now utc c n ((lc, e, samples), messages) =
      ((Latency.get_metrics num lc c.percentiles, rw (e) refl, samples), messages)

  worker_metrics-Reports :
      Takes num
      → (t : LatencyType) (percentiles : List num.F64) (size : ℕ) (test : Test)
      → (m : PerformanceMetrics num) × (worker_metrics num t percentiles size test ≡ ok m)
        × Reports m (length test.latencies)
  unfolding worker_metrics
  worker_metrics-Reports takes t percentiles size test =
      let (c, made, zero') = new-HasCounted takes t test.start percentiles in
      let (c', run, has) = record_all-HasCounted takes size c 0 test.latencies zero' in
      (
        get_metrics num test.now test.utc c',
        rw (made, run, worker_metrics) refl,
        get_metrics-Reports test.now test.utc c' (length test.latencies)
            (subst (HasCounted c') (zero_add (length test.latencies)) has),
      )

  abbrev pub AllReport : List (PerformanceMetrics num) → List Test → Type 0
  AllReport [] [] = Unit
  AllReport [] (test ∷ tests) = true ≡ false
  AllReport (m ∷ ms) [] = true ≡ false
  AllReport (m ∷ ms) (test ∷ tests) = Reports m (length test.latencies) × AllReport ms tests

  pub all_worker_metrics-AllReport :
      Takes num
      → (t : LatencyType) (percentiles : List num.F64) (size : ℕ) (tests : List Test)
      → (ms : List (PerformanceMetrics num)) × (all_worker_metrics num t percentiles size tests
          ≡ ok ms)
        × AllReport ms tests
  unfolding all_worker_metrics
  all_worker_metrics-AllReport takes t percentiles size [] = ([], refl, tt)
  all_worker_metrics-AllReport takes t percentiles size (test ∷ tests) =
      let (m, e, first) = worker_metrics-Reports takes t percentiles size test in
      let (ms, es, rest) = all_worker_metrics-AllReport takes t percentiles size tests in
      (m ∷ ms, rw (e, es, all_worker_metrics) refl, (first, rest))

  pub sum-latencies :
      (ms : List (PerformanceMetrics num)) (tests : List Test) (acc : ℕ)
      → AllReport ms tests
      → acc < 2 ^ 64
      → sum (map (λ l. l.total_samples) (latencies num ms)) acc ≡ (acc + total tests) % 2 ^ 64
  sum-latencies [] [] acc all small = omega arith
  sum-latencies [] (test ∷ tests) acc all small = absurd (ground arith)
  sum-latencies (m ∷ ms) [] acc all small = absurd (ground arith)
  sum-latencies (m ∷ ms) (test ∷ tests) acc (((l, e, samples), _), all) small = rw (e) (
      sum-latencies ms tests (add_usize acc l.total_samples) all (omega arith)
      ∙ omega (arith, samples))

  pub sum-messages :
      (ms : List (PerformanceMetrics num)) (tests : List Test) (acc : ℕ)
      → AllReport ms tests
      → acc < 2 ^ 64
      → sum (map (λ x. x.total_messages) (map (λ x. x.throughput) ms)) acc
        ≡ (acc + total tests) % 2 ^ 64
  sum-messages [] [] acc all small = omega arith
  sum-messages [] (test ∷ tests) acc all small = absurd (ground arith)
  sum-messages (m ∷ ms) [] acc all small = absurd (ground arith)
  sum-messages (m ∷ ms) (test ∷ tests) acc ((_, messages), all) small =
      sum-messages ms tests (add_usize acc m.throughput.total_messages) all (omega arith)
      ∙ omega (arith, messages)
