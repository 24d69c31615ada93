-- ===== src/Standalone/RoundTrips.antt =====
-- What the round-trip workers of a concurrent client record.
use rusty_comms.Prelude.{
  ℕ, zero, suc, ◌≤◌, ◌≡◌, refl, ap, ap₂, ◌∙◌, true, some, List, [], ◌∷◌, ◌++◌, map, length, ok,
}
use rusty_comms.Metrics.{Numeric, MetricsCollector, PerformanceMetrics, round_trip}
use rusty_comms.Metrics.Takes.{Takes, record_message-ok, collector_new-ok}
use rusty_comms.Metrics.Collector.{record_message, get_metrics}
use rusty_comms.Results.Record.{MessageLatencyRecord}
use rusty_comms.Results.Record as Record
use rusty_comms.Runner.{BenchmarkConfig}
use rusty_comms.Runner.Measured.{from}
use rusty_comms.Standalone.Client.{
  worker_msg_count, first_id, Exchange, exchange_loop, Worker, round_trip_worker, join_workers,
}
use rusty_comms.Standalone.Workers.{over, share, shares}

abbrev pub Answered : (ℕ → Exchange) → Type 0
Answered xs = (i : ℕ) → ((xs i).sent ≡ true) × ((xs i).received ≡ true)

-- The records of the exchanges from the index `i` on, the first with the id `id`.
abbrev pub exchange_records :
    BenchmarkConfig → (ℕ → Exchange) → ℕ → ℕ → ℕ → List MessageLatencyRecord
exchange_records config xs zero id i = []
exchange_records config xs (suc n) id i =
    Record.new id config.mechanism config.message_size round_trip (xs i).latency (xs i).send_wall_ns
    ∷ exchange_records config xs n (suc id) (suc i)

abbrev pub worker_records : BenchmarkConfig → ℕ → (ℕ → Exchange) → ℕ → List MessageLatencyRecord
worker_records config c xs w =
    exchange_records config xs (worker_msg_count config.msg_count c w)
      (first_id config.msg_count c w) 0

abbrev pub message_id_of : MessageLatencyRecord → ℕ
message_id_of r = r.message_id

ids-exchange_records :
    (config : BenchmarkConfig) (xs : ℕ → Exchange) (n id i : ℕ)
    → map message_id_of (exchange_records config xs n id i) ≡ from id n
unfolding Record.new
ids-exchange_records config xs zero id i = refl
ids-exchange_records config xs (suc n) id i =
    ap (λ l. id ∷ l) (ids-exchange_records config xs n (suc id) (suc i))

map-append : {A B : Type 0} (f : A → B) (xs ys : List A) → map f (xs ++ ys) ≡ map f xs ++ map f ys
map-append f [] ys = refl
map-append f (x ∷ xs) ys = ap (λ l. f x ∷ l) (map-append f xs ys)

ids-over :
    (config : BenchmarkConfig) (c : ℕ) (xs : ℕ → ℕ → Exchange) (w n : ℕ)
    → map message_id_of (over (λ k. worker_records config c (xs k) k) w n)
      ≡ over (share config.msg_count c) w n
ids-over config c xs w zero = refl
ids-over config c xs w (suc n) =
    map-append message_id_of (worker_records config c (xs w) w) _
    ∙ ap₂ (λ a b. a ++ b) (ids-exchange_records config (xs w) _ _ 0)
        (ids-over config c xs (suc w) n)

module _ (num : Numeric) where
  exchange_loop-ok :
      Takes num
      → (config : BenchmarkConfig) (xs : ℕ → Exchange) (n id i : ℕ) (c : MetricsCollector num)
      → Answered xs
      → (c' : MetricsCollector num) × (exchange_loop num config xs n id i c
          ≡ ok (c', exchange_records config xs n id i))
  unfolding exchange_loop
  exchange_loop-ok takes config xs zero id i c all = (c, refl)
  exchange_loop-ok takes config xs (suc n) id i c all =
      let r = record_message num c config.message_size (some (xs i).latency) in
      let (c', e) = exchange_loop-ok takes config xs n (suc id) (suc i) r.1 all in
      (
        c',
        rw
            (
              (all i).0,
              (all i).1,
              record_message-ok num takes c config.message_size (xs i).latency,
              e,
              exchange_loop,
            )
            refl,
      )

  round_trip_worker-ok :
      Takes num
      → (config : BenchmarkConfig) (concurrency : ℕ) (percentiles : List num.F64)
        (start now utc : ℕ) (xs : ℕ → Exchange) (w : ℕ)
      → Answered xs
      → (m : PerformanceMetrics num) × (round_trip_worker num config concurrency percentiles start
            now utc xs w
          ≡ ok (m, worker_records config concurrency xs w))
  unfolding round_trip_worker
  round_trip_worker-ok takes config concurrency percentiles start now utc xs w all =
      let (c, made) = collector_new-ok num takes round_trip start percentiles in
      let (c', run) =
        exchange_loop-ok takes config xs (worker_msg_count config.msg_count concurrency w)
          (first_id config.msg_count concurrency w) 0 c all in
      (get_metrics num now utc c', rw (made, run, round_trip_worker) refl)

  -- The phase: the workers' times are those of their own clocks.
  abbrev pub phase :
      BenchmarkConfig
      → ℕ
      → List num.F64
      → (start now utc : ℕ → ℕ) → (ℕ → ℕ → Exchange)
      → ℕ
      → Worker num
  phase config concurrency percentiles start now utc xs w =
      round_trip_worker num config concurrency percentiles (start w) (now w) (utc w) (xs w) w

  join-ok :
      (workers : ℕ → Worker num) (records : ℕ → List MessageLatencyRecord)
      → ((w : ℕ) → (m : PerformanceMetrics num) × (workers w ≡ ok (m, records w)))
      → (w n : ℕ)
      → (ms : List (PerformanceMetrics num)) × (join_workers num workers w n
          ≡ ok (ms, over records w n))
        × (length ms ≡ n)
  unfolding join_workers
  join-ok workers records each w zero = ([], refl, refl)
  join-ok workers records each w (suc n) =
      let (m, e) = each w in
      let (ms, es, l) = join-ok workers records each (suc w) n in
      (m ∷ ms, rw (e, es, join_workers) refl, ap suc l)

  -- When every request is answered and the histogram takes every value, the round-trip phase returns
  -- the metrics of all workers and streams one record for each exchange, in the order of the workers,
  -- with its latency and time of sending; the records' ids are 0, 1, … below the message count, each
  -- once.
  pub join_workers-ids :
      Takes num
      → (config : BenchmarkConfig) (concurrency : ℕ) (percentiles : List num.F64)
        (start now utc : ℕ → ℕ) (xs : ℕ → ℕ → Exchange)
      → ((w : ℕ) → Answered (xs w))
      → 1 ≤ concurrency
      → let rs = over (λ w. worker_records config concurrency (xs w) w) 0 concurrency in
        (ms : List (PerformanceMetrics num)) × (join_workers num
            (phase config concurrency percentiles start now utc xs)
            0
            concurrency
          ≡ ok (ms, rs))
        × (length ms ≡ concurrency)
        × (map message_id_of rs ≡ from 0 config.msg_count)
  join_workers-ids takes config c percentiles start now utc xs all h =
      let (ms, e, l) =
        join-ok (phase config c percentiles start now utc xs)
          (λ w. worker_records config c (xs w) w)
          (λ w.
            round_trip_worker-ok takes config c percentiles (start w) (now w) (utc w) (xs w) w
              (all w))
          0 c in
      (ms, e, l, ids-over config c xs 0 c ∙ shares config.msg_count c h)
