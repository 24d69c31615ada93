-- ===== src/Exchanges/Combined.antt =====
-- `run_combined_test` of src/benchmark.rs.
use rusty_comms.Prelude.{
  ℕ, suc, ◌+◌, ◌-◌, ◌≡◌, ◌⊎◌, refl, ap, subst, ◌∙◌, Bool, true, false, some, List, [], ◌∷◌, ◌++◌,
  map, length, All, arith, ltb, if◌then◌else◌, ok, err,
}
use rusty_comms.Ipc.Message.{Message}
use rusty_comms.Metrics.{Numeric, MetricsCollector, PerformanceMetrics, one_way, round_trip}
use rusty_comms.Metrics.Collector.{record_message, get_metrics, new}
use rusty_comms.Metrics.Takes.{Takes, record_message-ok}
use rusty_comms.Results.Record.{MessageLatencyRecord, new_combined}
use rusty_comms.Server.Handling.{record_all}
use rusty_comms.Runner.Reporting.{
  add_zero, zero_add, add_suc, HasCounted, Reports, record_all-HasCounted, new-HasCounted,
  get_metrics-Reports, HasCounted-record_message,
}
use rusty_comms.Exchanges.{
  Turn, is_sent, is_answered, Fault, metrics, Log, only, note, running, crashed, returned, Run,
  request_of, one_way_of, round_trip_of, combined_duration, Subject, with_record, record_combined,
}

-- The times of the test's two collectors: made, and asked for their metrics.
pub record Times : Type 0 where
  pub start : ℕ
  pub now : ℕ
  pub utc : ℕ

module _ (num : Numeric) where
  abbrev pub Tested : Type 0
  Tested = Run Fault ((PerformanceMetrics num × PerformanceMetrics num) × List MessageLatencyRecord)

  abbrev pub finish :
      Times
      → MetricsCollector num
      → List MessageLatencyRecord
      → ℕ
      → List ℕ
      → MetricsCollector num
      → Tested
  finish times c rs size rts c2 = elim (record_all num size c2 rts) [
    | err e ↦ returned (err (metrics e))
    | ok c2' ↦
        returned (
          ok ((get_metrics num times.now times.utc c, get_metrics num times.now times.utc c2'), rs))
  ]

  abbrev pub after_log :
      Times → Subject → MetricsCollector num → MetricsCollector num → Log → Tested
  after_log times s c1 c2 log =
      elim (record_combined num s 0 c1 log.one_way_latencies log.round_trip_latencies) [
        | running ↦ running
        | crashed ↦ crashed
        | returned (err e) ↦ returned (err e)
        | returned (ok (c, rs)) ↦ finish times c rs s.message_size log.round_trip_latencies c2
      ]

  -- `client` is the outcome of the client's loop.
  unfoldable pub run_combined : Times → Subject → List num.F64 → Run Fault Log → Tested
  run_combined times s percentiles client = elim (new num times.start (some one_way) percentiles) [
    | err e ↦ returned (err (metrics e))
    | ok c1 ↦ elim (new num times.start (some round_trip) percentiles) [
      | err e ↦ returned (err (metrics e))
      | ok c2 ↦ elim client [
        | running ↦ running
        | crashed ↦ crashed
        | returned (err e) ↦ returned (err e)
        | returned (ok log) ↦ after_log times s c1 c2 log
      ]
    ]
  ]

-- A turn within the duration whose message is sent and answered, and one that ends the loop.
abbrev pub Completes : ℕ → Turn → Type 0
Completes duration t = (ltb t.elapsed duration ≡ true) × (is_sent t ≡ true) × (is_answered t ≡ true)

abbrev pub Stops : ℕ → Turn → Type 0
Stops duration t =
    (ltb t.elapsed duration ≡ false) ⊎ ((is_sent t ≡ false) ⊎ (is_answered t ≡ false))

-- The requests of the turns, numbered from `i`, and the one that the last turn leaves without an answer.
abbrev pub requests : ℕ → ℕ → List Turn → List Message
requests size i [] = []
requests size i (t ∷ ts) = request_of size i t ∷ requests size (suc i) ts

abbrev pub unanswered : ℕ → ℕ → ℕ → Turn → List Message
unanswered duration size i t =
    if ltb t.elapsed duration then (if is_sent t then request_of size i t ∷ [] else []) else []

-- The records of the turns.
abbrev pub combined_records : Subject → ℕ → List Turn → List MessageLatencyRecord
combined_records s i [] = []
combined_records s i (t ∷ ts) =
    new_combined i s.mechanism s.message_size (t.send_end - t.send_start) (t.finish - t.send_start)
      t.wall
    ∷ combined_records s (suc i) ts

abbrev pub log_of : ℕ → ℕ → ℕ → List Turn → Turn → Log
log_of duration size i ts e = record {
  messages = requests size i ts ++ unanswered duration size (i + length ts) e;
  one_way_latencies = map one_way_of ts;
  round_trip_latencies = map round_trip_of ts;
}

stopped :
    (a b c : Bool) (x : Run Fault Log) (m : Message)
    → (a ≡ false) ⊎ ((b ≡ false) ⊎ (c ≡ false))
    → (if a
        then (if b
            then (if c then x else returned (ok (only (m ∷ []))))
            else returned (ok (only [])))
        else returned (ok (only [])))
      ≡ returned (ok (only (if a then (if b then m ∷ [] else []) else [])))
stopped false b c x m h = refl
stopped true false c x m h = refl
stopped true true false x m h = refl
stopped true true true x m h = absurd (ground arith)

stop_log :
    (duration size i : ℕ) (e : Turn) (rest : List Turn)
    → Stops duration e
    → combined_duration duration size i (e ∷ rest)
      ≡ returned (ok (only (unanswered duration size i e)))
unfolding combined_duration
stop_log duration size i e rest h =
    stopped (ltb e.elapsed duration) (is_sent e) (is_answered e)
      (note (request_of size i e) e (combined_duration duration size (suc i) rest))
      (request_of size i e) h

length-round_trips : (ts : List Turn) → 0 + length (map round_trip_of ts) ≡ length ts
length-round_trips [] = omega arith
length-round_trips (t ∷ ts) = omega (arith, length-round_trips ts)

combined_duration-log :
    (duration size i : ℕ) (ts : List Turn) (e : Turn) (rest : List Turn)
    → All (Completes duration) ts
    → Stops duration e
    → combined_duration duration size i (ts ++ (e ∷ rest))
      ≡ returned (ok (log_of duration size i ts e))
unfolding combined_duration
combined_duration-log duration size i [] e rest h stop =
    stop_log duration size i e rest stop
    ∙ ap (λ k. returned (ok (only (unanswered duration size k e)))) (add_zero i)
combined_duration-log duration size i (t ∷ ts) e rest ((p, q, r), h) stop =
    rw (p, q, r)
      (ap (note (request_of size i t) t)
          (combined_duration-log duration size (suc i) ts e rest h stop)
        ∙ ap
            (λ k. returned (
              ok (record {
                messages =
                    request_of size i t
                    ∷ (requests size (suc i) ts ++ unanswered duration size k e);
                one_way_latencies = one_way_of t ∷ map one_way_of ts;
                round_trip_latencies = round_trip_of t ∷ map round_trip_of ts;
              })))
            (add_suc i (length ts)))

module _ (num : Numeric) where
  record_combined-all :
      Takes num
      → (s : Subject) (i n : ℕ) (c : MetricsCollector num) (ts : List Turn) → HasCounted num c n
      → (c' : MetricsCollector num) × (record_combined num s i c
            (map one_way_of ts)
            (map round_trip_of ts)
          ≡ returned (ok (c', combined_records s i ts)))
        × HasCounted num c' (n + length ts)
  unfolding record_combined
  record_combined-all takes s i n c [] has = (c, refl, subst (HasCounted num c) (add_zero n) has)
  record_combined-all takes s i n c (t ∷ ts) has =
      let l = t.send_end - t.send_start in
      let (c', e, has') =
        record_combined-all takes s (suc i) (suc n) (record_message num c s.message_size (some l)).1
          ts (HasCounted-record_message num takes c n s.message_size l has) in
      (
        c',
        rw (record_message-ok num takes c s.message_size l, record_combined)
            (ap
              (with_record num
                (new_combined i s.mechanism s.message_size l (t.finish - t.send_start) t.wall))
              e),
        subst (HasCounted num c') (add_suc n (length ts)) has',
      )

  after_log-ok :
      (times : Times) (s : Subject) (c1 c2 : MetricsCollector num) (log : Log)
      {c1' c2' : MetricsCollector num} {rs : List MessageLatencyRecord}
      → record_combined num s 0 c1 log.one_way_latencies log.round_trip_latencies
        ≡ returned (ok (c1', rs))
      → record_all num s.message_size c2 log.round_trip_latencies ≡ ok c2'
      → after_log num times s c1 c2 log
        ≡ returned (
            ok (
              (get_metrics num times.now times.utc c1', get_metrics num times.now times.utc c2'),
              rs,
            ))
  after_log-ok times s c1 c2 log e e' = rw (e, after_log) (rw (e', finish) refl)

  -- A combined test that runs for a duration, over a histogram that takes every value: after any number of
  -- completed exchanges and one that ends the loop, by the time or by a failure, the client has sent
  -- requests with gapless ids, and the test succeeds with one record for each completed exchange, in
  -- order, with both of its latencies; both metrics count as many messages and samples.
  pub run_combined-Reports :
      Takes num
      → (times : Times) (s : Subject) (percentiles : List num.F64) (duration : ℕ) (ts : List Turn)
        (e : Turn) (rest : List Turn)
      → All (Completes duration) ts
      → Stops duration e
      → (log : Log) × (m1 : PerformanceMetrics num) × (m2 : PerformanceMetrics num)
        × (combined_duration duration s.message_size 0 (ts ++ (e ∷ rest)) ≡ returned (ok log))
        × (log.messages
            ≡ requests s.message_size 0 ts ++ unanswered duration s.message_size (length ts) e)
        × (run_combined num times s percentiles
              (combined_duration duration s.message_size 0 (ts ++ (e ∷ rest)))
            ≡ returned (ok ((m1, m2), combined_records s 0 ts)))
        × Reports num m1 (length ts)
        × Reports num m2 (length ts)
  unfolding run_combined
  run_combined-Reports takes times s percentiles duration ts e rest h stop =
      let (c1, made1, zero1) = new-HasCounted num takes one_way times.start percentiles in
      let (c2, made2, zero2) = new-HasCounted num takes round_trip times.start percentiles in
      let (c1', r1, has1) = record_combined-all takes s 0 0 c1 ts zero1 in
      let (c2', r2, has2) =
        record_all-HasCounted num takes s.message_size c2 0 (map round_trip_of ts) zero2 in
      let run = combined_duration-log duration s.message_size 0 ts e rest h stop in
      (
        log_of duration s.message_size 0 ts e,
        get_metrics num times.now times.utc c1',
        get_metrics num times.now times.utc c2',
        run,
        ap (λ k. requests s.message_size 0 ts ++ unanswered duration s.message_size k e)
            (zero_add (length ts)),
        rw (made1, made2, run, run_combined)
            (after_log-ok times s c1 c2 (log_of duration s.message_size 0 ts e) r1 r2),
        get_metrics-Reports num times.now times.utc c1' (length ts)
            (subst (HasCounted num c1') (zero_add (length ts)) has1),
        get_metrics-Reports num times.now times.utc c2' (length ts)
            (subst (HasCounted num c2') (length-round_trips ts) has2),
      )
