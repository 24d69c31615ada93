-- ===== src/Exchanges.antt =====
-- The clients of the tests that wait for responses: `run_combined_test` and
-- `run_single_threaded_round_trip` of src/benchmark.rs, and `run_single_threaded_round_trip` of
-- src/benchmark_blocking.rs. What an iteration finds, with the clocks that it reads, is a `Turn`; a loop
-- that ends by the clock is still running when the turns run out.
pub mod Combined
pub mod Timed
pub mod Answered
mod Tests
pub use rusty_comms.Prelude.{Run, running, crashed, returned}
use rusty_comms.Prelude.{
  ℕ, zero, suc, ◌-◌, Bool, true, false, List, [], ◌∷◌, ◌++◌, map, replicate, ltb, if◌then◌else◌,
  some, Result, ok, err,
}
use rusty_comms.Ipc.Message.{Message, request, shutdown}
use rusty_comms.Ipc.Message as Message
use rusty_comms.Metrics.{Numeric, MetricsCollector, PerformanceMetrics, one_way, round_trip}
use rusty_comms.Metrics as Metrics
use rusty_comms.Metrics.Collector.{record_message, get_metrics}
use rusty_comms.Metrics.Collector as Collector
use rusty_comms.Results.Record.{IpcMechanism, MessageLatencyRecord, new_combined}
use rusty_comms.Results.Record as Record
use rusty_comms.Server.{canary_id}
use rusty_comms.Server.Handling.{record_all}

-- How a send and a receive end; a call under a time-out may also be overdue.
pub data Delivery : Type 0 where
  sent refused late : Delivery

pub data Reply : Type 0 where
  answered failed overdue : Reply

-- `elapsed` is the time since the start that the loop compares, `wall` the wall clock's reading and
-- `made` that of the message's clock. The latencies are read from one monotonic clock.
pub record Turn : Type 0 where
  pub elapsed : ℕ
  pub wall : ℕ
  pub made : ℕ
  pub send_start : ℕ
  pub delivery : Delivery
  pub send_end : ℕ
  pub reply : Reply
  pub finish : ℕ

abbrev pub is_sent : Turn → Bool
is_sent t = elim t.delivery [ sent ↦ true | _ ↦ false ]

abbrev pub is_answered : Turn → Bool
is_answered t = elim t.reply [ answered ↦ true | _ ↦ false ]

abbrev pub is_overdue : Turn → Bool
is_overdue t = elim t.reply [ overdue ↦ true | _ ↦ false ]

pub data Fault : Type 0 where
  send_failed receive_failed : Fault
  metrics : Metrics.Fault → Fault

abbrev pub request_of : ℕ → ℕ → Turn → Message
request_of message_size i t = Message.new t.made i (replicate message_size 0) request

-- `(send_start.elapsed(), wall_ts)` after the send, and `send_start.elapsed()` after the receive.
abbrev pub one_way_of : Turn → ℕ × ℕ
one_way_of t = (t.send_end - t.send_start, t.wall)

abbrev pub round_trip_of : Turn → ℕ
round_trip_of t = t.finish - t.send_start

-- What the client of a combined test has sent, and its two vectors.
pub record Log : Type 0 where
  pub messages : List Message
  pub one_way_latencies : List (ℕ × ℕ)
  pub round_trip_latencies : List ℕ

abbrev pub only : List Message → Log
only ms = record { messages = ms; one_way_latencies = []; round_trip_latencies = [] }

abbrev pub note : Message → Turn → Run Fault Log → Run Fault Log
note m t running = running
note m t crashed = crashed
note m t (returned (err e)) = returned (err e)
note m t (returned (ok log)) = returned (
    ok (record {
      messages = m ∷ log.messages;
      one_way_latencies = one_way_of t ∷ log.one_way_latencies;
      round_trip_latencies = round_trip_of t ∷ log.round_trip_latencies;
    }))

-- The loop of a combined test for a duration, from the message `i`.
unfoldable pub combined_duration : ℕ → ℕ → ℕ → List Turn → Run Fault Log
combined_duration duration message_size i [] = running
combined_duration duration message_size i (t ∷ ts) =
    let rest = combined_duration duration message_size (suc i) ts in
    let m = request_of message_size i t in
    if ltb t.elapsed duration
    then (if is_sent t
        then (if is_answered t then note m t rest else returned (ok (only (m ∷ []))))
        else returned (ok (only [])))
    else returned (ok (only []))

-- `for i in 0..msg_count`: `n` messages from `i`.
unfoldable pub combined_count : ℕ → ℕ → ℕ → List Turn → Run Fault Log
combined_count message_size i zero ts = returned (ok (only []))
combined_count message_size i (suc n) [] = running
combined_count message_size i (suc n) (t ∷ ts) =
    let rest = combined_count message_size (suc i) n ts in
    if is_sent t
    then (if is_answered t
        then note (request_of message_size i t) t rest
        else returned (err receive_failed))
    else returned (err send_failed)

-- What the client of an asynchronous round-trip test has sent, and its latencies with the wall clock.
abbrev pub Entries : Type 0
Entries = List Message × List (ℕ × ℕ)

abbrev pub entry_of : Turn → ℕ × ℕ
entry_of t = (t.finish - t.send_start, t.wall)

abbrev pub with_message : Message → Run Fault Entries → Run Fault Entries
with_message m running = running
with_message m crashed = crashed
with_message m (returned (err e)) = returned (err e)
with_message m (returned (ok (ms, es))) = returned (ok (m ∷ ms, es))

abbrev pub with_entry : ℕ × ℕ → Run Fault Entries → Run Fault Entries
with_entry e running = running
with_entry e crashed = crashed
with_entry e (returned (err f)) = returned (err f)
with_entry e (returned (ok (ms, es))) = returned (ok (ms, e ∷ es))

-- The loop of an asynchronous round-trip test for a duration. The time-out's result is `Ok` for every
-- receive that ends in time, whatever its own result is.
unfoldable pub round_trip_duration : ℕ → ℕ → ℕ → List Turn → Run Fault Entries
round_trip_duration duration message_size i [] = running
round_trip_duration duration message_size i (t ∷ ts) =
    let next = round_trip_duration duration message_size (suc i) ts in
    let again = round_trip_duration duration message_size i ts in
    if ltb t.elapsed duration
    then (if is_sent t
        then with_message (request_of message_size i t)
            (if is_overdue t then next else with_entry (entry_of t) next)
        else again)
    else returned (ok ([], []))

-- `for i in 0..iterations`; the latency of the first message is dropped unless it is included.
unfoldable pub round_trip_count : Bool → ℕ → ℕ → ℕ → List Turn → Run Fault Entries
round_trip_count include_first message_size i zero ts = returned (ok ([], []))
round_trip_count include_first message_size i (suc n) [] = running
round_trip_count include_first message_size i (suc n) (t ∷ ts) =
    let rest = round_trip_count include_first message_size (suc i) n ts in
    if is_sent t
    then (if is_answered t
        then with_message (request_of message_size i t) (
            if ltb 0 i
            then with_entry (entry_of t) rest
            else if include_first
            then with_entry (entry_of t) rest
            else rest)
        else returned (err receive_failed))
    else returned (err send_failed)

unfoldable pub iterations : Bool → ℕ → ℕ
iterations include_first msg_count = if include_first then msg_count else suc msg_count

-- The mechanism and the message size of the test.
pub record Subject : Type 0 where
  pub mechanism : IpcMechanism
  pub message_size : ℕ

module _ (num : Numeric) where
  abbrev pub Recorded : Type 0
  Recorded = Run Fault (MetricsCollector num × List MessageLatencyRecord)

  abbrev pub with_record : MessageLatencyRecord → Recorded → Recorded
  with_record r running = running
  with_record r crashed = crashed
  with_record r (returned (err e)) = returned (err e)
  with_record r (returned (ok (c, rs))) = returned (ok (c, r ∷ rs))

  -- The loop over the one-way latencies of a combined test: `rts` is what is left of the other vector,
  -- which is read at the same index.
  unfoldable pub record_combined :
      Subject → ℕ → MetricsCollector num → List (ℕ × ℕ) → List ℕ → Recorded
  record_combined s i c [] rts = returned (ok (c, []))
  record_combined s i c ((one_way_latency, wall_ts) ∷ xs) rts =
      let (outcome, c') = record_message num c s.message_size (some one_way_latency) in
      elim outcome [
        | err e ↦ returned (err (metrics e))
        | ok _ ↦ elim rts [
          | [] ↦ crashed
          | rt ∷ rest ↦
              with_record (new_combined i s.mechanism s.message_size one_way_latency rt wall_ts)
                (record_combined s (suc i) c' xs rest)
        ]
      ]

  -- The loop over the latencies of a round-trip test.
  unfoldable pub record_round_trips : Subject → ℕ → MetricsCollector num → List (ℕ × ℕ) → Recorded
  record_round_trips s i c [] = returned (ok (c, []))
  record_round_trips s i c ((latency, wall_ts) ∷ xs) =
      let (outcome, c') = record_message num c s.message_size (some latency) in
      elim outcome [
        | err e ↦ returned (err (metrics e))
        | ok _ ↦
            with_record (Record.new i s.mechanism s.message_size round_trip latency wall_ts)
              (record_round_trips s (suc i) c' xs)
      ]
