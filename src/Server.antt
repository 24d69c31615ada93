-- ===== src/Server.antt =====
-- The servers' message loops. `run_server_mode_blocking` of src/main.rs serves the benchmark's own
-- client and buffers latencies; `handle_client_connection` of src/standalone_server.rs measures. An
-- arrival is a received message with what the clocks give and whether a reply to it is sent; the loop
-- meets a receive error after the last arrival.
pub mod Buffering
pub mod Handling
pub mod Tests
use rusty_comms.Prelude.{
  ℕ, ◌-◌, ◌^◌, Bool, true, false, not, ◌&&◌, Option, none, some, List, [], ◌∷◌, ◌++◌, ◌==◌,
  if◌then◌else◌, Result, ok, err,
}
use rusty_comms.Ipc.Message.{
  Message, MessageType, one_way, request, response, ping, pong, shutdown, new,
}
use rusty_comms.Metrics.{Numeric, Fault, MetricsCollector}
use rusty_comms.Metrics as Metrics
use rusty_comms.Metrics.Collector.{record_message}
use rusty_comms.Metrics.Collector as Collector

-- `monotonic` also serves as the time at which the reply is made, and `wall` is the time of day.
pub record Arrival : Type 0 where
  pub message : Message
  pub monotonic : ℕ
  pub wall : ℕ
  pub reply_sent : Bool

-- `u64::MAX`, the id of a canary
abbrev pub canary_id : ℕ
canary_id = 2 ^ 64 - 1

abbrev pub is_shutdown : MessageType → Bool
is_shutdown shutdown = true
is_shutdown _ = false

abbrev pub is_one_way : MessageType → Bool
is_one_way one_way = true
is_one_way _ = false

-- `now` is the time at which the reply is made.
abbrev pub reply_to : ℕ → ℕ → MessageType → Option Message
reply_to now id request = some (new now id [] response)
reply_to now id ping = some (new now id [] pong)
reply_to now id _ = none

unfoldable pub dispatch_server_message : ℕ → Message → Option Message
dispatch_server_message now m = reply_to now m.id m.message_type

unfoldable pub should_buffer_latency : Bool → ℕ → Bool
should_buffer_latency latency_file_enabled message_id =
    latency_file_enabled && not (message_id == canary_id)

-- `saturating_sub` is the natural numbers' subtraction.
unfoldable pub latency_of : Arrival → ℕ
latency_of a =
    (if a.message.receive_time_ns == 0 then a.monotonic else a.message.receive_time_ns)
    - a.message.timestamp

unfoldable pub wall_send_of : Arrival → ℕ
wall_send_of a = a.wall - latency_of a

-- What a server has done when its loop ends.
pub record Served : Type 0 where
  pub latency_buffer : List (ℕ × ℕ)
  pub replies : List Message

abbrev pub ended : Served
ended = record { latency_buffer = []; replies = [] }

abbrev pub with_reply : Message → Served → Served
with_reply reply s = record s { replies = reply ∷ s.replies }

abbrev pub with_entry : List (ℕ × ℕ) → Served → Served
with_entry entry s = record s { latency_buffer = entry ++ s.latency_buffer }

-- The loop of `run_server_mode_blocking`.
unfoldable pub server_loop : Bool → List Arrival → Served
server_loop latency_file_enabled [] = ended
server_loop latency_file_enabled (a ∷ arrivals) =
    let later = server_loop latency_file_enabled arrivals in
    let entry =
      if should_buffer_latency latency_file_enabled a.message.id
      then (wall_send_of a, latency_of a) ∷ []
      else [] in
    if is_shutdown a.message.message_type
    then with_entry entry ended
    else with_entry entry (elim (dispatch_server_message a.monotonic a.message) [
      | none ↦ later
      | some reply ↦ if a.reply_sent then with_reply reply later else ended
    ])

module _ (num : Numeric) where
  -- What `handle_client_connection` receives: `monotonic` is the time that `receive_blocking_timed`
  -- returns, and the flag says whether shutdown is requested before the receive.
  abbrev pub Incoming : Type 0
  Incoming = Bool × Arrival

  abbrev pub timed_latency : Arrival → ℕ
  timed_latency a = a.monotonic - a.message.timestamp

  abbrev pub is_measured : Message → Bool
  is_measured m = is_one_way m.message_type && not (m.id == canary_id)

  -- The collector behind one message, and the error of a measurement that fails.
  unfoldable pub measure : ℕ → MetricsCollector num → Arrival → Result Fault (MetricsCollector num)
  measure message_size c a =
      if is_measured a.message
      then (let (outcome, c') = record_message num c message_size (some (timed_latency a)) in
          elim outcome [ ok _ ↦ ok c' | err e ↦ err e ])
      else ok c

  abbrev pub replied :
      Message
      → Result Fault (MetricsCollector num × List Message)
      → Result Fault (MetricsCollector num × List Message)
  replied reply (ok (c, rs)) = ok (c, reply ∷ rs)
  replied reply (err e) = err e

  unfoldable pub handler_loop :
      ℕ → MetricsCollector num → List Incoming → Result Fault (MetricsCollector num × List Message)
  handler_loop message_size c [] = ok (c, [])
  handler_loop message_size c ((stop, a) ∷ incoming) =
      if stop
      then ok (c, [])
      else if is_shutdown a.message.message_type
      then ok (c, [])
      else (elim (measure message_size c a) [
        | err e ↦ err e
        | ok c' ↦ elim (dispatch_server_message a.monotonic a.message) [
          | none ↦ handler_loop message_size c' incoming
          | some reply ↦
              let rest = handler_loop message_size c' incoming in
              if a.reply_sent then replied reply rest else ok (c', [])
        ]
      ])

  -- `now` is the time at which the collector is made.
  unfoldable pub handle_client_connection :
      ℕ → ℕ → List num.F64 → List Incoming → Result Fault (MetricsCollector num × List Message)
  handle_client_connection now message_size percentiles incoming =
      elim (Collector.new num now (some Metrics.one_way) percentiles) [
        | err e ↦ err e
        | ok c ↦ handler_loop message_size c incoming
      ]
