-- ===== src/Standalone/Client.antt =====
-- `run_standalone_client_blocking_concurrent` of src/standalone_client.rs with a message count: what
-- the one-way workers send, and what the round-trip workers record. The connections are made, and
-- canaries and warm-up messages are answered.
use rusty_comms.Prelude.{
  ℕ, zero, suc, ◌+◌, ◌*◌, ◌-◌, ◌/◌, ◌%◌, Bool, true, false, not, some, List, [], ◌∷◌, ◌++◌, ◌==◌,
  ltb, if◌then◌else◌, Result, ok, err,
}
use rusty_comms.Ipc.Message.{Message, one_way, shutdown, new}
use rusty_comms.Metrics.{Numeric, MetricsCollector, PerformanceMetrics, round_trip}
use rusty_comms.Metrics as Metrics
use rusty_comms.Metrics.Collector.{record_message, get_metrics}
use rusty_comms.Metrics.Collector as Collector
use rusty_comms.Results.Record.{IpcMechanism, unix_domain_socket, tcp_socket, MessageLatencyRecord}
use rusty_comms.Results.Record as Record
use rusty_comms.Server.{canary_id}
use rusty_comms.Runner.{BenchmarkConfig, payload, counted}

abbrev pub supports_concurrency : IpcMechanism → Bool
supports_concurrency tcp_socket = true
supports_concurrency unix_domain_socket = true
supports_concurrency _ = false

unfoldable pub effective_concurrency : IpcMechanism → ℕ → ℕ
effective_concurrency mechanism requested =
    if supports_concurrency mechanism then requested else if ltb 1 requested then 1 else requested

-- The last worker gets the remainder.
unfoldable pub worker_msg_count : ℕ → ℕ → ℕ → ℕ
worker_msg_count msg_count concurrency worker_id =
    msg_count / concurrency + (if worker_id == concurrency - 1 then msg_count % concurrency else 0)

unfoldable pub first_id : ℕ → ℕ → ℕ → ℕ
first_id msg_count concurrency worker_id = worker_id * (msg_count / concurrency)

abbrev pub warmups : BenchmarkConfig → (ℕ → ℕ) → ℕ → ℕ → List Message
warmups config clock k zero = []
warmups config clock k (suc n) =
    new (clock k) canary_id (payload config) one_way ∷ warmups config clock (suc k) n

-- The messages of one worker, at its clock.
unfoldable pub one_way_worker : BenchmarkConfig → ℕ → ℕ → (ℕ → ℕ) → ℕ → List Message
one_way_worker config warmup_iterations concurrency clock worker_id =
    let canaries = if config.include_first_message then 0 else 1 in
    let front = warmup_iterations + canaries in
    let n = worker_msg_count config.msg_count concurrency worker_id in
    warmups config clock 0 front
    ++ (counted config clock front (first_id config.msg_count concurrency worker_id) n
        ++ (new (clock (front + n)) canary_id [] shutdown ∷ []))

-- A request and its response: whether the calls succeed, the time between them, and the wall clock's
-- time of sending.
pub record Exchange : Type 0 where
  pub sent : Bool
  pub received : Bool
  pub latency : ℕ
  pub send_wall_ns : ℕ

pub data Fault : Type 0 where
  send_failed receive_failed : Fault
  metrics : Metrics.Fault → Fault

module _ (num : Numeric) where
  abbrev pub Loop : Type 0
  Loop = Result Fault (MetricsCollector num × List MessageLatencyRecord)

  abbrev pub with_record : MessageLatencyRecord → Loop → Loop
  with_record r (ok (c, rs)) = ok (c, r ∷ rs)
  with_record r (err e) = err e

  -- The loop over `n` messages, the next of which has the id `id` and the index `i`.
  unfoldable pub exchange_loop :
      BenchmarkConfig → (ℕ → Exchange) → ℕ → ℕ → ℕ → MetricsCollector num → Loop
  exchange_loop config exchanges zero id i c = ok (c, [])
  exchange_loop config exchanges (suc n) id i c =
      let x = exchanges i in
      let (outcome, c') = record_message num c config.message_size (some x.latency) in
      let later = exchange_loop config exchanges n (suc id) (suc i) c' in
      let r =
        Record.new id config.mechanism config.message_size round_trip x.latency x.send_wall_ns in
      if not x.sent
      then err send_failed
      else if not x.received
      then err receive_failed
      else (elim outcome [ err e ↦ err (metrics e) | ok _ ↦ with_record r later ])

  abbrev pub Worker : Type 0
  Worker = Result Fault (PerformanceMetrics num × List MessageLatencyRecord)

  abbrev pub reported : ℕ → ℕ → Loop → Worker
  reported now utc (ok (c, rs)) = ok (get_metrics num now utc c, rs)
  reported now utc (err e) = err e

  -- The worker's collector is made at `start`, and its metrics are taken at `now`.
  unfoldable pub round_trip_worker :
      BenchmarkConfig → ℕ → List num.F64 → (start now utc : ℕ) → (ℕ → Exchange) → ℕ → Worker
  round_trip_worker config concurrency percentiles start now utc exchanges worker_id =
      elim (Collector.new num start (some round_trip) percentiles) [
        | err e ↦ err (metrics e)
        | ok c ↦ reported now utc (
            exchange_loop config exchanges (worker_msg_count config.msg_count concurrency worker_id)
              (first_id config.msg_count concurrency worker_id) 0 c)
      ]

  abbrev pub joined :
      PerformanceMetrics num × List MessageLatencyRecord
      → Result Fault (List (PerformanceMetrics num) × List MessageLatencyRecord)
      → Result Fault (List (PerformanceMetrics num) × List MessageLatencyRecord)
  joined (m, rs) (ok (ms, qs)) = ok (m ∷ ms, rs ++ qs)
  joined (m, rs) (err e) = err e

  -- The threads from the one on are joined in order: the first error ends the phase, and the records
  -- are streamed.
  unfoldable pub join_workers :
      (ℕ → Worker)
      → ℕ
      → ℕ
      → Result Fault (List (PerformanceMetrics num) × List MessageLatencyRecord)
  join_workers workers worker_id zero = ok ([], [])
  join_workers workers worker_id (suc n) = elim (workers worker_id) [
    | err e ↦ err e
    | ok w ↦ joined w (join_workers workers (suc worker_id) n)
  ]
