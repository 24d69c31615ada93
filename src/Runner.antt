-- ===== src/Runner.antt =====
-- The client of a one-way test with a message count: `run_single_threaded_one_way` of
-- src/benchmark_blocking.rs, with the spawned server of Server.antt behind a transport.
pub mod Measured
pub mod Pipeline
pub mod MultiThreaded
pub mod Reporting
pub mod Doubling
mod Tests
use rusty_comms.Prelude.{
  ℕ, zero, suc, Bool, true, false, Option, none, some, List, [], ◌∷◌, ◌++◌, replicate,
  if◌then◌else◌, Result, ok, err,
}
use rusty_comms.Ipc.Message.{Message, one_way, shutdown, new}
use rusty_comms.Metrics.{Numeric, MetricsCollector}
use rusty_comms.Metrics as Metrics
use rusty_comms.Metrics.Collector.{record_message}
use rusty_comms.Text.{lines}
use rusty_comms.LatencyFile as LatencyFile
use rusty_comms.LatencyFile.{parse_latency_file_line}
use rusty_comms.Results.Record.{
  IpcMechanism, unix_domain_socket, shared_memory, tcp_socket, posix_message_queue, all,
  MessageLatencyRecord,
}
use rusty_comms.Results.Record as Record
use rusty_comms.Server.{canary_id}

pub record BenchmarkConfig : Type 0 where
  pub mechanism : IpcMechanism
  pub message_size : ℕ
  pub msg_count : ℕ
  pub include_first_message : Bool

abbrev pub payload : BenchmarkConfig → List ℕ
payload config = replicate config.message_size 0

-- `for i in 0..msg_count`: the messages from `i`, the first made at the clock's reading `k`.
abbrev pub counted : BenchmarkConfig → (ℕ → ℕ) → ℕ → ℕ → ℕ → List Message
counted config clock k i zero = []
counted config clock k i (suc n) =
    new (clock k) i (payload config) one_way ∷ counted config clock (suc k) (suc i) n

abbrev pub canaries : BenchmarkConfig → (ℕ → ℕ) → List Message
canaries config clock =
    if config.include_first_message
    then []
    else new (clock 0) canary_id (payload config) one_way ∷ []

-- The mechanisms without a connection to close.
abbrev pub needs_shutdown : IpcMechanism → Bool
needs_shutdown posix_message_queue = true
needs_shutdown shared_memory = true
needs_shutdown _ = false

abbrev pub shutdowns : BenchmarkConfig → (ℕ → ℕ) → List Message
shutdowns config clock =
    if needs_shutdown config.mechanism
    then new (clock (suc config.msg_count)) canary_id [] shutdown ∷ []
    else []

-- What the client sends when no send fails.
unfoldable pub one_way_messages : BenchmarkConfig → (ℕ → ℕ) → List Message
one_way_messages config clock =
    canaries config clock ++ (counted config clock 1 0 config.msg_count ++ shutdowns config clock)

pub data Fault : Type 0 where
  file : LatencyFile.Fault → Fault
  metrics : Metrics.Fault → Fault

module _ (num : Numeric) where
  abbrev pub Recorded : Type 0
  Recorded = Result Fault (MetricsCollector num × List MessageLatencyRecord)

  abbrev pub with_record : MessageLatencyRecord → Recorded → Recorded
  with_record r (ok (c, rs)) = ok (c, r ∷ rs)
  with_record r (err e) = err e

  -- `MessageLatencyRecord::new` for the line `i`.
  abbrev pub line_record : BenchmarkConfig → ℕ → ℕ × ℕ → MessageLatencyRecord
  line_record config i (wall_send_ns, latency_ns) =
      Record.new i config.mechanism config.message_size Metrics.one_way latency_ns wall_send_ns

  -- The loop over the file's lines: the collector, and the records that are streamed.
  unfoldable pub record_lines :
      BenchmarkConfig → ℕ → MetricsCollector num → List (List ℕ) → Recorded
  record_lines config i c [] = ok (c, [])
  record_lines config i c (line ∷ ls) = elim (parse_latency_file_line line) [
    | err e ↦ err (file e)
    | ok (wall_send_ns, latency_ns) ↦
        let (outcome, c') = record_message num c config.message_size (some latency_ns) in
        elim outcome [
          | err e ↦ err (metrics e)
          | ok _ ↦
              with_record (line_record config i (wall_send_ns, latency_ns))
                (record_lines config (suc i) c' ls)
        ]
  ]

  unfoldable pub record_latency_file : BenchmarkConfig → MetricsCollector num → List ℕ → Recorded
  record_latency_file config c text = record_lines config 0 c (lines text)
