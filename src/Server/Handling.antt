-- ===== src/Server/Handling.antt =====
-- What the standalone server's handler has measured and answered when it ends.
use rusty_comms.Prelude.{ℕ, Bool, some, none, Option, List, [], ◌∷◌, if◌then◌else◌, Result, ok, err}
use rusty_comms.Ipc.Message.{Message}
use rusty_comms.Metrics.{Numeric, Fault, MetricsCollector}
use rusty_comms.Metrics as Metrics
use rusty_comms.Metrics.Collector.{record_message}
use rusty_comms.Metrics.Collector as Collector
use rusty_comms.Server.{Arrival, is_shutdown, Incoming, timed_latency, is_measured, replied}
use rusty_comms.Server.Buffering.{Answered}

module _ (num : Numeric) where
  -- The messages that are handled: those in front of a shutdown message or a request to stop.
  abbrev pub handled : List (Incoming num) → List Arrival
  handled [] = []
  handled ((stop, a) ∷ xs) =
      if stop then [] else if is_shutdown a.message.message_type then [] else a ∷ handled xs

  -- The latencies of the one-way messages but canaries.
  abbrev pub measured : List Arrival → List ℕ
  measured [] = []
  measured (a ∷ xs) =
      if is_measured num a.message then timed_latency num a ∷ measured xs else measured xs

  -- A collector that records one latency after the other, up to an error.
  abbrev pub record_all : ℕ → MetricsCollector num → List ℕ → Result Fault (MetricsCollector num)
  record_all size c [] = ok c
  record_all size c (l ∷ ls) =
      let (outcome, c') = record_message num c size (some l) in
      elim outcome [ ok _ ↦ record_all size c' ls | err e ↦ err e ]

  abbrev pub with_replies :
      List Message
      → Result Fault (MetricsCollector num)
      → Result Fault (MetricsCollector num × List Message)
  with_replies rs (ok c) = ok (c, rs)
  with_replies rs (err e) = err e

  abbrev pub IsAnswered : Incoming num → Type 0
  IsAnswered (stop, a) = Answered a

  abbrev after_measure :
      Result Fault (MetricsCollector num)
      → (MetricsCollector num → Result Fault (MetricsCollector num))
      → Result Fault (MetricsCollector num)
  after_measure r rest = elim r [ err e ↦ err e | ok c ↦ rest c ]

  -- What the loop does behind the measurement `r` of a message.
  abbrev behind :
      Bool
      → Result Fault (MetricsCollector num)
      → Option Message
      → (MetricsCollector num → Result Fault (MetricsCollector num × List Message))
      → Result Fault (MetricsCollector num × List Message)
  behind sent r d next = elim r [
    | err e ↦ err e
    | ok c' ↦ elim d [
      | none ↦ next c'
      | some reply ↦ if sent then replied num reply (next c') else ok (c', [])
    ]
  ]

  abbrev pub collected :
      ℕ → List ℕ → Result Fault (MetricsCollector num) → Result Fault (MetricsCollector num)
  collected size ls r = elim r [ err e ↦ err e | ok c ↦ record_all size c ls ]
