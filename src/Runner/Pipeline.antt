-- ===== src/Runner/Pipeline.antt =====
-- From the messages that the client sends to the records that it makes of the server's file.
use rusty_comms.Prelude.{
  ℕ, zero, suc, ◌≡◌, refl, sym, ap, ◌∙◌, true, List, [], ◌∷◌, map, Result, ok, err, All, IsU64,
  arith, some,
}
use rusty_comms.Metrics.{Numeric, MetricsCollector}
use rusty_comms.Metrics as Metrics
use rusty_comms.Metrics.Collector.{record_message}
use rusty_comms.Text.{lines}
use rusty_comms.LatencyFile.{
  write_latency_buffer, parse_latency_file_line, parse_lines, read_latency_file,
}
use rusty_comms.LatencyFile.RoundTrip.{IsPair, read-write_latency_buffer}
use rusty_comms.Results.Record.{MessageLatencyRecord}
use rusty_comms.Results.Record as Record
use rusty_comms.Server.{Arrival, latency_of, wall_send_of, server_loop}
use rusty_comms.Server.Buffering.{until_shutdown, entry, entries, Answered, server_loop_lem}
use rusty_comms.Server.Handling.{record_all}
use rusty_comms.Runner.{
  BenchmarkConfig, one_way_messages, metrics, Recorded, with_record, line_record, record_lines,
  record_latency_file,
}
use rusty_comms.Runner.Measured.{
  Carries, IsTimed, kept, id_of, from, ids-kept, entries-kept, ids_of-one_way_messages,
  IsPair-entries, IsTimed-until_shutdown,
}

read-lines :
    (buffer : List (ℕ × ℕ))
    → All IsPair buffer
    → parse_lines (lines (write_latency_buffer buffer)) ≡ ok buffer
unfolding read_latency_file
read-lines buffer h = read-write_latency_buffer buffer h

module _ (num : Numeric) where
  -- The record of a message, by the id that it carries.
  abbrev pub record_of : BenchmarkConfig → Arrival → MessageLatencyRecord
  record_of config a =
      Record.new a.message.id config.mechanism config.message_size Metrics.one_way (latency_of a)
        (wall_send_of a)

  abbrev pub records_of : BenchmarkConfig → List Arrival → List MessageLatencyRecord
  records_of config xs = map (record_of config) xs

  abbrev pub with_records :
      List MessageLatencyRecord → Result Metrics.Fault (MetricsCollector num) → Recorded num
  with_records rs (ok c) = ok (c, rs)
  with_records rs (err e) = err (metrics e)

  with_record-outcome :
      (o : Result Metrics.Fault (Unit {0})) (c : MetricsCollector num) (r : MessageLatencyRecord)
      (rs : List MessageLatencyRecord)
      (next : MetricsCollector num → Result Metrics.Fault (MetricsCollector num))
      → elim o [ err e ↦ err (metrics e) | ok _ ↦ with_record num r (with_records rs (next c)) ]
        ≡ with_records (r ∷ rs) (elim o [ ok _ ↦ next c | err e ↦ err e ])
  with_record-outcome (ok u) c r rs next =
      elim (next c) as (λ x. with_record num r (with_records rs x) ≡ with_records (r ∷ rs) x) [
        | ok c' ↦ refl
        | err e ↦ refl
      ]
  with_record-outcome (err e) c r rs next = refl

  abbrev latencies : List Arrival → List ℕ
  latencies xs = map latency_of xs

  parsed_first :
      (l : List ℕ) (ls : List (List ℕ)) (p : ℕ × ℕ) (ps : List (ℕ × ℕ))
      → parse_lines (l ∷ ls) ≡ ok (p ∷ ps)
      → (parse_latency_file_line l ≡ ok p) × (parse_lines ls ≡ ok ps)
  parsed_first l ls p ps e = ground arith

  numbered_first : (a i : ℕ) (xs ys : List ℕ) → a ∷ xs ≡ i ∷ ys → (a ≡ i) × (xs ≡ ys)
  numbered_first a i xs ys e = ground arith

  -- What the loop makes of a line's record and the later lines.
  abbrev after :
      Result Metrics.Fault (Unit {0}) → MessageLatencyRecord → Recorded num → Recorded num
  after outcome r next = elim outcome [ err e ↦ err (metrics e) | ok _ ↦ with_record num r next ]

  record_lines-step :
      (config : BenchmarkConfig) (i : ℕ) (c : MetricsCollector num) (l : List ℕ)
      (ls : List (List ℕ)) (p : ℕ × ℕ)
      → parse_latency_file_line l ≡ ok p
      → let r = record_message num c config.message_size (some p.1) in
        record_lines num config i c (l ∷ ls)
        ≡ after r.0 (line_record num config i p) (record_lines num config (suc i) r.1 ls)
  unfolding record_lines
  record_lines-step config i c l ls p e = rw (e, record_lines) refl

  record_lines_lem :
      (config : BenchmarkConfig) (i n : ℕ) (c : MetricsCollector num) (ls : List (List ℕ))
      (xs : List Arrival)
      → parse_lines ls ≡ ok (map entry xs)
      → map id_of xs ≡ from i n
      → record_lines num config i c ls
        ≡ with_records (records_of config xs) (record_all num config.message_size c (latencies xs))
  record_lines_lem config i n c [] [] e h = unfold record_lines in refl
  record_lines_lem config i n c [] (x ∷ xs) e h = absurd (ground arith)
  record_lines_lem config i n c (l ∷ ls) [] e h = absurd (ground arith)
  record_lines_lem config i zero c (l ∷ ls) (x ∷ xs) e h = absurd (ground arith)
  record_lines_lem config i (suc n) c (l ∷ ls) (x ∷ xs) e h =
      let (first, rest) = parsed_first l ls (entry x) (map entry xs) e in
      let (same, later) = numbered_first x.message.id i (map id_of xs) (from (suc i) n) h in
      let r = record_message num c config.message_size (some (latency_of x)) in
      let rs = records_of config xs in
      let recorded = record_all num config.message_size r.1 (latencies xs) in
      record_lines-step config i c l ls (entry x) first
      ∙ ap (after r.0 (line_record num config i (entry x)))
          (record_lines_lem config (suc i) n r.1 ls xs rest later)
      ∙ ap (λ j. after r.0 (line_record num config j (entry x)) (with_records rs recorded))
          (sym same)
      ∙ with_record-outcome r.0 r.1 (record_of config x) rs
          (λ c'. record_all num config.message_size c' (latencies xs))

  -- When the transport brings the client's messages in order and the clocks fit 64 bits, the client
  -- reads from the server's file one record for each message but the canary, with the message's own id,
  -- latency and time of sending, the ids are 0, 1, … below the message count, and the collector has
  -- recorded the same latencies in this order.
  pub record_latency_file-server_loop :
      (config : BenchmarkConfig) (clock : ℕ → ℕ) (xs : List Arrival) (c : MetricsCollector num)
      → IsU64 config.msg_count
      → Carries (one_way_messages config clock) xs
      → All IsTimed xs
      → All Answered xs
      → let measured = kept (until_shutdown xs) in
        (record_latency_file num config c
            (write_latency_buffer (server_loop true xs).latency_buffer)
          ≡ with_records
              (records_of config measured)
              (record_all num config.message_size c (map latency_of measured)))
        × (map id_of measured ≡ from 0 config.msg_count)
  unfolding record_latency_file
  record_latency_file-server_loop config clock xs c small carried timed answered =
      let buffer = entries (until_shutdown xs) in
      let ids =
        ids-kept (one_way_messages config clock) xs carried
        ∙ ids_of-one_way_messages config clock small in
      let parsed =
        read-lines buffer (IsPair-entries (until_shutdown xs) (IsTimed-until_shutdown xs timed))
        ∙ ap ok (entries-kept (until_shutdown xs)) in
      (
        ap (λ b. record_lines num config 0 c (lines (write_latency_buffer b)))
              (server_loop_lem xs answered).0
            ∙ record_lines_lem config 0 config.msg_count c (lines (write_latency_buffer buffer))
                (kept (until_shutdown xs)) parsed ids,
        ids,
      )
