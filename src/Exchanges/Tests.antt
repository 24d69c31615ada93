-- ===== src/Exchanges/Tests.antt =====
-- The tests that wait for responses, at concrete inputs.
use rusty_comms.Prelude.{ℕ, ◌+◌, ◌≡◌, refl, inl, inr, none, some, List, [], ◌∷◌, ◌++◌, ok}
use rusty_comms.Metrics.{MetricsCollector, PerformanceMetrics, round_trip}
use rusty_comms.Metrics.Tests.{whole}
use rusty_comms.Metrics.Takes.{Takes}
use rusty_comms.Results.Record.{tcp_socket}
use rusty_comms.Runner.Reporting.{HasCounted, Reports}
use rusty_comms.Exchanges.{
  Turn, sent, late, answered, failed, overdue, Subject, Log, returned, combined_duration,
  round_trip_duration, record_round_trips,
}
use rusty_comms.Exchanges.Combined.{
  Times, requests, unanswered, combined_records, run_combined, run_combined-Reports,
}
use rusty_comms.Exchanges.Timed.{sent_requests, round_trip_records, round_trip_duration-Records}
use rusty_comms.Exchanges.Answered.{
  blocking_duration, answered_records, answers, blocking_duration-Records,
}

abbrev subject : Subject
subject = record { mechanism = tcp_socket; message_size = 2 }

abbrev times : Times
times = record { start = 0; now = 90; utc = 7 }

abbrev turn : Turn
turn = record {
  elapsed = 10;
  wall = 500;
  made = 101;
  send_start = 100;
  delivery = sent;
  send_end = 103;
  reply = answered;
  finish = 109;
}

abbrev second : Turn
second = record turn { elapsed = 20; wall = 600; send_start = 120; send_end = 122; finish = 130 }

-- The receive fails, is overdue, or the time is over.
abbrev no_reply : Turn
no_reply = record second { reply = failed }

abbrev no_reply_in_time : Turn
no_reply_in_time = record second { reply = overdue }

abbrev not_sent : Turn
not_sent = record second { delivery = late }

abbrev over : Turn
over = record second { elapsed = 50 }

abbrev collector : MetricsCollector whole
collector = record {
  latency_collector = some (record {
    histogram = [];
    latency_type = round_trip;
    start_time = 0;
    sample_count = 0;
    observed_min_ns = none;
    observed_max_ns = none;
  });
  throughput_calculator = record { start_time = 0; message_count = 0; byte_count = 0 };
  percentiles = [];
}

takes : Takes whole
takes = ((λ x h. (_, refl)), ([], refl))

counted : HasCounted whole collector 0
counted = ((_, refl, refl), refl)

run_combined-Reports_example :
    (log : Log) × (m1 : PerformanceMetrics whole) × (m2 : PerformanceMetrics whole)
    × (combined_duration 50 2 0 (turn ∷ second ∷ no_reply ∷ []) ≡ returned (ok log))
    × (log.messages ≡ requests 2 0 (turn ∷ second ∷ []) ++ unanswered 50 2 2 no_reply)
    × (run_combined whole times subject []
          (combined_duration 50 2 0 (turn ∷ second ∷ no_reply ∷ []))
        ≡ returned (ok ((m1, m2), combined_records subject 0 (turn ∷ second ∷ []))))
    × Reports whole m1 2
    × Reports whole m2 2
run_combined-Reports_example =
    run_combined-Reports whole takes times subject [] 50 (turn ∷ second ∷ []) no_reply []
      ((refl, refl, refl), ((refl, refl, refl), tt)) (inr (inr refl))

round_trip_duration-Records_example :
    (es : List (ℕ × ℕ)) × (c' : MetricsCollector whole) × (round_trip_duration 50 2 0
        (turn ∷ not_sent ∷ no_reply_in_time ∷ no_reply ∷ over ∷ [])
      ≡ returned (ok (sent_requests 2 0 (turn ∷ not_sent ∷ no_reply_in_time ∷ no_reply ∷ []), es)))
    × (record_round_trips whole subject 0 collector es
        ≡ returned (ok (c', round_trip_records subject 0 (turn ∷ no_reply ∷ []))))
    × HasCounted whole c' 2
round_trip_duration-Records_example =
    round_trip_duration-Records whole takes subject 50 0 collector
      (turn ∷ not_sent ∷ no_reply_in_time ∷ no_reply ∷ []) over []
      (refl, (refl, (refl, (refl, tt)))) refl counted

blocking_duration-Records_example :
    (c' : MetricsCollector whole) × (blocking_duration whole subject 50 0 collector
        (turn ∷ no_reply ∷ second ∷ over ∷ [])
      ≡ returned (
          ok (
            requests 2 0 (turn ∷ no_reply ∷ second ∷ []),
            (c', answered_records whole subject 0 (turn ∷ no_reply ∷ second ∷ [])),
          )))
    × HasCounted whole c' (0 + answers whole (turn ∷ no_reply ∷ second ∷ []))
blocking_duration-Records_example =
    blocking_duration-Records whole takes subject 50 0 0 collector (turn ∷ no_reply ∷ second ∷ [])
      over [] ((refl, refl), ((refl, refl), ((refl, refl), tt))) (inl refl) counted
