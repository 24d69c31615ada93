-- ===== src/Standalone/ClientTests.antt =====
-- Two workers with five messages.
use rusty_comms.Prelude.{ℕ, ◌+◌, ◌*◌, ◌≡◌, refl, true, false, List, [], ◌∷◌, map, length, ok, arith}
use rusty_comms.Metrics.{PerformanceMetrics}
use rusty_comms.Metrics.Tests.{whole}
use rusty_comms.Metrics.Takes.{Takes}
use rusty_comms.Results.Record.{tcp_socket}
use rusty_comms.Runner.{BenchmarkConfig}
use rusty_comms.Runner.Measured.{from, ids_of}
use rusty_comms.Standalone.Client.{
  worker_msg_count, first_id, one_way_worker, Exchange, join_workers,
}
use rusty_comms.Standalone.Workers.{over, one_way_worker-ids}
use rusty_comms.Standalone.RoundTrips.{worker_records, message_id_of, phase, join_workers-ids}

abbrev config : BenchmarkConfig
config = record {
  mechanism = tcp_socket;
  message_size = 8;
  msg_count = 5;
  include_first_message = false;
}

last : from (first_id 5 2 1) (worker_msg_count 5 2 1) ≡ 2 ∷ 3 ∷ 4 ∷ []
unfolding first_id worker_msg_count
last = refl

one_way_worker-ids_example :
    over (λ w. ids_of (one_way_worker config 3 2 (λ i. 10 * w + i) w)) 0 2 ≡ from 0 5
one_way_worker-ids_example =
    one_way_worker-ids config 3 2 (λ w i. 10 * w + i) (omega arith) (omega arith)

abbrev exchange : ℕ → ℕ → Exchange
exchange w i = record { sent = true; received = true; latency = 40 + i; send_wall_ns = 900 + w }

abbrev takes : Takes whole
takes = ((λ x h. (x ∷ h, refl)), ([], refl))

join_workers-ids_example :
    let rs = over (λ w. worker_records config 2 (exchange w) w) 0 2 in
    (ms : List (PerformanceMetrics whole)) × (join_workers whole
        (phase whole config 2 [] (λ w. 1) (λ w. 2) (λ w. 3) exchange)
        0
        2
      ≡ ok (ms, rs))
    × (length ms ≡ 2)
    × (map message_id_of rs ≡ from 0 5)
join_workers-ids_example =
    join_workers-ids whole takes config 2 [] (λ w. 1) (λ w. 2) (λ w. 3) exchange
      (λ w i. (refl, refl)) (omega arith)
