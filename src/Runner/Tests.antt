-- ===== src/Runner/Tests.antt =====
-- A test of two messages behind a canary, over shared memory.
use rusty_comms.Prelude.{
  ℕ, ◌%◌, ◌^◌, ok, ◌+◌, ◌*◌, ◌≡◌, refl, List, [], ◌∷◌, map, false, true, arith,
}
use rusty_comms.Ipc.Message.{Message, new}
use rusty_comms.Metrics.Tests.{whole}
use rusty_comms.Results.Record.{shared_memory}
use rusty_comms.LatencyFile.{write_latency_buffer}
use rusty_comms.Server.{Arrival, latency_of, server_loop}
use rusty_comms.Server.Buffering.{until_shutdown}
use rusty_comms.Server.Handling.{record_all}
use rusty_comms.Server.Tests.{collector}
use rusty_comms.Runner.{BenchmarkConfig, one_way_messages, record_latency_file}
use rusty_comms.Metrics.{MetricsCollector, one_way}
use rusty_comms.Runner.MultiThreaded.{Test, run_multi_threaded}
use rusty_comms.Runner.Reporting.{total}
use rusty_comms.Runner.Doubling.{run_multi_threaded-total}
use rusty_comms.Runner.Measured.{kept, id_of, from}
use rusty_comms.Runner.Pipeline.{records_of, with_records, record_latency_file-server_loop}

abbrev config : BenchmarkConfig
config = record {
  mechanism = shared_memory;
  message_size = 1;
  msg_count = 2;
  include_first_message = false;
}

abbrev clock : ℕ → ℕ
clock n = 100 + 10 * n

abbrev arrived : Message → Arrival
arrived m = record { message = m; monotonic = m.timestamp + 5; wall = 7000; reply_sent = true }

abbrev arrivals : List Arrival
arrivals = map arrived (one_way_messages config clock)

record_latency_file-server_loop_example :
    let measured = kept (until_shutdown arrivals) in
    (record_latency_file whole config collector
        (write_latency_buffer (server_loop true arrivals).latency_buffer)
      ≡ with_records whole
          (records_of whole config measured)
          (record_all whole 1 collector (map latency_of measured)))
    × (map id_of measured ≡ from 0 2)
unfolding one_way_messages new
record_latency_file-server_loop_example =
    record_latency_file-server_loop whole config clock arrivals collector (omega arith)
      ((refl, refl, (refl, refl, (refl, refl, (refl, refl, tt)))))
      ((
        (omega arith, omega arith, omega arith),
        (
          (omega arith, omega arith, omega arith),
          ((omega arith, omega arith, omega arith), ((omega arith, omega arith, omega arith), tt)),
        ),
      ))
      (refl, (refl, (refl, (refl, tt))))

-- Two tests of two messages.
abbrev test : Test
test = record { start = 0; now = 9; utc = 9; latencies = 40 ∷ 30 ∷ [] }

run_multi_threaded-total_example :
    (c' : MetricsCollector whole) × (run_multi_threaded whole one_way [] 9 64
        (test ∷ test ∷ [])
        collector
      ≡ ok c')
    × (c'.latency_collector ≡ collector.latency_collector)
    × (c'.throughput_calculator.message_count ≡ (0 + 2 * total (test ∷ test ∷ [])) % 2 ^ 64)
run_multi_threaded-total_example =
    run_multi_threaded-total whole ((λ x h. (x ∷ h, refl)), ([], refl)) one_way [] 9 64 test
      (test ∷ []) collector (omega arith)
