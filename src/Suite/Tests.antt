-- ===== src/Suite/Tests.antt =====
-- Runs of two mechanisms, of which one fails.
use rusty_comms.Prelude.{ℕ, ◌≡◌, refl, true, false, none, some, List, [], ◌∷◌, map, ok, err}
use rusty_comms.Metrics.Tests.{whole}
use rusty_comms.Results.Record.{IpcMechanism, tcp_socket, shared_memory}
use rusty_comms.Config.{TestConfig, is_shm, create_transport_config}
use rusty_comms.Report.{BenchmarkResults, failure, add_one_way_results, add_round_trip_results}
use rusty_comms.Report.Tests.{one_way_metrics, round_trip_metrics}
use rusty_comms.Suite.{
  Fault, test_failed, Args, Outcomes, Reported, from_args, contains_all, expand_all,
  validate_core_availability, run, run_suite, fresh,
}
use rusty_comms.Suite.Measures.{HasMeasured, run-HasMeasured}
use rusty_comms.Suite.Continues.{result_of, run_suite-Complete}

abbrev args : Args
args = record {
  mechanisms = tcp_socket ∷ shared_memory ∷ [];
  message_size = 8;
  msg_count = 3;
  duration = none;
  concurrency = 1;
  one_way = false;
  round_trip = false;
  warmup_iterations = 1;
  buffer_size = none;
  port = 8080;
  pmq_priority = 0;
  include_first_message = true;
  server_affinity = none;
  client_affinity = some 1;
  continue_on_error = true;
}

abbrev outcomes : Outcomes whole
outcomes = record {
  utc = 9;
  unique_id = 4321;
  warmup = ok tt;
  one_way = ok one_way_metrics;
  round_trip = ok round_trip_metrics;
  combined = ok (one_way_metrics, round_trip_metrics);
  total_duration = 77;
}

abbrev reported : BenchmarkResults whole
reported = add_round_trip_results whole round_trip_metrics (
    add_one_way_results whole one_way_metrics (
      fresh whole (from_args args tcp_socket) outcomes
        (create_transport_config 4321 (from_args args tcp_socket))))

run-HasMeasured_example :
    HasMeasured whole tcp_socket reported
    × (validate_core_availability (some 2) (from_args args tcp_socket) ≡ ok tt)
unfolding run validate_core_availability from_args
run-HasMeasured_example = run-HasMeasured whole (some 2) true args tcp_socket outcomes reported refl

abbrev runs : TestConfig → Reported whole
runs config = elim (is_shm config.mechanism) [
  | true ↦ err (test_failed (120 ∷ []))
  | false ↦ run whole (some 2) false config outcomes
]

abbrev text : Fault → List ℕ
text (test_failed t) = t
text _ = []

run_suite-Complete_example :
    (run_suite whole 5 text runs args
      ≡ ok (map (result_of whole 5 text runs args) (expand_all (tcp_socket ∷ shared_memory ∷ []))))
    × (contains_all (expand_all (tcp_socket ∷ shared_memory ∷ [])) ≡ false)
    × ((m : IpcMechanism) (e : Fault)
        → runs (from_args args m) ≡ err e
        → (result_of whole 5 text runs args m).status ≡ failure (text e))
run_suite-Complete_example = run_suite-Complete whole 5 text runs args refl

abbrev strict : Args
strict = record args { continue_on_error = false }
