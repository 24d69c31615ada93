-- ===== src/Suite.antt =====
-- The benchmark of a mechanism, `run` of src/benchmark.rs and src/benchmark_blocking.rs, and that of all
-- mechanisms in src/main.rs. What the tests themselves return is an argument: `Outcomes`.
pub mod Measures
pub mod Continues
mod Tests
use rusty_comms.Prelude.{
  ℕ, Bool, true, false, not, ◌&&◌, Option, none, some, List, [], ◌∷◌, ltb, ◌==◌, leb, if◌then◌else◌,
  Result, ok, err, ◌>>=◌,
}
use rusty_comms.Metrics.{Numeric, PerformanceMetrics}
use rusty_comms.Results.Record.{
  IpcMechanism, unix_domain_socket, shared_memory, tcp_socket, posix_message_queue, all,
}
use rusty_comms.Config.{
  TestConfig, TransportConfig, is_shm, create_transport_config, create_transport_config_blocking,
}
use rusty_comms.Config as Config
use rusty_comms.Report.{
  BenchmarkResults, new, set_failure, add_one_way_results, add_round_trip_results,
}

-- A test's own error is the text that is shown of it.
pub data Fault : Type 0 where
  no_core_ids no_cores : Fault
  invalid_core : ℕ → Fault
  config_failed : Config.Fault → Fault
  test_failed : List ℕ → Fault

-- The arguments of the command line that a benchmark uses.
pub record Args : Type 0 where
  pub mechanisms : List IpcMechanism
  pub message_size : ℕ
  pub msg_count : ℕ
  pub duration : Option ℕ
  pub concurrency : ℕ
  pub one_way : Bool
  pub round_trip : Bool
  pub warmup_iterations : ℕ
  pub buffer_size : Option ℕ
  pub port : ℕ
  pub pmq_priority : ℕ
  pub include_first_message : Bool
  pub server_affinity : Option ℕ
  pub client_affinity : Option ℕ
  pub continue_on_error : Bool

abbrev is_all : IpcMechanism → Bool
is_all all = true
is_all _ = false

abbrev pub contains_all : List IpcMechanism → Bool
contains_all [] = false
contains_all (m ∷ ms) = let rest = contains_all ms in if is_all m then true else rest

-- On Linux.
unfoldable pub expand_all : List IpcMechanism → List IpcMechanism
expand_all ms =
    if contains_all ms
    then unix_domain_socket ∷ shared_memory ∷ tcp_socket ∷ posix_message_queue ∷ []
    else ms

abbrev neither : Args → Bool
neither args = not args.one_way && not args.round_trip

-- `BenchmarkConfig::from_args`, for one of the mechanisms.
unfoldable pub from_args : Args → IpcMechanism → TestConfig
from_args args mechanism = record {
  mechanism = mechanism;
  message_size = args.message_size;
  msg_count = elim args.duration [ none ↦ some args.msg_count | some _ ↦ none ];
  duration = args.duration;
  concurrency = args.concurrency;
  port = args.port;
  buffer_size = args.buffer_size;
  pmq_priority = args.pmq_priority;
  one_way = if neither args then true else args.one_way;
  round_trip = if neither args then true else args.round_trip;
  warmup_iterations = args.warmup_iterations;
  include_first_message = args.include_first_message;
  server_affinity = args.server_affinity;
  client_affinity = args.client_affinity;
}

abbrev pub in_range : ℕ → Option ℕ → Result Fault (Unit {0})
in_range cores none = ok tt
in_range cores (some core) = if leb cores core then err (invalid_core core) else ok tt

-- `available_cores` is the number of the cores that were found, if they could be read.
unfoldable pub validate_core_availability : Option ℕ → TestConfig → Result Fault (Unit {0})
validate_core_availability none config = err no_core_ids
validate_core_availability (some cores) config =
    if cores == 0
    then err no_cores
    else in_range cores config.server_affinity >>= λ _. in_range cores config.client_affinity

module _ (num : Numeric) where
  -- The outcomes of the warm-up and of the tests, with the time and the identifier that the run uses.
  pub record Outcomes : Type 0 where
    pub utc : ℕ
    pub unique_id : ℕ
    pub warmup : Result Fault (Unit {0})
    pub one_way : Result Fault (PerformanceMetrics num)
    pub round_trip : Result Fault (PerformanceMetrics num)
    pub combined : Result Fault (PerformanceMetrics num × PerformanceMetrics num)
    pub total_duration : ℕ

  abbrev pub Reported : Type 0
  Reported = Result Fault (BenchmarkResults num)

  abbrev pub warmed : TestConfig → Outcomes → Result Fault (Unit {0})
  warmed config o = if ltb 0 config.warmup_iterations then o.warmup else ok tt

  abbrev pub fresh : TestConfig → Outcomes → TransportConfig → BenchmarkResults num
  fresh config o transport =
      new num o.utc config.mechanism config.message_size transport.buffer_size config.concurrency
        config.msg_count config.duration config.warmup_iterations config.one_way config.round_trip

  abbrev pub with_one_way : TestConfig → Outcomes → BenchmarkResults num → Reported
  with_one_way config o r =
      if config.one_way then (o.one_way >>= λ m. ok (add_one_way_results num m r)) else ok r

  abbrev pub with_round_trip : Bool → Outcomes → BenchmarkResults num → Reported
  with_round_trip runs o r =
      if runs then (o.round_trip >>= λ m. ok (add_round_trip_results num m r)) else ok r

  abbrev pub with_combined : Outcomes → BenchmarkResults num → Reported
  with_combined o r =
      o.combined >>= λ ms. ok (add_round_trip_results num ms.1 (add_one_way_results num ms.0 r))

  -- `BenchmarkRunner::run`. `combined_streaming` is what the results manager says.
  unfoldable pub run : Option ℕ → Bool → TestConfig → Outcomes → Reported
  run cores combined_streaming config o = validate_core_availability cores config >>= λ _.
      warmed config o >>= λ _.
      (if combined_streaming && (config.one_way && config.round_trip)
        then with_combined o (fresh config o (create_transport_config o.unique_id config))
        else with_one_way config o (fresh config o (create_transport_config o.unique_id config))
          >>= λ r. with_round_trip config.round_trip o r)

  abbrev pub configured : Result Config.Fault TransportConfig → Result Fault TransportConfig
  configured (ok transport) = ok transport
  configured (err e) = err (config_failed e)

  abbrev pub timed : Outcomes → BenchmarkResults num → BenchmarkResults num
  timed o r = record r { test_duration = o.total_duration }

  -- `BlockingBenchmarkRunner::run`: shared memory has no round-trip test.
  unfoldable pub run_blocking : Option ℕ → TestConfig → Outcomes → Reported
  run_blocking cores config o = validate_core_availability cores config >>= λ _.
      configured (create_transport_config_blocking o.unique_id config) >>= λ transport.
      warmed config o >>= λ _. with_one_way config o (fresh config o transport) >>= λ r.
      with_round_trip (config.round_trip && not (is_shm config.mechanism)) o r >>= λ r'.
      ok (timed o r')

  -- The result of a mechanism whose run has failed; the buffer size is unknown.
  unfoldable pub failed_result : ℕ → (Fault → List ℕ) → TestConfig → Fault → BenchmarkResults num
  failed_result utc to_string config e = set_failure num (to_string e) (
      new num utc config.mechanism config.message_size 0 config.concurrency config.msg_count
        config.duration config.warmup_iterations config.one_way config.round_trip)

  abbrev pub added :
      BenchmarkResults num
      → Result Fault (List (BenchmarkResults num))
      → Result Fault (List (BenchmarkResults num))
  added r (ok rs) = ok (r ∷ rs)
  added r (err e) = err e

  -- The loop over the mechanisms, which both modes share: the results that the manager is given. `runs`
  -- is the run of a mechanism, and `utc` the time at which a failure is recorded.
  unfoldable pub run_mechanisms :
      ℕ
      → (Fault → List ℕ)
      → (TestConfig → Reported)
      → Args
      → List IpcMechanism
      → Result Fault (List (BenchmarkResults num))
  run_mechanisms utc to_string runs args [] = ok []
  run_mechanisms utc to_string runs args (m ∷ ms) =
      let config = from_args args m in
      let rest = run_mechanisms utc to_string runs args ms in
      elim (runs config) [
        | ok r ↦ added r rest
        | err e ↦
            if args.continue_on_error
            then added (failed_result utc to_string config e) rest
            else err e
      ]

  unfoldable pub run_suite :
      ℕ
      → (Fault → List ℕ)
      → (TestConfig → Reported)
      → Args
      → Result Fault (List (BenchmarkResults num))
  run_suite utc to_string runs args =
      run_mechanisms utc to_string runs args (expand_all args.mechanisms)
