-- ===== src/Results/Record.antt =====
-- `MessageLatencyRecord` of src/results.rs, and the mechanisms of src/cli.rs that it names.
use rusty_comms.Prelude.{
  ℕ, ◌%◌, ◌^◌, Bool, true, false, ◌&&◌, Option, none, some, List, [], ◌++◌, ltb, if◌then◌else◌,
}
use rusty_comms.Text.{codes, decimal}
use rusty_comms.Metrics.{LatencyType, one_way, round_trip}

pub data IpcMechanism : Type 0 where
  unix_domain_socket shared_memory tcp_socket posix_message_queue all : IpcMechanism

-- `fmt`
unfoldable pub name : IpcMechanism → List ℕ
name unix_domain_socket = codes "Unix Domain Socket"
name shared_memory = codes "Shared Memory"
name tcp_socket = codes "TCP Socket"
name posix_message_queue = codes "POSIX Message Queue"
name all = codes "All Mechanisms"

pub record MessageLatencyRecord : Type 0 where
  pub timestamp_ns : ℕ
  pub message_id : ℕ
  pub mechanism : IpcMechanism
  pub message_size : ℕ
  pub one_way_latency_ns : Option ℕ
  pub round_trip_latency_ns : Option ℕ

-- `as_nanos() as u64`
abbrev pub nanos : ℕ → ℕ
nanos latency = latency % 2 ^ 64

abbrev pub one_way_of : LatencyType → ℕ → Option ℕ
one_way_of one_way latency_ns = some latency_ns
one_way_of round_trip latency_ns = none

abbrev pub round_trip_of : LatencyType → ℕ → Option ℕ
round_trip_of one_way latency_ns = none
round_trip_of round_trip latency_ns = some latency_ns

-- The latency is in nanoseconds.
unfoldable pub new : ℕ → IpcMechanism → ℕ → LatencyType → ℕ → ℕ → MessageLatencyRecord
new message_id mechanism message_size latency_type latency send_timestamp_ns = record {
  timestamp_ns = send_timestamp_ns;
  message_id = message_id;
  mechanism = mechanism;
  message_size = message_size;
  one_way_latency_ns = one_way_of latency_type (nanos latency);
  round_trip_latency_ns = round_trip_of latency_type (nanos latency);
}

unfoldable pub new_combined : ℕ → IpcMechanism → ℕ → ℕ → ℕ → ℕ → MessageLatencyRecord
new_combined message_id mechanism message_size one_way_latency round_trip_latency
      send_timestamp_ns =
    record {
      timestamp_ns = send_timestamp_ns;
      message_id = message_id;
      mechanism = mechanism;
      message_size = message_size;
      one_way_latency_ns = some (nanos one_way_latency);
      round_trip_latency_ns = some (nanos round_trip_latency);
    }

abbrev pub is_some {ℓ} : {A : Type ℓ} → Option A → Bool
is_some none = false
is_some (some _) = true

unfoldable pub merge : MessageLatencyRecord → MessageLatencyRecord → MessageLatencyRecord
merge r other = record r {
  timestamp_ns =
      if ltb other.timestamp_ns r.timestamp_ns then other.timestamp_ns else r.timestamp_ns;
  one_way_latency_ns =
      if is_some other.one_way_latency_ns then other.one_way_latency_ns else r.one_way_latency_ns;
  round_trip_latency_ns =
      if is_some other.round_trip_latency_ns
      then other.round_trip_latency_ns
      else r.round_trip_latency_ns;
}

unfoldable pub is_combined : MessageLatencyRecord → Bool
is_combined r = is_some r.one_way_latency_ns && is_some r.round_trip_latency_ns

abbrev pub field : Option ℕ → List ℕ
field none = []
field (some latency) = decimal latency

unfoldable pub to_csv_record : MessageLatencyRecord → List ℕ
to_csv_record r =
    decimal r.timestamp_ns
    ++ (codes ","
        ++ (decimal r.message_id
            ++ (codes ","
                ++ (name r.mechanism
                    ++ (codes ","
                        ++ (decimal r.message_size
                            ++ (codes ","
                                ++ (field r.one_way_latency_ns
                                    ++ (codes "," ++ field r.round_trip_latency_ns)))))))))
