-- ===== src/Config.antt =====
-- `create_transport_config_internal` of src/benchmark.rs and src/benchmark_blocking.rs: the port, the
-- sizes and the depth of a test's transport. The two files differ in the message count that a missing
-- one stands for and in the numbers of connections and queue slots. The unique names, which only carry
-- a random identifier, are left out.
pub mod Port
pub mod Room
mod Tests
use rusty_comms.Prelude.{
  ℕ, ◌+◌, ◌-◌, ◌*◌, ◌%◌, ◌^◌, max, Bool, true, false, ◌&&◌, Option, none, some, usize_mod, ◌==◌,
  if◌then◌else◌, Result, ok, err,
}
use rusty_comms.Results.Record.{
  IpcMechanism, unix_domain_socket, shared_memory, tcp_socket, posix_message_queue, all,
}

-- `BenchmarkConfig` with the mechanism of the runner, without the host, the percentiles and the delay.
pub record TestConfig : Type 0 where
  pub mechanism : IpcMechanism
  pub message_size : ℕ
  pub msg_count : Option ℕ
  pub duration : Option ℕ
  pub concurrency : ℕ
  pub port : ℕ
  pub buffer_size : Option ℕ
  pub pmq_priority : ℕ
  pub one_way : Bool
  pub round_trip : Bool
  pub warmup_iterations : ℕ
  pub include_first_message : Bool
  pub server_affinity : Option ℕ
  pub client_affinity : Option ℕ

pub record TransportConfig : Type 0 where
  pub buffer_size : ℕ
  pub port : ℕ
  pub max_connections : ℕ
  pub message_queue_depth : ℕ
  pub pmq_priority : ℕ

pub data Fault : Type 0 where
  invalid_port : Fault

abbrev pub or_else : Option ℕ → ℕ → ℕ
or_else none d = d
or_else (some n) d = n

-- `get_msg_count` of the asynchronous runner, and of the blocking one.
unfoldable pub get_msg_count : TestConfig → ℕ
get_msg_count config = or_else config.msg_count 10000

unfoldable pub get_msg_count_blocking : TestConfig → ℕ
get_msg_count_blocking config = or_else config.msg_count 0

-- `unique_id` is the 128 bits of the identifier, and `port` a `u16`; `as u16` keeps the low 16 bits.
unfoldable pub unique_port : ℕ → ℕ → ℕ
unique_port unique_id port = ((max port 1 - 1 + unique_id % 1000) % 65_535 + 1) % 2 ^ 16

abbrev pub message_overhead : ℕ
message_overhead = 64

abbrev pub is_shm : IpcMechanism → Bool
is_shm shared_memory = true
is_shm _ = false

abbrev pub is_pmq : IpcMechanism → Bool
is_pmq posix_message_queue = true
is_pmq _ = false

abbrev pub is_tcp : IpcMechanism → Bool
is_tcp tcp_socket = true
is_tcp _ = false

-- `usize` sums and products wrap.
abbrev pub with_overhead : ℕ → ℕ
with_overhead message_size = (message_size + message_overhead) % usize_mod

unfoldable pub default_buffer_size : ℕ → TestConfig → ℕ
default_buffer_size msg_count config =
    if is_pmq config.mechanism
    then 8192
    else if is_shm config.mechanism
    then max 65536 (with_overhead config.message_size * 2 % usize_mod)
    else (elim config.duration [
      | some _ ↦ 1_073_741_824
      | none ↦ msg_count * with_overhead config.message_size % usize_mod
    ])

unfoldable pub buffer_size_of : ℕ → TestConfig → ℕ
buffer_size_of msg_count config = elim config.buffer_size [
  | some size ↦ size
  | none ↦ default_buffer_size msg_count config
]

unfoldable pub create_transport_config : ℕ → TestConfig → TransportConfig
create_transport_config unique_id config = record {
  buffer_size = buffer_size_of (get_msg_count config) config;
  port = unique_port unique_id config.port;
  max_connections = max config.concurrency 16;
  message_queue_depth = 10;
  pmq_priority = config.pmq_priority;
}

unfoldable pub create_transport_config_blocking : ℕ → TestConfig → Result Fault TransportConfig
create_transport_config_blocking unique_id config =
    if is_tcp config.mechanism && config.port == 0
    then err invalid_port
    else ok (record {
      buffer_size = buffer_size_of (get_msg_count_blocking config) config;
      port = unique_port unique_id config.port;
      max_connections = 1;
      message_queue_depth = if is_pmq config.mechanism then 10 else 100;
      pmq_priority = config.pmq_priority;
    })
