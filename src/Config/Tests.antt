-- ===== src/Config/Tests.antt =====
-- The theorems on configurations at concrete inputs.
use rusty_comms.Prelude.{
  ℕ, ◌≡◌, refl, arith, none, some, [], ◌∷◌, ok, true, false, length, length-append, ◌+◌, ◌++◌, List,
}
use rusty_comms.Bytes.Endian.{to_le_bytes, length-to_le_bytes}
use rusty_comms.Ipc.Message.{MessageType, as_u32}
use rusty_comms.Ipc.Sample.{fixint, ask, payload_and_type}
use rusty_comms.Results.Record.{shared_memory}
use rusty_comms.Shm.Ring as Ring
use rusty_comms.Shm.Ring.{SharedMemoryRingBuffer}
use rusty_comms.Shm.Transport.{
  Transport, Host, returned, start_server_blocking, start_client_blocking, send_blocking,
  receive_blocking,
}
use rusty_comms.Shm.Transport.Exchange.{Carries}
use rusty_comms.Config.{TestConfig, TransportConfig, create_transport_config_blocking}
use rusty_comms.Config.Room.{configured_pair}

abbrev config : TestConfig
config = record {
  mechanism = shared_memory;
  message_size = 2;
  msg_count = some 10;
  duration = none;
  concurrency = 1;
  port = 8080;
  buffer_size = none;
  pmq_priority = 0;
  one_way = true;
  round_trip = false;
  warmup_iterations = 0;
  include_first_message = true;
  server_affinity = none;
  client_affinity = none;
}

longer : (p : List ℕ) (t : MessageType) → length (payload_and_type p t) ≡ 12 + length p
longer p t = omega (
  arith,
  length-append (to_le_bytes 8 (length p)) (p ++ to_le_bytes 4 (as_u32 t)),
  length-append p (to_le_bytes 4 (as_u32 t)),
  length-to_le_bytes 8 (length p),
  length-to_le_bytes 4 (as_u32 t),
)

abbrev idle : Transport
idle = record { attached = false; is_server = false; shared_memory_name = [] }

abbrev host : Host
host = record { ring = Ring.new 1; unlinked = [] }

configured_pair_example :
    (tc : TransportConfig) × (client' : Transport) × (h : Host) × (r' : SharedMemoryRingBuffer)
    × (r'' : SharedMemoryRingBuffer) × (create_transport_config_blocking 4321 config ≡ ok tc)
    × (start_client_blocking
          ((true, 5) ∷ [])
          (115 ∷ [])
          (idle, (start_server_blocking true tc.buffer_size (115 ∷ []) (idle, host)).2)
        ≡ returned (ok (client', h)))
    × (send_blocking fixint true [] ((h.ring, 60) ∷ []) ask client' ≡ returned (ok r'))
    × (receive_blocking fixint true []
          (r' ∷ [])
          (start_server_blocking true tc.buffer_size (115 ∷ []) (idle, host)).1
        ≡ returned (ok (record ask { timestamp = 60; receive_time_ns = 0 }, r'')))
    × Carries fixint r'' []
configured_pair_example =
    configured_pair fixint longer 4321 config (115 ∷ []) idle idle host 5 60 ask refl refl
      (omega arith) (omega arith) (omega arith)
