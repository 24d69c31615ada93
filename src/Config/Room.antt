-- ===== src/Config/Room.antt =====
-- The configured size of a shared-memory segment and the messages of the test that it is for.
use rusty_comms.Prelude.{
  ℕ, ◌+◌, ◌*◌, ◌%◌, ◌^◌, ◌≤◌, ◌≡◌, max, refl, Bool, true, false, none, List, [], ◌∷◌, length, arith,
  ok, usize_mod,
}
use rusty_comms.Ipc.Message.{Message, MessageType, IsMessage}
use rusty_comms.Ipc.Bincode.{Bincode, wire, length-wire}
use rusty_comms.Results.Record.{shared_memory}
use rusty_comms.Shm.Ring.{SharedMemoryRingBuffer}
use rusty_comms.Shm.Ring as Ring
use rusty_comms.Shm.Ring.Fifo.{Holds}
use rusty_comms.Shm.Ring.Refine.{new-Holds}
use rusty_comms.Shm.Transport.{
  Transport, Host, returned, start_server_blocking, start_client_blocking, poll, send_blocking,
  receive_blocking,
}
use rusty_comms.Shm.Transport.Exchange.{
  CanStart, Carries, send_blocking-Carries, receive_blocking-Carries,
}
use rusty_comms.Config.{
  TestConfig, TransportConfig, default_buffer_size, buffer_size_of, get_msg_count_blocking,
  create_transport_config_blocking, unique_port,
}

-- Setting the ready flags leaves the messages.
ready-Holds :
    (server client : Bool) {r : SharedMemoryRingBuffer} {q : List (List ℕ)}
    → Holds r q
    → Holds (record r { server_ready = server; client_ready = client }) q
unfolding Ring.available_read_data
ready-Holds server client h = record {
  valid = record {
    storage = h.valid.storage;
    nonempty = h.valid.nonempty;
    small = h.valid.small;
    read_in = h.valid.read_in;
    write_in = h.valid.write_in;
  };
  bytes = h.bytes;
  sized = h.sized;
}

segment_size :
    (config : TestConfig)
    → config.mechanism ≡ shared_memory
    → config.buffer_size ≡ none
    → config.message_size ≤ 2 ^ 31
    → buffer_size_of (get_msg_count_blocking config) config
      ≡ max 65536 ((config.message_size + 64) * 2)
unfolding buffer_size_of default_buffer_size
segment_size config shm chosen small = rw (chosen, shm, mod-small) refl
  where
    mod-small :
        (config.message_size + 64) % usize_mod * 2 % usize_mod ≡ (config.message_size + 64) * 2
    mod-small = omega arith

blocking_config :
    (id : ℕ) (config : TestConfig)
    → config.mechanism ≡ shared_memory
    → create_transport_config_blocking id config
      ≡ ok (record {
        buffer_size = buffer_size_of (get_msg_count_blocking config) config;
        port = unique_port id config.port;
        max_connections = 1;
        message_queue_depth = 100;
        pmq_priority = config.pmq_priority;
      })
unfolding create_transport_config_blocking
blocking_config id config shm = rw (shm, create_transport_config_blocking) refl

module _ (codec : Bincode)
    (longer : (p : List ℕ) (t : MessageType) → length (codec.rest p t) ≡ 12 + length p) where
  length-stamped :
      (m : Message) (now : ℕ)
      → length (wire codec (record m { timestamp = now })) ≡ 28 + length m.payload
  length-stamped m now =
      omega
        (arith, length-wire codec (record m { timestamp = now }), longer m.payload m.message_type)

  delivered :
      (size : ℕ) (client server : Transport) (r : SharedMemoryRingBuffer) (m : Message) (now : ℕ)
      → size ≤ 2 ^ 31
      → r.capacity ≡ max 65536 ((size + 64) * 2)
      → Holds r []
      → CanStart true client
      → CanStart true server
      → length m.payload ≤ size
      → IsMessage (record m { timestamp = now })
      → (r' : SharedMemoryRingBuffer) × (r'' : SharedMemoryRingBuffer) × (send_blocking codec true
            []
            ((r, now) ∷ [])
            m
            client
          ≡ returned (ok r'))
        × (receive_blocking codec true [] (r' ∷ []) server
            ≡ returned (ok (record m { timestamp = now; receive_time_ns = 0 }, r'')))
        × Carries codec r'' []
  delivered size client server r m now small capacity empty c s fits valid =
      let (r', sent, held) =
        send_blocking-Carries codec true [] client [] r now m [] c tt empty
          (omega (arith, length-stamped m 0)) (omega (arith, length-stamped m now, capacity)) in
      let (r'', got, left) =
        receive_blocking-Carries codec true [] server [] r' (record m { timestamp = now }) [] s tt
          held valid in
      (r', r'', sent, got, left)

  -- A blocking shared-memory test without a buffer size of its own, whose messages have at most 2 GiB:
  -- the segment that the server creates with the test's transport configuration takes a message
  -- of the test's size from the client at once, and the server receives it complete, with the time
  -- at which it was written.
  pub configured_pair :
      (id : ℕ) (config : TestConfig) (name : List ℕ) (client server : Transport) (host : Host)
      (elapsed now : ℕ) (m : Message)
      → config.mechanism ≡ shared_memory
      → config.buffer_size ≡ none
      → config.message_size ≤ 2 ^ 31
      → length m.payload ≤ config.message_size
      → IsMessage (record m { timestamp = now })
      → (tc : TransportConfig) × (client' : Transport) × (h : Host) × (r' : SharedMemoryRingBuffer)
        × (r'' : SharedMemoryRingBuffer) × (create_transport_config_blocking id config ≡ ok tc)
        × (start_client_blocking
              ((true, elapsed) ∷ [])
              name
              (client, (start_server_blocking true tc.buffer_size name (server, host)).2)
            ≡ returned (ok (client', h)))
        × (send_blocking codec true [] ((h.ring, now) ∷ []) m client' ≡ returned (ok r'))
        × (receive_blocking codec true []
              (r' ∷ [])
              (start_server_blocking true tc.buffer_size name (server, host)).1
            ≡ returned (ok (record m { timestamp = now; receive_time_ns = 0 }, r'')))
        × Carries codec r'' []
  unfolding start_client_blocking start_server_blocking poll Ring.new buffer_size_of
  configured_pair id config name client server host elapsed now m shm chosen small fits valid =
      let size = buffer_size_of (get_msg_count_blocking config) config in
      let e = segment_size config shm chosen small in
      let r = record (Ring.new size) { server_ready = true; client_ready = true } in
      let (r', r'', sent, got, left) =
        delivered config.message_size
          (record { attached = true; is_server = false; shared_memory_name = name })
          (record { attached = true; is_server = true; shared_memory_name = name }) r m now small e
          (ready-Holds true true (new-Holds size (omega (arith, e)) (omega (arith, e))))
          (refl, refl) (refl, refl) fits valid in
      (_, _, _, r', r'', blocking_config id config shm, refl, sent, got, left)
