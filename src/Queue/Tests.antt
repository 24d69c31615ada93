-- ===== src/Queue/Tests.antt =====
-- The theorems on queues at concrete inputs.
use rusty_comms.Prelude.{ℕ, ◌≡◌, refl, true, some, List, [], ◌∷◌, arith, ok}
use rusty_comms.Bytes.Endian.{to_le_bytes}
use rusty_comms.Ipc.Message.{as_u32}
use rusty_comms.Ipc.Sample.{fixint, ask}
use rusty_comms.Queue.{
  Queue, returned, accepted, full, received, empty, send_blocking, receive_blocking,
}
use rusty_comms.Queue.Exchange.{sent_received}

-- A server's end, on descriptors 3 and 4.
abbrev server : Queue
server = record {
  queue_name_base = 47 ∷ 97 ∷ [];
  send_fd = some 3;
  recv_fd = some 4;
  max_msg_size = 8192;
  max_msg_count = 10;
  is_creator = true;
  priority = 0;
}

sent_received_example :
    (bs : List ℕ) × (send_blocking fixint ((20, full 9) ∷ (30, accepted) ∷ []) ask server
      ≡ returned (ok bs))
    × (receive_blocking fixint (empty ∷ received bs ∷ []) server
        ≡ returned (ok (record ask { timestamp = 30; receive_time_ns = 0 })))
unfolding to_le_bytes as_u32
sent_received_example =
    sent_received fixint ask 30 ((20, full 9) ∷ []) (empty ∷ []) server server refl refl
      (omega arith) (omega arith) (omega arith, tt) (refl, tt)
