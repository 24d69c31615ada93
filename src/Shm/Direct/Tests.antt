-- ===== src/Shm/Direct/Tests.antt =====
-- A run of one message through a slot, and the theorems at it.
use rusty_comms.Prelude.{ℕ, refl, [], ◌∷◌, replicate, length-replicate}
use rusty_comms.Ipc.Message.{Message, ping}
use rusty_comms.Shm.Direct.{RawSharedMessage, init, fill, deliver, send_blocking, Clock}
use rusty_comms.Shm.Direct.Slot.{stamped}
use rusty_comms.Shm.Direct.System.{System, Reach, start, later, send, Inv, messages_in_order}

-- Whatever was in the segment before.
abbrev garbage : RawSharedMessage
garbage = record {
  id = 9;
  timestamp = 9;
  payload_len = 9;
  payload = replicate 8192 9;
  message_type = 9;
  ready = 1;
  client_ready = 1;
}

abbrev hello : Message
hello = record {
  id = 4;
  timestamp = 0;
  payload = 1 ∷ 2 ∷ 3 ∷ [];
  message_type = ping;
  receive_time_ns = 0;
}

abbrev full : RawSharedMessage
full = fill (init garbage) 50 hello

abbrev clock : Clock
clock = record { inside = 60; outside = 61 }

abbrev one_sent : System
one_sent = record { slot = full; sent = stamped 50 hello ∷ []; received = [] }

sent_once : Reach garbage one_sent
unfolding send_blocking deliver init
sent_once = later start (send 50 hello refl)

messages_in_order_example : Inv one_sent
messages_in_order_example = messages_in_order (length-replicate {A = ℕ} 8192 9) sent_once
