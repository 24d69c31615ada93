-- ===== src/Shm/Transport/Tests.antt =====
-- The theorems on the shared-memory transport at concrete inputs.
use rusty_comms.Prelude.{◌≡◌, refl, true, false, [], ◌∷◌, arith, ok}
use rusty_comms.Bytes.Endian.{to_le_bytes}
use rusty_comms.Ipc.Message.{Message, as_u32}
use rusty_comms.Ipc.Sample.{fixint, ask}
use rusty_comms.Shm.Ring as Ring
use rusty_comms.Shm.Ring.{SharedMemoryRingBuffer, available_read_data}
use rusty_comms.Shm.Ring.Refine.{new-Holds}
use rusty_comms.Shm.Blocking.{read_attempt}
use rusty_comms.Shm.Transport.{Transport, Host, returned, send_blocking, receive_blocking}
use rusty_comms.Shm.Transport.Exchange.{Carries, send_blocking-Carries, receive_blocking-Carries}

abbrev server : Transport
server = record { attached = true; is_server = true; shared_memory_name = 115 ∷ [] }

abbrev client : Transport
client = record { attached = true; is_server = false; shared_memory_name = 115 ∷ [] }

abbrev segment : SharedMemoryRingBuffer
segment = Ring.new 100

abbrev host : Host
host = record { ring = segment; unlinked = [] }

abbrev stamped : Message
stamped = record ask { timestamp = 50 }

-- One message in a fresh segment.
sends :
    (r' : SharedMemoryRingBuffer) × (send_blocking fixint false [] ((segment, 50) ∷ []) ask client
      ≡ returned (ok r'))
    × Carries fixint r' (stamped ∷ [])
unfolding to_le_bytes as_u32 Ring.new
sends =
    send_blocking-Carries fixint false [] client [] segment 50 ask [] (refl, refl) tt
      (new-Holds 100 (omega arith) (omega arith)) (omega arith) (omega arith)

sent : SharedMemoryRingBuffer
unfolding sends
sent = sends.0

sent-Carries : Carries fixint sent (stamped ∷ [])
unfolding sent
sent-Carries = sends.2

send_blocking-Carries_example :
    (r' : SharedMemoryRingBuffer) × (send_blocking fixint true [] ((segment, 60) ∷ []) ask server
      ≡ returned (ok r'))
    × Carries fixint r' (record ask { timestamp = 60 } ∷ [])
unfolding to_le_bytes as_u32 Ring.new
send_blocking-Carries_example =
    send_blocking-Carries fixint true [] server [] segment 60 ask [] (refl, refl) tt
      (new-Holds 100 (omega arith) (omega arith)) (omega arith) (omega arith)

receive_blocking-Carries_example :
    (r' : SharedMemoryRingBuffer) × (receive_blocking fixint true [] (segment ∷ sent ∷ []) server
      ≡ returned (ok (stamped, r')))
    × Carries fixint r' []
unfolding read_attempt available_read_data Ring.new
receive_blocking-Carries_example =
    receive_blocking-Carries fixint true [] server (segment ∷ []) sent stamped [] (refl, refl)
      (refl, tt) sent-Carries (omega arith)
