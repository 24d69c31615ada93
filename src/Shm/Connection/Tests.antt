-- ===== src/Shm/Connection/Tests.antt =====
-- The theorems on the retry loops at concrete inputs.
use rusty_comms.Prelude.{◌≡◌, false, [], ◌∷◌, arith, ok, returned}
use rusty_comms.Bytes.Endian.{to_le_bytes}
use rusty_comms.Ipc.Message.{as_u32}
use rusty_comms.Ipc.Sample.{fixint, ask}
use rusty_comms.Shm.Ring as Ring
use rusty_comms.Shm.Ring.{SharedMemoryRingBuffer}
use rusty_comms.Shm.Ring.Refine.{new-Holds}
use rusty_comms.Shm.Transport.Exchange.{Carries}
use rusty_comms.Shm.Connection.{Attempt, send_message}
use rusty_comms.Shm.Connection.Retries.{send_message-Carries}

-- A buffer without room for the message, and one with room.
abbrev tight : Attempt
tight = record { ring = Ring.new 20; now = 40; elapsed = 3 }

abbrev roomy : Attempt
roomy = record { ring = Ring.new 100; now = 50; elapsed = 9 }

-- The same message in a fresh buffer.
sends :
    (r' : SharedMemoryRingBuffer) × (send_message fixint (roomy ∷ []) ask
      ≡ returned (ok (false, r')))
    × Carries fixint r' (record ask { timestamp = 50 } ∷ [])
unfolding to_le_bytes as_u32 Ring.new
sends =
    send_message-Carries fixint [] roomy ask [] tt (new-Holds 100 (omega arith) (omega arith))
      (omega arith) (omega arith)

sent : SharedMemoryRingBuffer
unfolding sends
sent = sends.0

sent-Carries : Carries fixint sent (record ask { timestamp = 50 } ∷ [])
unfolding sent
sent-Carries = sends.2
