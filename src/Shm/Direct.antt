-- ===== src/Shm/Direct.antt =====
-- `BlockingSharedMemoryDirect` of src/ipc/shared_memory_direct.rs: one message slot in shared
-- memory under a process-shared mutex and condition variable. A call is a sequence of critical
-- sections; what the system calls return is an argument.
pub mod Slot
pub mod System
pub mod Tests
use rusty_comms.Prelude.{
  ℕ, ◌+◌, ◌%◌, ◌^◌, Bool, true, false, not, ◌&&◌, Option, none, some, List, [], ◌∷◌, ltb, ◌==◌,
  if◌then◌else◌, length, take, min, Result, ok, err,
}
use rusty_comms.Bytes.Copy.{copy_in, copy_out}
use rusty_comms.Ipc.Message.{Message, as_u32, from_u32}

abbrev pub max_payload_size : ℕ
max_payload_size = 8192

-- The segment without its mutex and condition variable.
pub record RawSharedMessage : Type 0 where
  pub id : ℕ
  pub timestamp : ℕ
  pub payload_len : ℕ
  pub payload : List ℕ
  pub message_type : ℕ
  pub ready : ℕ
  pub client_ready : ℕ

pub data Fault : Type 0 where
  payload_too_large : ℕ → Fault
  receiver_timeout client_timeout : Fault
  cond_failed : ℕ → Fault

-- `init` resets the flags and the length, and leaves the rest of the segment.
unfoldable pub init : RawSharedMessage → RawSharedMessage
init raw = record raw { ready = 0; client_ready = 0; payload_len = 0 }

-- `start_client_blocking`, once the segment is open.
unfoldable pub client_arrives : RawSharedMessage → RawSharedMessage
client_arrives raw = record raw { client_ready = 1 }

-- Where a call stands after a critical section: asleep on the condition variable, or returned.
pub data Progress (A : Type 0) : Type 0 where
  waiting : Progress A
  finished : Result Fault A → Progress A

-- The writes of a send into a free slot, at the time `now`.
unfoldable pub fill : RawSharedMessage → ℕ → Message → RawSharedMessage
fill raw now m =
    let len = min (length m.payload) max_payload_size in
    record raw {
      id = m.id;
      timestamp = now;
      message_type = as_u32 m.message_type;
      payload_len = len;
      payload = copy_in raw.payload 0 (take len m.payload);
      ready = 1;
    }

-- Past the wait: the size test, and the writes.
unfoldable pub deliver : RawSharedMessage → ℕ → Message → Result Fault RawSharedMessage
deliver raw now m =
    if ltb max_payload_size (length m.payload)
    then err (payload_too_large (length m.payload))
    else ok (fill raw now m)

-- What `pthread_cond_timedwait` returns: 0, ETIMEDOUT, or another error.
pub data Wake : Type 0 where
  woken timed_out : Wake
  failed : ℕ → Wake

-- `send_blocking` on the slot that it finds under the lock, and then at each wake-up.
unfoldable pub send_blocking :
    RawSharedMessage → List (Wake × RawSharedMessage) → ℕ → Message → Progress RawSharedMessage
send_blocking raw [] now m = if raw.ready == 1 then waiting else finished (deliver raw now m)
send_blocking raw ((w, raw') ∷ wakes) now m =
    let rest = send_blocking raw' wakes now m in
    if raw.ready == 1
    then (elim w [
      | woken ↦ rest
      | timed_out ↦ finished (err receiver_timeout)
      | failed code ↦ finished (err (cond_failed code))
    ])
    else finished (deliver raw now m)

-- The clock inside the mutex, when `precise_timestamps` asks for it, and after the unlock.
pub record Clock : Type 0 where
  pub inside : ℕ
  pub outside : ℕ

unfoldable pub receive_time : Bool → Clock → ℕ
receive_time precise clock =
    let inner = if precise then clock.inside else 0 in
    if not (inner == 0) then inner else clock.outside

-- The reads of a receive from a full slot, and the slot that it leaves free.
unfoldable pub collect : Bool → Clock → RawSharedMessage → Message × RawSharedMessage
collect precise clock raw = (
  record {
    id = raw.id;
    timestamp = raw.timestamp;
    payload = copy_out raw.payload 0 raw.payload_len;
    message_type = from_u32 raw.message_type;
    receive_time_ns = receive_time precise clock;
  },
  record raw { ready = 0 },
)

-- `receive_blocking` past the lock: the slot at the lock, and then at each wake-up (`some`) or failed
-- wait (`none`).
unfoldable pub receive_slot :
    Bool
    → Clock
    → RawSharedMessage
    → List (Option ℕ × RawSharedMessage)
    → Progress (Message × RawSharedMessage)
receive_slot precise clock raw [] =
    if raw.ready == 0 then waiting else finished (ok (collect precise clock raw))
receive_slot precise clock raw ((failure, raw') ∷ wakes) =
    let rest = receive_slot precise clock raw' wakes in
    if raw.ready == 0
    then (elim failure [ none ↦ rest | some code ↦ finished (err (cond_failed code)) ])
    else finished (ok (collect precise clock raw))

-- A server waits first until the client is there; `arrives` says whether it comes within 30 s.
unfoldable pub receive_blocking :
    Bool
    → Bool
    → Bool
    → Clock
    → RawSharedMessage
    → List (Option ℕ × RawSharedMessage)
    → Progress (Message × RawSharedMessage)
receive_blocking is_server arrives precise clock raw wakes =
    if is_server && (raw.client_ready == 0 && not arrives)
    then finished (err client_timeout)
    else receive_slot precise clock raw wakes
