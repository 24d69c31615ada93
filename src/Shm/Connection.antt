-- ===== src/Shm/Connection.antt =====
-- `SharedMemoryConnection` of src/ipc/shared_memory.rs: the loops that retry on the ring buffer. A
-- call is a list of the buffers that its attempts find, each with what the clock gives.
pub mod Retries
mod Tests
use rusty_comms.Prelude.{
  ℕ, ◌*◌, Bool, true, false, List, [], ◌∷◌, some, none, length, ltb, leb, if◌then◌else◌, Result, ok,
  err, Run, running, crashed, returned,
}
use rusty_comms.Ipc.Message.{Message, stamp, timestamp_offset}
use rusty_comms.Ipc.Bincode.{Bincode, to_bytes, from_bytes}
use rusty_comms.Shm.Ring.{SharedMemoryRingBuffer, write_data, read_data}

pub data Role : Type 0 where
  server client : Role

pub data Fault : Type 0 where
  peer_timeout backpressure_timeout receive_timeout : Fault
  serialize_failed deserialize_failed : Fault

-- The flag that the role waits for.
unfoldable pub peer_is_ready : Role → SharedMemoryRingBuffer → Bool
peer_is_ready server r = r.client_ready
peer_is_ready client r = r.server_ready

unfoldable pub mark_ready : Role → SharedMemoryRingBuffer → SharedMemoryRingBuffer
mark_ready server r = record r { server_ready = true }
mark_ready client r = record r { client_ready = true }

unfoldable pub wait_for_peer : ℕ → Role → List (SharedMemoryRingBuffer × ℕ) → Run Fault (Unit {0})
wait_for_peer timeout role [] = running
wait_for_peer timeout role ((r, elapsed) ∷ polls) =
    let rest = wait_for_peer timeout role polls in
    if peer_is_ready role r
    then returned (ok tt)
    else if ltb timeout elapsed
    then returned (err peer_timeout)
    else rest

-- An attempt finds a buffer, stamps the message with `now`, and reads the time elapsed if it fails.
pub record Attempt : Type 0 where
  pub ring : SharedMemoryRingBuffer
  pub now : ℕ
  pub elapsed : ℕ

abbrev pub five_seconds : ℕ
five_seconds = 5 * 1_000_000_000

-- `if message_bytes.len() >= ts_offset.end`
abbrev pub restamp : ℕ → List ℕ → List ℕ
restamp now bs =
    if leb 16 (length bs)
    then (elim (stamp (some timestamp_offset) now bs) [ some stamped ↦ stamped | none ↦ bs ])
    else bs

-- The result says whether an attempt has found the buffer full.
unfoldable pub send_loop : List Attempt → List ℕ → Bool → Run Fault (Bool × SharedMemoryRingBuffer)
send_loop [] bs backpressure_detected = running
send_loop (a ∷ attempts) bs backpressure_detected =
    let stamped = restamp a.now bs in
    let rest = send_loop attempts stamped true in
    elim (write_data a.ring stamped) [
      | ok r ↦ returned (ok (backpressure_detected, r))
      | err _ ↦ if ltb five_seconds a.elapsed then returned (err backpressure_timeout) else rest
    ]

module _ (codec : Bincode) where
  unfoldable pub send_message : List Attempt → Message → Run Fault (Bool × SharedMemoryRingBuffer)
  send_message attempts m = elim (to_bytes codec m) [
    | err _ ↦ returned (err serialize_failed)
    | ok bs ↦ send_loop attempts bs false
  ]

  -- Every error of the read is retried.
  unfoldable pub receive_message :
      List (SharedMemoryRingBuffer × ℕ) → Run Fault (Message × SharedMemoryRingBuffer)
  receive_message [] = running
  receive_message ((r, elapsed) ∷ attempts) =
      let rest = receive_message attempts in
      elim (read_data r) [
        | err _ ↦ if ltb five_seconds elapsed then returned (err receive_timeout) else rest
        | ok (bs, r') ↦ elim (from_bytes codec bs) [
          | err _ ↦ returned (err deserialize_failed)
          | ok m ↦ returned (ok (m, r'))
        ]
      ]
