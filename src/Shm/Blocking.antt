-- ===== src/Shm/Blocking.antt =====
-- `write_data_blocking` and `read_data_blocking` of src/ipc/shared_memory_blocking.rs. Both hold
-- the process-shared mutex except inside `pthread_cond_wait`, so a call is a sequence of critical
-- sections: one after the lock and one after each wake-up, spurious ones included.
pub mod Attempts
pub mod System
use rusty_comms.Prelude.{
  ℕ, Bool, true, false, ◌&&◌, Option, none, some, List, [], ◌∷◌, ltb, leb, ◌==◌, if◌then◌else◌,
  length, sub_usize, Result, ok, err,
}
use rusty_comms.Bytes.Endian.{to_le_bytes}
use rusty_comms.Bytes.Copy.{copy_in}
use rusty_comms.Ipc.Message.{stamp}
use rusty_comms.Shm.Ring.{
  SharedMemoryRingBuffer, available_write_space, available_read_data, required_space, store_bulk,
  peek_len, payload_bulk, consume,
}

pub data BlockingFault : Type 0 where
  connection_closed : BlockingFault
  invalid_data_length : ℕ → ℕ → BlockingFault

-- How a critical section ends: in `pthread_cond_wait`, in a return, or in a panic.
pub data Progress (A : Type 0) : Type 0 where
  waiting : Progress A
  finished : Result BlockingFault A → Progress A
  panicked : Progress A

unfoldable pub write_attempt :
    SharedMemoryRingBuffer → List ℕ → Option (ℕ × ℕ) → ℕ → Progress SharedMemoryRingBuffer
write_attempt r bs ts_offset now =
    if ltb (available_write_space r) (required_space bs)
    then (if r.shutdown then finished (err connection_closed) else waiting)
    else (elim (stamp ts_offset now bs) [
      | none ↦ panicked
      | some stamped ↦ finished (ok (store_bulk r stamped))
    ])

unfoldable pub read_attempt : SharedMemoryRingBuffer → Progress (List ℕ × SharedMemoryRingBuffer)
read_attempt r =
    if ltb (available_read_data r) 4
    then (if r.shutdown then finished (err connection_closed) else waiting)
    else if ltb r.capacity (peek_len r)
    then finished (err (invalid_data_length (peek_len r) r.capacity))
    else finished (ok (payload_bulk r (peek_len r), consume r (peek_len r)))

-- The whole call over the buffers, and the clock, that its critical sections find.
unfoldable pub write_data_blocking :
    List (SharedMemoryRingBuffer × ℕ) → List ℕ → Option (ℕ × ℕ) → Progress SharedMemoryRingBuffer
write_data_blocking [] bs ts_offset = waiting
write_data_blocking ((r, now) ∷ wakes) bs ts_offset = elim (write_attempt r bs ts_offset now) [
  | waiting ↦ write_data_blocking wakes bs ts_offset
  | finished o ↦ finished o
  | panicked ↦ panicked
]

unfoldable pub read_data_blocking :
    List SharedMemoryRingBuffer → Progress (List ℕ × SharedMemoryRingBuffer)
read_data_blocking [] = waiting
read_data_blocking (r ∷ wakes) = elim (read_attempt r) [
  | waiting ↦ read_data_blocking wakes
  | finished o ↦ finished o
  | panicked ↦ panicked
]

-- `close_blocking` on a buffer: the flag that the waiters check when they are woken.
unfoldable pub shut : SharedMemoryRingBuffer → SharedMemoryRingBuffer
shut r = record r { shutdown = true }
