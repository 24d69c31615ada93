-- ===== src/Shm/Tests.antt =====
-- Runs of the ring buffer, and its theorems at concrete inputs.
use rusty_comms.Prelude.{ℕ, ◌≡◌, refl, false, true, none, List, [], ◌∷◌, arith, ok, replicate}
use rusty_comms.Bytes.Endian.{to_le_bytes, from_le_bytes}
use rusty_comms.Bytes.Copy.{copy_in, copy_out}
use rusty_comms.Bytes.Circular.{window}
use rusty_comms.Ipc.Message.{stamp}
use rusty_comms.Shm.Ring.{
  SharedMemoryRingBuffer, new, available_write_space, available_read_data, write_bytes, write_bulk,
  read_bytes, read_bulk, publish, store_bulk, write_data, write_data_loop, peek_len, consume,
  read_data,
}
use rusty_comms.Shm.Ring.Space.{IsValid}
use rusty_comms.Shm.Ring.Equiv.{write_data-eq-loop}
use rusty_comms.Shm.Ring.Fifo.{Holds}
use rusty_comms.Shm.Ring.Refine.{Wrote, Read, write_data-Wrote, read_data-Read}
use rusty_comms.Shm.Blocking.{waiting, write_attempt, read_attempt, write_data_blocking}
use rusty_comms.Shm.Blocking.Attempts.{TriedWrite, write_attempt-TriedWrite, oversized_waits}
use rusty_comms.Shm.Blocking.System.{System, Reach, Inv, start, later, write, read, Reach-Inv}

-- Opens what a run computes with.
run_all : ℕ
unfolding available_write_space available_read_data write_bytes write_bulk read_bytes read_bulk
    publish store_bulk write_data peek_len consume read_data to_le_bytes from_le_bytes copy_in
    copy_out stamp write_attempt read_attempt new
run_all = 0

-- One message, 7 8, that goes round the end.
abbrev wrapped : SharedMemoryRingBuffer
wrapped = record {
  buf = 0 ∷ 7 ∷ 8 ∷ 0 ∷ 0 ∷ 0 ∷ 0 ∷ 0 ∷ 0 ∷ 2 ∷ 0 ∷ 0 ∷ [];
  capacity = 12;
  read_pos = 9;
  write_pos = 3;
  server_ready = true;
  client_ready = true;
  shutdown = false;
  message_count = 1;
}

abbrev queued : List (List ℕ)
queued = (7 ∷ 8 ∷ []) ∷ []

wrapped-IsValid : IsValid wrapped
wrapped-IsValid = omega arith

wrapped-Holds : Holds wrapped queued
unfolding window available_read_data to_le_bytes
wrapped-Holds = record { valid = wrapped-IsValid; bytes = refl; sized = omega arith }

abbrev two_messages : SharedMemoryRingBuffer
two_messages = record wrapped {
  buf = 0 ∷ 7 ∷ 8 ∷ 1 ∷ 0 ∷ 0 ∷ 0 ∷ 5 ∷ 0 ∷ 2 ∷ 0 ∷ 0 ∷ [];
  write_pos = 8;
  message_count = 2;
}

-- A message of one byte still fits behind the first one, which is read before it.
write_then_read :
    (write_data wrapped (5 ∷ []) ≡ ok two_messages)
    × (read_data two_messages ≡ ok (7 ∷ 8 ∷ [], record two_messages { read_pos = 3 }))
unfolding run_all
write_then_read = (refl, refl)

write_data-eq-loop_example : write_data wrapped (5 ∷ []) ≡ write_data_loop wrapped (5 ∷ [])
write_data-eq-loop_example = write_data-eq-loop wrapped-IsValid (5 ∷ []) (omega arith)

write_data-Wrote_example : Wrote wrapped queued (5 ∷ []) (write_data wrapped (5 ∷ []))
write_data-Wrote_example = write_data-Wrote (5 ∷ []) wrapped-Holds (omega arith)

read_data-Read_example : Read queued (read_data wrapped)
read_data-Read_example = read_data-Read queued wrapped-Holds

write_attempt-TriedWrite_example :
    TriedWrite wrapped queued (5 ∷ []) (write_attempt wrapped (5 ∷ []) none 99)
unfolding stamp
write_attempt-TriedWrite_example =
    write_attempt-TriedWrite (5 ∷ []) (5 ∷ []) none 99 wrapped-Holds (omega arith) refl

abbrev five_bytes : List ℕ
five_bytes = 1 ∷ 2 ∷ 3 ∷ 4 ∷ 5 ∷ []

oversized_waits_example :
    write_data_blocking ((wrapped, 1) ∷ (wrapped, 2) ∷ []) (replicate 8 3) none ≡ waiting
oversized_waits_example =
    oversized_waits 12 ((wrapped, 1) ∷ (wrapped, 2) ∷ []) (replicate 8 3) none (omega arith)
      (omega arith) ((wrapped-IsValid, refl, refl), ((wrapped-IsValid, refl, refl), tt))

-- A message written to a fresh segment of 12 bytes and read again.
abbrev delivered : System
delivered = record {
  ring = record (new 12) {
    buf = 1 ∷ 0 ∷ 0 ∷ 0 ∷ 5 ∷ replicate 7 0;
    read_pos = 5;
    write_pos = 5;
    message_count = 1;
  };
  sent = (5 ∷ []) ∷ [];
  received = (5 ∷ []) ∷ [];
}

delivered-Reach : Reach 12 delivered
unfolding run_all
delivered-Reach =
    later (later start (write (5 ∷ []) (5 ∷ []) none 99 (omega arith) refl refl)) (read refl)

Reach-Inv_example : Inv delivered
Reach-Inv_example = Reach-Inv (omega arith) (omega arith) delivered-Reach
