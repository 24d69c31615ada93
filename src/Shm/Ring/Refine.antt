-- ===== src/Shm/Ring/Refine.antt =====
-- What a call of `write_data` or `read_data` does to the queue of messages, on every branch.
use rusty_comms.Prelude.{
  length-replicate, ℕ, ◌+◌, ◌^◌, ◌≤◌, ◌<◌, ◌≡◌, refl, sym, subst, Bool-cases, inl, inr, List, [],
  ◌∷◌, ◌++◌, length, arith, ltb, add_usize, ok, err, Result, IsU32, ltb→lt,
}
use rusty_comms.Bytes.Circular.{window}
use rusty_comms.Shm.Ring.{
  SharedMemoryRingBuffer, Fault, not_enough_space, no_data_available, invalid_message_length, new,
  write_data, read_data, store_bulk, required_space, publish, consume, available_write_space,
  available_read_data, payload_bulk,
}
use rusty_comms.Shm.Ring.Space.{space_lem}
use rusty_comms.Shm.Ring.Equiv.{fits_lem}
use rusty_comms.Shm.Ring.Fifo.{
  Holds, size, available_read_data-size, store_bulk-Holds, peek_len-head, enough, short,
  payload-head, consume-Holds,
}

-- The outcome of a write of `d` to a buffer that holds `q`.
abbrev pub Wrote :
    SharedMemoryRingBuffer → List (List ℕ) → List ℕ → Result Fault SharedMemoryRingBuffer → Type 0
Wrote r q d (ok r') =
    (size q + length d + 4 < r.capacity)
    × Holds r' (q ++ (d ∷ []))
    × (r'.message_count ≡ add_usize r.message_count 1)
Wrote r q d (err e) = (r.capacity ≤ size q + length d + 4) × (e ≡ not_enough_space)

-- The outcome of a read from a buffer that holds `q`.
abbrev pub Read : List (List ℕ) → Result Fault (List ℕ × SharedMemoryRingBuffer) → Type 0
Read [] o = o ≡ err no_data_available
Read ([] ∷ q) o = o ≡ err invalid_message_length
Read ((b ∷ bs) ∷ q) (ok (d, r')) = (d ≡ b ∷ bs) × Holds r' q
Read ((b ∷ bs) ∷ q) (err e) = ⊥

-- A fresh buffer holds no message.
pub new-Holds : (capacity : ℕ) → 0 < capacity → capacity ≤ 2 ^ 62 → Holds (new capacity) []
unfolding new available_read_data window
new-Holds capacity pos small = record {
  valid = record {
    storage = length-replicate {A = ℕ} capacity 0;
    nonempty = pos;
    small = small;
    read_in = pos;
    write_in = pos;
  };
  bytes = refl;
  sized = tt;
}

-- `write_data` appends the message exactly when the queue with it and its prefix stays below the
-- capacity, counting the write; otherwise it returns the error of a full buffer.
pub write_data-Wrote :
    {r : SharedMemoryRingBuffer} {q : List (List ℕ)} (d : List ℕ)
    → Holds r q
    → IsU32 (length d)
    → Wrote r q d (write_data r d)
unfolding write_data
write_data-Wrote {r} {q} d h small =
    elim (Bool-cases (ltb (available_write_space r) (required_space d))) [
      | inl full ↦ rw full (
        omega (
          arith,
          ltb→lt (available_write_space r) (required_space d) full,
          space_lem h.valid,
          available_read_data-size h,
        ),
        refl,
      )
      | inr fits ↦ rw fits (
        omega (
          arith,
          fits_lem h.valid d (omega arith) fits,
          space_lem h.valid,
          available_read_data-size h,
        ),
        store_bulk-Holds h d small fits,
        unfold store_bulk publish in refl,
      )
    ]

read_data-head :
    {r : SharedMemoryRingBuffer} {d : List ℕ} {q : List (List ℕ)}
    → Holds r (d ∷ q)
    → 0 < length d
    → read_data r ≡ ok (payload_bulk r (length d), consume r (length d))
unfolding read_data
read_data-head {r} h pos = ground (arith, peek_len-head h, enough h, short h)

-- `read_data` returns the oldest message and keeps the others in order; on an empty queue it
-- returns the error of an empty buffer. An empty message is never returned: while it is the oldest
-- one, every call fails with the error of an invalid length.
pub read_data-Read :
    {r : SharedMemoryRingBuffer} (q : List (List ℕ)) → Holds r q → Read q (read_data r)
unfolding read_data
read_data-Read {r} [] h = ground (arith, available_read_data-size h)
read_data-Read {r} ([] ∷ q) h = ground (arith, peek_len-head h, enough h)
read_data-Read {r} ((b ∷ bs) ∷ q) h =
    subst (Read ((b ∷ bs) ∷ q)) (sym (read_data-head h (omega arith)))
      (payload-head h, consume-Holds h)
