-- ===== src/Shm/Blocking/Attempts.antt =====
-- What a critical section of the blocking calls does, on every branch, and what a whole call does.
use rusty_comms.Prelude.{
  ℕ, ◌+◌, ◌^◌, ◌≤◌, ◌<◌, ◌≡◌, ◌⊎◌, inl, inr, refl, ap, sym, subst, true, false, Bool-cases, Option,
  some, List, [], ◌∷◌, ◌++◌, length, All, arith, ltb, ltb→lt, ok, err, IsU32, add_usize,
}
use rusty_comms.Ipc.Message.{stamp, length-stamp}
use rusty_comms.Shm.Ring.{
  SharedMemoryRingBuffer, available_write_space, required_space, store_bulk, payload_bulk, consume,
}
use rusty_comms.Shm.Ring.Space.{IsValid, space_lem}
use rusty_comms.Shm.Ring.Equiv.{fits_lem}
use rusty_comms.Shm.Ring.Fifo.{
  Holds, size, available_read_data-size, store_bulk-Holds, peek_len-head, enough, short,
  payload-head, consume-Holds,
}
use rusty_comms.Shm.Blocking.{
  connection_closed, Progress, waiting, finished, panicked, write_attempt, read_attempt,
  write_data_blocking,
}

-- The outcome of a writer's critical section on a buffer that holds `q`, for the stamped bytes `d`.
abbrev pub TriedWrite :
    SharedMemoryRingBuffer → List (List ℕ) → List ℕ → Progress SharedMemoryRingBuffer → Type 0
TriedWrite r q d waiting = (r.capacity ≤ size q + length d + 4) × (r.shutdown ≡ false)
TriedWrite r q d (finished (ok r')) =
    (size q + length d + 4 < r.capacity) × Holds r' (q ++ (d ∷ []))
TriedWrite r q d (finished (err e)) =
    (r.capacity ≤ size q + length d + 4) × (r.shutdown ≡ true) × (e ≡ connection_closed)
TriedWrite r q d panicked = ⊥

-- The outcome of a reader's critical section.
abbrev pub TriedRead :
    SharedMemoryRingBuffer → List (List ℕ) → Progress (List ℕ × SharedMemoryRingBuffer) → Type 0
TriedRead r [] waiting = r.shutdown ≡ false
TriedRead r [] (finished o) = (r.shutdown ≡ true) × (o ≡ err connection_closed)
TriedRead r [] panicked = ⊥
TriedRead r (d ∷ q) (finished (ok (d', r'))) = (d' ≡ d) × Holds r' q
TriedRead r (d ∷ q) waiting = ⊥
TriedRead r (d ∷ q) (finished (err e)) = ⊥
TriedRead r (d ∷ q) panicked = ⊥

write_attempt-full :
    (r : SharedMemoryRingBuffer) (bs : List ℕ) (o : Option (ℕ × ℕ)) (now : ℕ)
    → ltb (available_write_space r) (required_space bs) ≡ true
    → ((r.shutdown ≡ true) × (write_attempt r bs o now ≡ finished (err connection_closed)))
      ⊎ ((r.shutdown ≡ false) × (write_attempt r bs o now ≡ waiting))
unfolding write_attempt
write_attempt-full r bs o now e = elim (Bool-cases r.shutdown) [
  | inl down ↦ inl (down, rw e (ground arith))
  | inr up ↦ inr (up, rw e (ground arith))
]

write_attempt-fits :
    (r : SharedMemoryRingBuffer) (bs d : List ℕ) (o : Option (ℕ × ℕ)) (now : ℕ)
    → ltb (available_write_space r) (required_space bs) ≡ false
    → stamp o now bs ≡ some d
    → write_attempt r bs o now ≡ finished (ok (store_bulk r d))
unfolding write_attempt
write_attempt-fits r bs d o now e s = rw (e, s)

-- A critical section of `write_data_blocking` appends the stamped message when there is room for it
-- and its prefix; without room it waits, or returns the error of a closed connection once the buffer
-- is shut down.
pub write_attempt-TriedWrite :
    {r : SharedMemoryRingBuffer} {q : List (List ℕ)} (bs d : List ℕ) (o : Option (ℕ × ℕ)) (now : ℕ)
    → Holds r q
    → IsU32 (length bs)
    → stamp o now bs ≡ some d
    → TriedWrite r q d (write_attempt r bs o now)
write_attempt-TriedWrite {r} {q} bs d o now h small s =
    elim (Bool-cases (ltb (available_write_space r) (required_space bs))) [
      | inl full ↦ elim (write_attempt-full r bs o now full) [
        | inl (down, e) ↦ subst (TriedWrite r q d) (sym e) (no_room full, down, refl)
        | inr (up, e) ↦ subst (TriedWrite r q d) (sym e) (no_room full, up)
      ]
      | inr fits ↦ subst (TriedWrite r q d) (sym (write_attempt-fits r bs d o now fits s)) (
        room fits,
        store_bulk-Holds h d (omega (arith, length-stamp o now bs s)) (
            rw (ap (λ n. ltb (available_write_space r) (add_usize n 4)) (length-stamp o now bs s))
              fits),
      )
    ]
  where
    no_room :
        ltb (available_write_space r) (required_space bs) ≡ true
        → r.capacity ≤ size q + length d + 4
    no_room full = omega (
      arith,
      ltb→lt (available_write_space r) (required_space bs) full,
      space_lem h.valid,
      available_read_data-size h,
      length-stamp o now bs s,
    )

    room :
        ltb (available_write_space r) (required_space bs) ≡ false
        → size q + length d + 4 < r.capacity
    room fits = omega (
      arith,
      fits_lem h.valid bs (omega arith) fits,
      space_lem h.valid,
      available_read_data-size h,
      length-stamp o now bs s,
    )

read_attempt-head :
    {r : SharedMemoryRingBuffer} {d : List ℕ} {q : List (List ℕ)}
    → Holds r (d ∷ q)
    → read_attempt r ≡ finished (ok (payload_bulk r (length d), consume r (length d)))
unfolding read_attempt
read_attempt-head {r} {d} h = ground (arith, peek_len-head h, enough h, short h)

read_attempt-nil :
    {r : SharedMemoryRingBuffer}
    → Holds r []
    → ((r.shutdown ≡ true) × (read_attempt r ≡ finished (err connection_closed)))
      ⊎ ((r.shutdown ≡ false) × (read_attempt r ≡ waiting))
unfolding read_attempt
read_attempt-nil {r} h = elim (Bool-cases r.shutdown) [
  | inl down ↦ inl (down, ground (arith, available_read_data-size h))
  | inr up ↦ inr (up, ground (arith, available_read_data-size h))
]

-- A critical section of `read_data_blocking` returns the oldest message, an empty one included, and
-- keeps the others; without a message it waits, or returns the error of a closed connection once the
-- buffer is shut down.
pub read_attempt-TriedRead :
    {r : SharedMemoryRingBuffer} (q : List (List ℕ)) → Holds r q → TriedRead r q (read_attempt r)
read_attempt-TriedRead {r} [] h = elim (read_attempt-nil h) [
  | inl (down, e) ↦ subst (TriedRead r []) (sym e) (down, refl)
  | inr (up, e) ↦ subst (TriedRead r []) (sym e) up
]
read_attempt-TriedRead {r} (d ∷ q) h =
    subst (TriedRead r (d ∷ q)) (sym (read_attempt-head h)) (payload-head h, consume-Holds h)

-- While a writer waits for room for a message that fits the empty buffer, a reader does not wait: its
-- next critical section returns a message.
pub waiting_writer_lem :
    {r : SharedMemoryRingBuffer} {q : List (List ℕ)} (bs d : List ℕ) (o : Option (ℕ × ℕ)) (now : ℕ)
    → Holds r q
    → IsU32 (length bs)
    → stamp o now bs ≡ some d
    → length bs + 4 < r.capacity
    → write_attempt r bs o now ≡ waiting
    → (m : List ℕ) × (r' : SharedMemoryRingBuffer) × (read_attempt r ≡ finished (ok (m, r')))
waiting_writer_lem {r} {q = []} bs d o now h small s fits e =
    absurd (omega (arith, full.0, length-stamp o now bs s))
  where
    full : TriedWrite r [] d waiting
    full = subst (TriedWrite r [] d) e (write_attempt-TriedWrite bs d o now h small s)
waiting_writer_lem {r} {q = m ∷ q} bs d o now h small s fits e =
    (payload_bulk r (length m), consume r (length m), read_attempt-head h)

-- What a writer may find at its wake-ups: valid buffers of the same capacity, not shut down.
abbrev pub IsOpen : ℕ → SharedMemoryRingBuffer × ℕ → Type 0
IsOpen cap (r, now) = IsValid r × (r.capacity ≡ cap) × (r.shutdown ≡ false)

-- A message that does not fit the empty buffer with its prefix is never written and never refused:
-- whatever the call finds at its wake-ups, it goes back to wait until the buffer is shut down.
pub oversized_waits :
    (cap : ℕ) (wakes : List (SharedMemoryRingBuffer × ℕ)) (bs : List ℕ) (o : Option (ℕ × ℕ))
    → length bs < 2 ^ 63
    → cap ≤ length bs + 4
    → All (IsOpen cap) wakes
    → write_data_blocking wakes bs o ≡ waiting
unfolding write_data_blocking
oversized_waits cap [] bs o slice big h = refl
oversized_waits cap ((r, now) ∷ wakes) bs o slice big h =
    rw (again, write_data_blocking) (oversized_waits cap wakes bs o slice big h.1)
  where
    no_room : ltb (available_write_space r) (required_space bs) ≡ true
    no_room = ground (arith, space_lem h.0.0)

    again : write_attempt r bs o now ≡ waiting
    again = elim (write_attempt-full r bs o now no_room) [
      | inl (down, e) ↦ cc (h.0.2)
      | inr (up, e) ↦ e
    ]
