-- ===== src/Shm/Connection/Retries.antt =====
-- The retry loops over full and empty buffers.
use rusty_comms.Prelude.{
  ℕ, ◌+◌, ◌≤◌, ◌<◌, ◌≡◌, refl, sym, ap, subst, ◌∙◌, Bool, true, false, List, [], ◌∷◌, ◌++◌, map,
  length, All, arith, le→leb, le→ltb, Result, ok, err, returned, IsU32,
}
use rusty_comms.Ipc.Message.{Message, IsMessage}
use rusty_comms.Ipc.Bincode.{Bincode, wire, length-wire, stamp-wire, to_bytes, from_bytes}
use rusty_comms.Shm.Ring.{SharedMemoryRingBuffer, write_data, read_data}
use rusty_comms.Shm.Ring as Ring
use rusty_comms.Shm.Ring.Fifo.{Holds, size}
use rusty_comms.Shm.Ring.Refine.{Wrote, Read, write_data-Wrote, read_data-Read}
use rusty_comms.Shm.Transport.Exchange.{Carries, map-snoc}
use rusty_comms.Shm.Connection.{
  Attempt, five_seconds, restamp, send_loop, send_message, receive_message,
}

fits-ok :
    (r : SharedMemoryRingBuffer) (q : List (List ℕ)) (d : List ℕ)
    (o : Result Ring.Fault SharedMemoryRingBuffer)
    → Wrote r q d o
    → size q + length d + 4 < r.capacity
    → (r' : SharedMemoryRingBuffer) × (o ≡ ok r') × Holds r' (q ++ (d ∷ []))
fits-ok r q d (ok r') h room = (r', refl, h.1)
fits-ok r q d (err e) h room = absurd (omega (arith, h.0))

full-err :
    (r : SharedMemoryRingBuffer) (q : List (List ℕ)) (d : List ℕ)
    (o : Result Ring.Fault SharedMemoryRingBuffer)
    → Wrote r q d o
    → r.capacity ≤ size q + length d + 4
    → (e : Ring.Fault) × (o ≡ err e)
full-err r q d (ok r') h full = absurd (omega (arith, h.0))
full-err r q d (err e) h full = (e, refl)

head-ok :
    (b : ℕ) (bs : List ℕ) (q : List (List ℕ))
    (o : Result Ring.Fault (List ℕ × SharedMemoryRingBuffer))
    → Read ((b ∷ bs) ∷ q) o
    → (r' : SharedMemoryRingBuffer) × (o ≡ ok (b ∷ bs, r')) × Holds r' q
head-ok b bs q (ok (d, r')) h = (r', ap (λ x. ok (x, r')) h.0, h.1)
head-ok b bs q (err e) h = absurd h

read_data-head :
    (d : List ℕ) (q : List (List ℕ)) (r : SharedMemoryRingBuffer)
    → Holds r (d ∷ q)
    → 0 < length d
    → (r' : SharedMemoryRingBuffer) × (read_data r ≡ ok (d, r')) × Holds r' q
read_data-head [] q r h pos = absurd (omega arith)
read_data-head (b ∷ bs) q r h pos = head-ok b bs q (read_data r) (read_data-Read ((b ∷ bs) ∷ q) h)

-- An attempt within the five seconds that finds no room for `n` bytes.
abbrev pub IsFull : ℕ → Attempt → Type 0
IsFull n a =
    (a.elapsed ≤ five_seconds)
    × ((q : List (List ℕ)) × Holds a.ring q × (a.ring.capacity ≤ size q + n + 4))

-- The flag that a send returns.
abbrev pub detected : Bool → List Attempt → Bool
detected b [] = b
detected b (a ∷ attempts) = true

detected-true : (attempts : List Attempt) → detected true attempts ≡ true
detected-true [] = refl
detected-true (a ∷ attempts) = refl

send_loop-again :
    (x : Attempt) (rest : List Attempt) (bs d : List ℕ) (b : Bool) {f : Ring.Fault}
    → restamp x.now bs ≡ d
    → write_data x.ring d ≡ err f
    → x.elapsed ≤ five_seconds
    → send_loop (x ∷ rest) bs b ≡ send_loop rest d true
unfolding send_loop
send_loop-again x rest bs d b {f} same full soon =
    subst (λ t. write_data x.ring t ≡ err f → send_loop (x ∷ rest) bs b ≡ send_loop rest t true)
      same (λ e. rw (e, le→ltb five_seconds x.elapsed soon, send_loop) refl) full

module _ (codec : Bincode) where
  restamp-wire :
      (m : Message) (now : ℕ)
      → restamp now (wire codec m) ≡ wire codec (record m { timestamp = now })
  restamp-wire m now =
      rw
        (
          le→leb 16 (length (wire codec m)) (omega (arith, length-wire codec m)),
          stamp-wire codec m now,
          restamp,
        )
        refl

  length-wire_at :
      (m : Message) (now : ℕ)
      → length (wire codec (record m { timestamp = now })) ≡ length (wire codec m)
  length-wire_at m now =
      length-wire codec (record m { timestamp = now }) ∙ sym (length-wire codec m)

  send_loop-Carries :
      (before : List Attempt) (a : Attempt) (m : Message) (ms : List Message) (b : Bool)
      → All (IsFull (length (wire codec m))) before
      → Carries codec a.ring ms
      → IsU32 (length (wire codec m))
      → size (map (wire codec) ms) + length (wire codec m) + 4 < a.ring.capacity
      → (r' : SharedMemoryRingBuffer) × (send_loop (before ++ (a ∷ [])) (wire codec m) b
          ≡ returned (ok (detected b before, r')))
        × Carries codec r' (ms ++ (record m { timestamp = a.now } ∷ []))
  unfolding send_loop
  send_loop-Carries [] a m ms b full h small room =
      let d = wire codec (record m { timestamp = a.now }) in
      let (r', e, h') =
        fits-ok a.ring (map (wire codec) ms) d (write_data a.ring d)
          (write_data-Wrote d h (omega (arith, length-wire_at m a.now)))
          (omega (arith, length-wire_at m a.now)) in
      (
        r',
        rw (restamp-wire m a.now, e, send_loop) refl,
        subst (λ q. Holds r' q) (sym (map-snoc (wire codec) ms (record m { timestamp = a.now })))
            h',
      )
  send_loop-Carries (x ∷ before) a m ms b ((soon, (q, hx, no_room)), full) h small room =
      let d = wire codec (record m { timestamp = x.now }) in
      let (f, e) =
        full-err x.ring q d (write_data x.ring d)
          (write_data-Wrote d hx (omega (arith, length-wire_at m x.now)))
          (omega (arith, length-wire_at m x.now)) in
      let (r', again, h') =
        send_loop-Carries before a (record m { timestamp = x.now }) ms true
          (subst (λ n. All (IsFull n) before) (sym (length-wire_at m x.now)) full) h
          (omega (arith, length-wire_at m x.now)) (omega (arith, length-wire_at m x.now)) in
      (
        r',
        send_loop-again x (before ++ (a ∷ [])) (wire codec m) d b (restamp-wire m x.now) e soon
            ∙ again
            ∙ ap (λ c. returned (ok (c, r'))) (detected-true before),
        h',
      )

  -- A message that fits behind those in the buffer is sent, however many attempts within five seconds
  -- find the buffer full: it follows the others with the time of the last attempt, and the result
  -- says whether there were attempts before it.
  pub send_message-Carries :
      (before : List Attempt) (a : Attempt) (m : Message) (ms : List Message)
      → All (IsFull (length (wire codec m))) before
      → Carries codec a.ring ms
      → IsU32 (length (wire codec m))
      → size (map (wire codec) ms) + length (wire codec m) + 4 < a.ring.capacity
      → (r' : SharedMemoryRingBuffer) × (send_message codec (before ++ (a ∷ [])) m
          ≡ returned (ok (detected false before, r')))
        × Carries codec r' (ms ++ (record m { timestamp = a.now } ∷ []))
  unfolding send_message to_bytes
  send_message-Carries before a m ms full h small room =
      let (r', e, h') = send_loop-Carries before a m ms false full h small room in
      (r', rw (codec.fields_in_order m, send_message, to_bytes) e, h')

  -- An attempt within the five seconds that finds nothing.
  abbrev pub IsBlank : SharedMemoryRingBuffer × ℕ → Type 0
  IsBlank (r, elapsed) = (elapsed ≤ five_seconds) × Holds r []

  -- The oldest message of the buffer is received, however many attempts within five seconds find the
  -- buffer empty, and the others stay.
  pub receive_message-Carries :
      (before : List (SharedMemoryRingBuffer × ℕ)) (r : SharedMemoryRingBuffer) (elapsed : ℕ)
      (m : Message) (ms : List Message)
      → All IsBlank before
      → Carries codec r (m ∷ ms)
      → IsMessage m
      → (r' : SharedMemoryRingBuffer) × (receive_message codec (before ++ ((r, elapsed) ∷ []))
          ≡ returned (ok (record m { receive_time_ns = 0 }, r')))
        × Carries codec r' ms
  unfolding receive_message from_bytes
  receive_message-Carries [] r elapsed m ms blank h v =
      let (r', e, h') =
        read_data-head (wire codec m) (map (wire codec) ms) r h
          (omega (arith, length-wire codec m)) in
      (r', rw (e, codec.reads_back m v, receive_message, from_bytes) refl, h')
  receive_message-Carries ((x, t) ∷ before) r elapsed m ms ((soon, empty), blank) h v =
      let (r', e, h') = receive_message-Carries before r elapsed m ms blank h v in
      (r', rw (read_data-Read [] empty, le→ltb five_seconds t soon, receive_message) e, h')
