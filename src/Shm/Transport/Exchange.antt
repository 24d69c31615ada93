-- ===== src/Shm/Transport/Exchange.antt =====
-- Messages through the transport: what a send leaves in the segment and what a receive takes from it.
use rusty_comms.Prelude.{
  ℕ, ◌+◌, ◌<◌, ◌≡◌, inl, inr, refl, sym, ap, subst, ◌∙◌, Bool, true, false, not, ◌&&◌, Bool-cases,
  some, List, [], ◌∷◌, ◌++◌, map, length, All, arith, Result, ok, err, IsU32,
}
use rusty_comms.Ipc.Message.{Message, IsMessage, timestamp_offset}
use rusty_comms.Ipc.Bincode.{Bincode, wire, stamp-wire, to_bytes, from_bytes}
use rusty_comms.Shm.Ring.{SharedMemoryRingBuffer}
use rusty_comms.Shm.Ring.Fifo.{Holds, size}
use rusty_comms.Shm.Blocking.{
  BlockingFault, Progress, waiting, finished, panicked, write_attempt, read_attempt,
  write_data_blocking, read_data_blocking,
}
use rusty_comms.Shm.Blocking.Attempts.{
  TriedWrite, TriedRead, write_attempt-TriedWrite, read_attempt-TriedRead,
}
use rusty_comms.Shm.Transport.{
  Transport, returned, ensure_peer_ready, send_blocking, receive_blocking, deserialize, ring_call,
  ◌>>=◌,
}

-- The transport is started, and a server has seen its client.
abbrev pub CanStart : Bool → Transport → Type 0
CanStart client_ready t = (t.attached ≡ true) × ((not client_ready && t.is_server) ≡ false)

pub ready-at_once :
    (client_ready : Bool) (loads : List (Bool × ℕ)) (t : Transport)
    → CanStart client_ready t
    → ensure_peer_ready client_ready loads t ≡ returned (ok tt)
unfolding ensure_peer_ready
ready-at_once true loads t (a, e) = elim (Bool-cases t.is_server) [
  | inl s ↦ rw (s, a) refl
  | inr s ↦ rw s refl
]
ready-at_once false loads t (a, e) = rw e refl

-- With room for the message a critical section writes it.
wrote :
    (r : SharedMemoryRingBuffer) (q : List (List ℕ)) (d : List ℕ)
    (p : Progress SharedMemoryRingBuffer)
    → TriedWrite r q d p
    → size q + length d + 4 < r.capacity
    → (r' : SharedMemoryRingBuffer) × (p ≡ finished (ok r')) × Holds r' (q ++ (d ∷ []))
wrote r q d waiting h room = absurd (omega (arith, h.0))
wrote r q d (finished (ok r')) h room = (r', refl, h.1)
wrote r q d (finished (err e)) h room = absurd (omega (arith, h.0))
wrote r q d panicked h room = absurd h

took :
    (r : SharedMemoryRingBuffer) {d : List ℕ} {q : List (List ℕ)}
    (p : Progress (List ℕ × SharedMemoryRingBuffer))
    → TriedRead r (d ∷ q) p
    → (r' : SharedMemoryRingBuffer) × (p ≡ finished (ok (d, r'))) × Holds r' q
took r waiting h = absurd h
took r (finished (ok (x, r'))) h = (r', ap (λ y. finished (ok (y, r'))) h.0, h.1)
took r (finished (err e)) h = absurd h
took r panicked h = absurd h

-- Wake-ups that find the buffer full, or empty, only put the call back to sleep.
abbrev pub StaysFull : List ℕ → SharedMemoryRingBuffer × ℕ → Type 0
StaysFull bs (r, now) = write_attempt r bs (some timestamp_offset) now ≡ waiting

abbrev pub StaysEmpty : SharedMemoryRingBuffer → Type 0
StaysEmpty r = read_attempt r ≡ waiting

write_data_blocking-waits :
    (before : List (SharedMemoryRingBuffer × ℕ)) (bs : List ℕ) (r : SharedMemoryRingBuffer)
    (now : ℕ) {r' : SharedMemoryRingBuffer}
    → All (StaysFull bs) before
    → write_attempt r bs (some timestamp_offset) now ≡ finished (ok r')
    → write_data_blocking (before ++ ((r, now) ∷ [])) bs (some timestamp_offset) ≡ finished (ok r')
unfolding write_data_blocking
write_data_blocking-waits [] bs r now h e = rw (e, write_data_blocking) refl
write_data_blocking-waits ((x, n) ∷ before) bs r now h e =
    rw (h.0, write_data_blocking) (write_data_blocking-waits before bs r now h.1 e)

pub read_data_blocking-waits :
    (before : List SharedMemoryRingBuffer) (r : SharedMemoryRingBuffer)
    {o : Result BlockingFault (List ℕ × SharedMemoryRingBuffer)}
    → All StaysEmpty before
    → read_attempt r ≡ finished o
    → read_data_blocking (before ++ (r ∷ [])) ≡ finished o
unfolding read_data_blocking
read_data_blocking-waits [] r h e = rw (e, read_data_blocking) refl
read_data_blocking-waits (x ∷ before) r h e =
    rw (h.0, read_data_blocking) (read_data_blocking-waits before r h.1 e)

pub map-snoc :
    {A B : Type 0} (f : A → B) (xs : List A) (x : A)
    → map f (xs ++ (x ∷ [])) ≡ map f xs ++ (f x ∷ [])
map-snoc f [] x = refl
map-snoc f (y ∷ ys) x = ap (λ t. f y ∷ t) (map-snoc f ys x)

module _ (codec : Bincode) where
  -- The segment holds the messages, oldest first.
  abbrev pub Carries : SharedMemoryRingBuffer → List Message → Type 0
  Carries r ms = Holds r (map (wire codec) ms)

  send_blocking-ring :
      (client_ready : Bool) (loads : List (Bool × ℕ)) (finds : List (SharedMemoryRingBuffer × ℕ))
      (m : Message) (t : Transport)
      → CanStart client_ready t
      → send_blocking codec client_ready loads finds m t
        ≡ ring_call (
            write_data_blocking finds
              (wire codec (record m { timestamp = 0 }))
              (some timestamp_offset))
  unfolding send_blocking to_bytes
  send_blocking-ring client_ready loads finds m t can =
      rw
        (
          ready-at_once client_ready loads t can,
          can.0,
          codec.fields_in_order (record m { timestamp = 0 }),
        )
        refl

  -- A started transport, whose peer is there, sends a message that fits behind those in the segment:
  -- after any number of wake-ups to a full buffer the call returns, and the message follows the
  -- others in the segment, with the time of the critical section that wrote it.
  pub send_blocking-Carries :
      (client_ready : Bool) (loads : List (Bool × ℕ)) (t : Transport)
      (before : List (SharedMemoryRingBuffer × ℕ)) (r : SharedMemoryRingBuffer) (now : ℕ)
      (m : Message) (ms : List Message)
      → CanStart client_ready t
      → All (StaysFull (wire codec (record m { timestamp = 0 }))) before
      → Carries r ms
      → IsU32 (length (wire codec (record m { timestamp = 0 })))
      → size (map (wire codec) ms) + length (wire codec (record m { timestamp = now })) + 4
        < r.capacity
      → (r' : SharedMemoryRingBuffer) × (send_blocking codec client_ready loads
            (before ++ ((r, now) ∷ []))
            m
            t
          ≡ returned (ok r'))
        × Carries r' (ms ++ (record m { timestamp = now } ∷ []))
  send_blocking-Carries client_ready loads t before r now m ms can full h small room =
      let bs = wire codec (record m { timestamp = 0 }) in
      let (r', e, h') =
        wrote r (map (wire codec) ms) (wire codec (record m { timestamp = now }))
          (write_attempt r bs (some timestamp_offset) now)
          (write_attempt-TriedWrite bs (wire codec (record m { timestamp = now }))
            (some timestamp_offset) now h small (stamp-wire codec (record m { timestamp = 0 }) now))
          room in
      (
        r',
        send_blocking-ring client_ready loads (before ++ ((r, now) ∷ [])) m t can
            ∙ ap ring_call (write_data_blocking-waits before bs r now full e),
        subst (λ q. Holds r' q) (sym (map-snoc (wire codec) ms (record m { timestamp = now }))) h',
      )

  deserialize-wire :
      (m : Message)
      → IsMessage m
      → deserialize codec (wire codec m) ≡ returned (ok (record m { receive_time_ns = 0 }))
  unfolding deserialize from_bytes
  deserialize-wire m v = rw (codec.reads_back m v, deserialize, from_bytes) refl

  -- A started transport, whose peer is there, receives the oldest message of the segment, after any
  -- number of wake-ups to an empty buffer, and leaves the others. The time of receipt is not sent.
  pub receive_blocking-Carries :
      (client_ready : Bool) (loads : List (Bool × ℕ)) (t : Transport)
      (before : List SharedMemoryRingBuffer) (r : SharedMemoryRingBuffer) (m : Message)
      (ms : List Message)
      → CanStart client_ready t
      → All StaysEmpty before
      → Carries r (m ∷ ms)
      → IsMessage m
      → (r' : SharedMemoryRingBuffer) × (receive_blocking codec client_ready loads
            (before ++ (r ∷ []))
            t
          ≡ returned (ok (record m { receive_time_ns = 0 }, r')))
        × Carries r' ms
  unfolding receive_blocking
  receive_blocking-Carries client_ready loads t before r m ms can empty h v =
      let (r', e, h') =
        took r (read_attempt r) (read_attempt-TriedRead (map (wire codec) (m ∷ ms)) h) in
      (
        r',
        rw
            (
              ready-at_once client_ready loads t can,
              can.0,
              read_data_blocking-waits before r empty e,
            )
            (ap (λ o. o >>= λ x. returned (ok (x, r'))) (deserialize-wire m v)),
        h',
      )
