-- ===== src/Shm/Transport/Closing.antt =====
-- `close_blocking`, which `Drop` calls as well.
use rusty_comms.Prelude.{
  ℕ, ◌≡◌, refl, Bool, true, List, [], ◌∷◌, err, not, ◌&&◌, ◌++◌, All, Bool-cases, inl, inr, ap,
}
use rusty_comms.Ipc.Message.{Message}
use rusty_comms.Ipc.Bincode.{Bincode}
use rusty_comms.Shm.Ring.{SharedMemoryRingBuffer}
use rusty_comms.Shm.Ring.Fifo.{Holds}
use rusty_comms.Shm.Blocking.{
  connection_closed, Progress, waiting, panicked, finished, read_attempt, shut,
}
use rusty_comms.Shm.Blocking.Attempts.{TriedRead, read_attempt-TriedRead}
use rusty_comms.Shm.Blocking.System.{shut-Holds}
use rusty_comms.Shm.Transport.{
  Transport, Host, returned, not_initialized, in_ring, new, ensure_peer_ready, send_blocking,
  receive_blocking, close_blocking, shm_unlink, has_nul, posix_name, is_empty,
}
use rusty_comms.Shm.Transport.Exchange.{
  CanStart, ready-at_once, StaysEmpty, read_data_blocking-waits,
}

-- A transport that is closed, or was never started, refuses every send and receive, whatever its peer
-- does and whatever the segment holds; and closing it again, as `Drop` does, changes nothing.
pub close_blocking_lem :
    (codec : Bincode) (t : Transport) (h : Host) (client_ready : Bool) (loads : List (Bool × ℕ))
    (writes : List (SharedMemoryRingBuffer × ℕ)) (reads : List SharedMemoryRingBuffer) (m : Message)
    → (send_blocking codec client_ready loads writes m (close_blocking (t, h)).0
        ≡ returned (err not_initialized))
      × (receive_blocking codec client_ready loads reads (close_blocking (t, h)).0
          ≡ returned (err not_initialized))
      × (close_blocking (close_blocking (t, h)) ≡ close_blocking (t, h))
      × ((close_blocking (t, h)).0 ≡ new)
unfolding close_blocking send_blocking receive_blocking ensure_peer_ready new
close_blocking_lem codec t h client_ready loads writes reads m = (refl, refl, refl, refl)

ring-shm_unlink : (name : List ℕ) (h : Host) → (shm_unlink name h).ring ≡ h.ring
unfolding shm_unlink
ring-shm_unlink name h = elim (Bool-cases (has_nul (posix_name name))) [
  | inl e ↦ rw e refl
  | inr e ↦ rw e refl
]

ring-close_blocking :
    (t : Transport) (h : Host) → t.attached ≡ true → (close_blocking (t, h)).1.ring ≡ shut h.ring
unfolding close_blocking
ring-close_blocking t h a = elim (Bool-cases (t.is_server && not (is_empty t.shared_memory_name))) [
  | inl e ↦ rw (e, a) (ring-shm_unlink t.shared_memory_name (record h { ring = shut h.ring }))
  | inr e ↦ rw (e, a) refl
]

shut-empty :
    (r : SharedMemoryRingBuffer) (p : Progress (List ℕ × SharedMemoryRingBuffer))
    → TriedRead (shut r) [] p
    → p ≡ finished (err connection_closed)
unfolding shut
shut-empty r waiting h = cc h
shut-empty r (finished o) h = ap finished h.1
shut-empty r panicked h = absurd h

-- When a transport is closed, a peer that waits to receive from the empty segment returns, with the
-- error of a closed connection.
pub closed_peer :
    (codec : Bincode) (t peer : Transport) (h : Host) (client_ready : Bool)
    (loads : List (Bool × ℕ)) (before : List SharedMemoryRingBuffer)
    → t.attached ≡ true
    → CanStart client_ready peer
    → All StaysEmpty before
    → Holds h.ring []
    → receive_blocking codec client_ready loads
        (before ++ ((close_blocking (t, h)).1.ring ∷ []))
        peer
      ≡ returned (err (in_ring connection_closed))
unfolding receive_blocking
closed_peer codec t peer h client_ready loads before a can empty holds =
    rw
      (
        ready-at_once client_ready loads peer can,
        can.0,
        ring-close_blocking t h a,
        read_data_blocking-waits before (shut h.ring) empty (
            shut-empty h.ring (read_attempt (shut h.ring))
              (read_attempt-TriedRead [] (shut-Holds holds))),
      )
      refl
