-- ===== src/Shm/Transport.antt =====
-- `BlockingSharedMemory` of src/ipc/shared_memory_blocking.rs: the transport around the ring buffer.
-- `Host` is what the transport shares with others: the mapped segment, and the names that it has
-- unlinked. The outcomes of the system calls and the readings of flags and clocks are arguments.
pub mod Exchange
pub mod Closing
mod Tests
pub use rusty_comms.Prelude.{Run, running, crashed, returned}
use rusty_comms.Prelude.{
  ℕ, ◌*◌, Bool, true, false, not, ◌&&◌, ◌||◌, List, [], ◌∷◌, ◌++◌, some, ltb, ◌==◌, if◌then◌else◌,
  Result, ok, err,
}
use rusty_comms.Ipc.Message.{Message, timestamp_offset}
use rusty_comms.Ipc.Bincode.{Bincode, to_bytes, from_bytes}
use rusty_comms.Shm.Ring.{SharedMemoryRingBuffer}
use rusty_comms.Shm.Ring as Ring
use rusty_comms.Shm.Blocking.{
  BlockingFault, Progress, waiting, finished, panicked, write_data_blocking, read_data_blocking,
  shut,
}

-- `ring_buffer` and `shmem` are set together: `attached`.
pub record Transport : Type 0 where
  pub attached : Bool
  pub is_server : Bool
  pub shared_memory_name : List ℕ

pub record Host : Type 0 where
  pub ring : SharedMemoryRingBuffer
  pub unlinked : List (List ℕ)

pub data Fault : Type 0 where
  create_failed open_failed peer_timeout not_initialized : Fault
  serialize_failed deserialize_failed : Fault
  in_ring : BlockingFault → Fault

abbrev pub Outcome : Type 0 → Type 0
Outcome A = Run Fault A

infixl 5 ◌>>=◌ ◌>>◌
abbrev pub ◌>>=◌ : {A B : Type 0} → Outcome A → (A → Outcome B) → Outcome B
running >>= f = running
crashed >>= f = crashed
returned (ok a) >>= f = f a
returned (err e) >>= f = returned (err e)

abbrev pub ◌>>◌ : {B : Type 0} → Outcome (Unit {0}) → Outcome B → Outcome B
◌>>◌ o k = o >>= λ _. k

abbrev pub ring_call : {A : Type 0} → Progress A → Outcome A
ring_call waiting = running
ring_call (finished (ok a)) = returned (ok a)
ring_call (finished (err e)) = returned (err (in_ring e))
ring_call panicked = crashed

abbrev pub require : Bool → Fault → Outcome (Unit {0})
require true _ = returned (ok tt)
require false e = returned (err e)

abbrev pub thirty_seconds : ℕ
thirty_seconds = 30 * 1_000_000_000

-- The loops that test, compare the time elapsed with the limit, and sleep: over what each test and
-- each reading of the clock gives.
unfoldable pub poll : Fault → List (Bool × ℕ) → Outcome (Unit {0})
poll late [] = running
poll late ((true, elapsed) ∷ tests) = returned (ok tt)
poll late ((false, elapsed) ∷ tests) =
    let rest = poll late tests in if ltb thirty_seconds elapsed then returned (err late) else rest

unfoldable pub wait_for_peer_ready : List (Bool × ℕ) → Transport → Outcome (Unit {0})
wait_for_peer_ready loads t = do require t.attached not_initialized; poll peer_timeout loads

unfoldable pub ensure_peer_ready : Bool → List (Bool × ℕ) → Transport → Outcome (Unit {0})
ensure_peer_ready client_ready loads t =
    if t.is_server
    then (do
      require t.attached not_initialized
      if client_ready then returned (ok tt) else wait_for_peer_ready loads t)
    else returned (ok tt)

unfoldable pub new : Transport
new = record { attached = false; is_server = false; shared_memory_name = [] }

-- `/` is put in front of a name that does not start with it.
unfoldable pub posix_name : List ℕ → List ℕ
posix_name [] = 47 ∷ []
posix_name (c ∷ cs) = if c == 47 then c ∷ cs else 47 ∷ c ∷ cs

abbrev pub has_nul : List ℕ → Bool
has_nul [] = false
has_nul (c ∷ cs) = c == 0 || has_nul cs

-- `CString::new` refuses a name with a NUL, and nothing is unlinked.
unfoldable pub shm_unlink : List ℕ → Host → Host
shm_unlink name h =
    if has_nul (posix_name name)
    then h
    else record h { unlinked = h.unlinked ++ (posix_name name ∷ []) }

unfoldable pub start_server_blocking :
    Bool → ℕ → List ℕ → Transport × Host → Result Fault (Unit {0}) × Transport × Host
start_server_blocking created buffer_size name (t, h) =
    let h' = shm_unlink name h in
    if created
    then (
      ok tt,
      record { attached = true; is_server = true; shared_memory_name = name },
      record h' { ring = record (Ring.new buffer_size) { server_ready = true } },
    )
    else (err create_failed, t, h')

-- `opens` is what each attempt to open the segment gives.
unfoldable pub start_client_blocking :
    List (Bool × ℕ) → List ℕ → Transport × Host → Outcome (Transport × Host)
start_client_blocking opens name (t, h) = do
  poll open_failed opens
  returned (
      ok (
        record { attached = true; is_server = false; shared_memory_name = name },
        record h { ring = record h.ring { client_ready = true } },
      ))

module _ (codec : Bincode) where
  -- `finds` holds the buffer and the clock at each critical section of the call.
  unfoldable pub send_blocking :
      Bool
      → List (Bool × ℕ)
      → List (SharedMemoryRingBuffer × ℕ)
      → Message
      → Transport
      → Outcome SharedMemoryRingBuffer
  send_blocking client_ready loads finds m t = do
    ensure_peer_ready client_ready loads t
    require t.attached not_initialized
    elim (to_bytes codec (record m { timestamp = 0 })) [
      | err _ ↦ returned (err serialize_failed)
      | ok serialized ↦ ring_call (write_data_blocking finds serialized (some timestamp_offset))
    ]

  unfoldable pub deserialize : List ℕ → Outcome Message
  deserialize bs = elim (from_bytes codec bs) [
    | ok m ↦ returned (ok m)
    | err _ ↦ returned (err deserialize_failed)
  ]

  unfoldable pub receive_blocking :
      Bool
      → List (Bool × ℕ)
      → List SharedMemoryRingBuffer
      → Transport
      → Outcome (Message × SharedMemoryRingBuffer)
  receive_blocking client_ready loads finds t = do
    ensure_peer_ready client_ready loads t
    require t.attached not_initialized
    (bs, r) ← ring_call (read_data_blocking finds)
    m ← deserialize bs
    returned (ok (m, r))

  -- The clock reads `now` between the read and the decoding.
  unfoldable pub receive_blocking_timed :
      Bool
      → List (Bool × ℕ)
      → List SharedMemoryRingBuffer
      → ℕ
      → Transport
      → Outcome ((Message × ℕ) × SharedMemoryRingBuffer)
  receive_blocking_timed client_ready loads finds now t = do
    ensure_peer_ready client_ready loads t
    require t.attached not_initialized
    (bs, r) ← ring_call (read_data_blocking finds)
    m ← deserialize bs
    returned (ok ((m, now), r))

abbrev pub is_empty : List ℕ → Bool
is_empty [] = true
is_empty (_ ∷ _) = false

-- `Drop` calls it as well.
unfoldable pub close_blocking : Transport × Host → Transport × Host
close_blocking (t, h) =
    let h' = if t.attached then record h { ring = shut h.ring } else h in
    let should_unlink = t.is_server && not (is_empty t.shared_memory_name) in
    (
      record { attached = false; is_server = false; shared_memory_name = [] },
      if should_unlink then shm_unlink t.shared_memory_name h' else h',
    )
