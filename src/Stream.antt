-- ===== src/Stream.antt =====
-- The stream transports: a length prefix of four bytes before each message, over TCP or a Unix
-- domain socket. The operating system's socket is `Conn`: the bytes that arrive before the peer
-- closes, the bytes written, and whether writes fail.
pub mod Framing
pub mod Session
pub mod Errors
pub mod Writev
pub mod Socket
mod Tests
use rusty_comms.Prelude.{
  ℕ, ◌+◌, ◌-◌, ◌*◌, ◌%◌, ◌^◌, Bool, true, false, not, ◌||◌, Option, none, some, List, [], ◌∷◌, ◌++◌,
  ltb, leb, ◌==◌, if◌then◌else◌, length, take, drop, Result, ok, err,
}
use rusty_comms.Bytes.Endian.{to_le_bytes, from_le_bytes}
use rusty_comms.Ipc.Message.{Message, stamp, timestamp_offset}
use rusty_comms.Ipc.Bincode.{Bincode, to_bytes, from_bytes}

pub data Fault : Type 0 where
  accept_failed not_connected unexpected_eof write_failed : Fault
  serialize_failed deserialize_failed panicked : Fault
  invalid_message_length : ℕ → Fault

pub record Conn : Type 0 where
  pub incoming : List ℕ
  pub outgoing : List ℕ
  pub broken : Bool

-- An operation on a connection returns its result and the connection after it, errors included.
abbrev pub Io : Type 0 → Type 0
Io A = Conn → Result Fault A × Conn

abbrev pub next : {A B : Type 0} → (A → Io B) → Result Fault A × Conn → Result Fault B × Conn
next f (ok a, c) = f a c
next f (err e, c) = (err e, c)

infixl 5 ◌>>=◌ ◌>>◌
abbrev pub ◌>>=◌ : {A B : Type 0} → Io A → (A → Io B) → Io B
◌>>=◌ m f c = next f (m c)

abbrev pub ◌>>◌ : {B : Type 0} → Io (Unit {0}) → Io B → Io B
◌>>◌ m k = m >>= λ _. k

abbrev pub lift : {A : Type 0} → Result Fault A → Io A
lift r c = (r, c)

abbrev pub guard : Bool → Fault → Io (Unit {0})
guard true _ c = (ok tt, c)
guard false e c = (err e, c)

-- `read_exact`: at the end of the stream it fails, with the stream used up.
unfoldable pub read_exact : ℕ → Io (List ℕ)
read_exact n c =
    if leb n (length c.incoming)
    then (ok (take n c.incoming), record c { incoming = drop n c.incoming })
    else (err unexpected_eof, record c { incoming = [] })

-- `write_all`, and the `flush` of an unbuffered socket.
unfoldable pub write_all : List ℕ → Io (Unit {0})
write_all bs c =
    if c.broken then (err write_failed, c) else (ok tt, record c { outgoing = c.outgoing ++ bs })

abbrev pub max_message_size : ℕ
max_message_size = 16 * 1024 * 1024

abbrev pub prefix : List ℕ → List ℕ
prefix bs = to_le_bytes 4 (length bs % 2 ^ 32)

-- `len == 0 || len > MAX_MESSAGE_SIZE` is the error of the blocking transports.
abbrev pub allowed_blocking : ℕ → Bool
allowed_blocking len = not (len == 0 || ltb max_message_size len)

-- The asynchronous ones let an empty message through to the decoder.
abbrev pub allowed_async : ℕ → Bool
allowed_async len = not (ltb max_message_size len)

-- `writev` of the prefix and the message; `written` is what it returns, `none` its error. What a
-- partial write leaves over is written from `serialized[written.saturating_sub(4)..]`.
unfoldable pub writev : Option ℕ → List ℕ → Io (Unit {0})
writev none bs c = (err write_failed, c)
writev (some written) bs c =
    let c' = record c { outgoing = c.outgoing ++ take written (prefix bs ++ bs) } in
    if ltb written (4 + length bs) then write_all (drop (written - 4) bs) c' else (ok tt, c')

module _ (codec : Bincode) where
  -- The bytes of a message that is stamped last: serialised with timestamp 0, then overwritten.
  unfoldable pub prepare : ℕ → Message → Result Fault (List ℕ)
  prepare now m = elim (to_bytes codec (record m { timestamp = 0 })) [
    | err _ ↦ err serialize_failed
    | ok bs ↦ elim (stamp (some timestamp_offset) now bs) [
      | none ↦ err panicked
      | some stamped ↦ ok stamped
    ]
  ]

  unfoldable pub decode : List ℕ → Result Fault Message
  decode bs = elim (from_bytes codec bs) [ ok m ↦ ok m | err _ ↦ err deserialize_failed ]

  -- The body of `BlockingTcpSocket::send_blocking` on a connected stream.
  unfoldable pub send_tcp : ℕ → Message → Io (Unit {0})
  send_tcp now m = do bs ← lift (prepare now m); write_all (prefix bs); write_all bs

  -- The body of `BlockingUnixDomainSocket::send_blocking` on a connected stream.
  unfoldable pub send_uds : Option ℕ → ℕ → Message → Io (Unit {0})
  send_uds written now m = do bs ← lift (prepare now m); writev written bs

  -- `write_message` of the asynchronous transports, within its time limit. The timestamp stays.
  unfoldable pub write_message : Message → Io (Unit {0})
  write_message m = do
    bs ← lift (elim (to_bytes codec m) [ ok bs ↦ ok bs | err _ ↦ err serialize_failed ])
    write_all (prefix bs)
    write_all bs

  -- The rest of a read, behind its prefix: the length test, the payload, the decoding.
  unfoldable pub read_payload : (ℕ → Bool) → ℕ → Io Message
  read_payload allowed len = do
    guard (allowed len) (invalid_message_length len)
    buffer ← read_exact len
    lift (decode buffer)

  -- The body of `receive_blocking` on a connected stream, the same for TCP and Unix sockets.
  unfoldable pub receive : Io Message
  receive = do len_bytes ← read_exact 4; read_payload allowed_blocking (from_le_bytes len_bytes)

  -- `receive_blocking_timed`: the clock is read between the last read and the decoding.
  unfoldable pub receive_timed : ℕ → Io (Message × ℕ)
  receive_timed now = do
    len_bytes ← read_exact 4
    let len = from_le_bytes len_bytes
    guard (allowed_blocking len) (invalid_message_length len)
    buffer ← read_exact len
    m ← lift (decode buffer)
    lift (ok (m, now))

  -- `read_message` of the asynchronous transports.
  unfoldable pub read_message : Io Message
  read_message = do len_bytes ← read_exact 4; read_payload allowed_async (from_le_bytes len_bytes)
