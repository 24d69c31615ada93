-- ===== src/Ipc/Message.antt =====
-- `Message` and `MessageType` of src/ipc/mod.rs.
use rusty_comms.Prelude.{
  ℕ, ◌+◌, ◌*◌, ◌%◌, ◌^◌, ◌<◌, ◌≡◌, ◌⊎◌, refl, ◌&&◌, Option, none, some, List, length, arith, leb,
  ltb, ◌==◌, if◌then◌else◌, sub_usize, add_usize, IsU64, IsByte, All,
}
use rusty_comms.Bytes.Endian.{to_le_bytes}
use rusty_comms.Bytes.Copy.{copy_in, length-copy_in}

pub data MessageType : Type 0 where
  one_way request response ping pong shutdown : MessageType

-- `message_type as u32`: the discriminants in declaration order.
unfoldable pub as_u32 : MessageType → ℕ
as_u32 one_way = 0
as_u32 request = 1
as_u32 response = 2
as_u32 ping = 3
as_u32 pong = 4
as_u32 shutdown = 5

-- `impl From<u32> for MessageType`
unfoldable pub from_u32 : ℕ → MessageType
from_u32 value =
    if value == 0
    then one_way
    else if value == 1
    then request
    else if value == 2
    then response
    else if value == 3
    then ping
    else if value == 4
    then pong
    else if value == 5
    then shutdown
    else one_way

pub record Message : Type 0 where
  pub id : ℕ
  pub timestamp : ℕ
  pub payload : List ℕ
  pub message_type : MessageType
  pub receive_time_ns : ℕ

-- `(ts.tv_sec as u64) * 1_000_000_000 + (ts.tv_nsec as u64)`, from the clock's two fields.
unfoldable pub get_monotonic_time_ns : ℕ → ℕ → ℕ
get_monotonic_time_ns sec nsec = (sec * 1_000_000_000 % 2 ^ 64 + nsec) % 2 ^ 64

-- `Message::new` at the clock's time `now`.
unfoldable pub new : ℕ → ℕ → List ℕ → MessageType → Message
new now id payload message_type = record {
  id = id;
  timestamp = now;
  payload = payload;
  message_type = message_type;
  receive_time_ns = 0;
}

unfoldable pub new_for_blocking : ℕ → ℕ → List ℕ → MessageType → Message
new_for_blocking now id payload message_type = record {
  id = id;
  timestamp = now;
  payload = payload;
  message_type = message_type;
  receive_time_ns = 0;
}

unfoldable pub set_timestamp_now : ℕ → Message → Message
set_timestamp_now now m = record m { timestamp = now }

-- `8..16`
abbrev pub timestamp_offset : ℕ × ℕ
timestamp_offset = (8, 16)

-- An estimate; the wire form is longer.
unfoldable pub size : Message → ℕ
size m = add_usize (8 + 8) (add_usize (length m.payload) 1)

-- `buffer[start..end].copy_from_slice(&now.to_le_bytes())`; `none` is the panic of the slice or of
-- the copy. Without a range nothing is written.
unfoldable pub stamp : Option (ℕ × ℕ) → ℕ → List ℕ → Option (List ℕ)
stamp none now bs = some bs
stamp (some (start, end)) now bs =
    if leb start end && (leb end (length bs) && (sub_usize end start == 8))
    then some (copy_in bs start (to_le_bytes 8 now))
    else none

pub length-stamp :
    (o : Option (ℕ × ℕ)) (now : ℕ) (bs : List ℕ) {bs' : List ℕ}
    → stamp o now bs ≡ some bs'
    → length bs' ≡ length bs
unfolding stamp
length-stamp none now bs e = ground arith
length-stamp (some (s, t)) now bs e = ground (arith, length-copy_in bs s (to_le_bytes 8 now))

-- What Rust's types say of a message.
pub record IsMessage (m : Message) : Type 0 where
  pub id_range : IsU64 m.id
  pub timestamp_range : IsU64 m.timestamp
  pub payload_range : All IsByte m.payload
  pub length_range : length m.payload < 2 ^ 63

-- Every message type comes back from its discriminant; of the numbers below 6 each is the
-- discriminant of the type that it is read as, and the others are read as a one-way message.
pub from_u32-as_u32 :
    (t : MessageType) (n : ℕ)
    → (from_u32 (as_u32 t) ≡ t) × (as_u32 (from_u32 n) ≡ (if ltb n 6 then n else 0))
unfolding from_u32 as_u32
from_u32-as_u32 one_way n = (refl, ground arith)
from_u32-as_u32 t n = (refl, ground arith)

-- While the seconds fit 64 bits of nanoseconds, a later reading of the clock gives a larger time.
pub get_monotonic_time_ns-lt :
    (s ns t nt : ℕ)
    → ns < 1_000_000_000
    → nt < 1_000_000_000
    → t < 18_446_744_073
    → (s < t) ⊎ ((s ≡ t) × (ns < nt))
    → get_monotonic_time_ns s ns < get_monotonic_time_ns t nt
unfolding get_monotonic_time_ns
get_monotonic_time_ns-lt s ns t nt hs ht small later = omega arith
