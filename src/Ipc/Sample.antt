-- ===== src/Ipc/Sample.antt =====
-- Test data: a codec with the format of bincode's default options for `Message`, and a message.
use rusty_comms.Prelude.{
  ℕ, ◌^◌, ◌<◌, ◌≡◌, refl, sym, List, [], ◌∷◌, ◌++◌, length, take, drop, arith, ltb, if◌then◌else◌,
  take-append, drop-append, ok, err, Result, lt→ltb,
}
use rusty_comms.Bytes.Endian.{
  to_le_bytes, from_le_bytes, length-to_le_bytes, from_le_bytes-to_le_bytes,
}
use rusty_comms.Ipc.Message.{
  Message, MessageType, one_way, request, IsMessage, as_u32, from_u32, from_u32-as_u32,
}
use rusty_comms.Ipc.Bincode.{Bincode, SerdeError, malformed}

abbrev pub payload_and_type : List ℕ → MessageType → List ℕ
payload_and_type p t = to_le_bytes 8 (length p) ++ (p ++ to_le_bytes 4 (as_u32 t))

-- The first `k` bytes as a number, with what follows.
unfoldable pub take_word : ℕ → List ℕ → ℕ × List ℕ
take_word k bs = (from_le_bytes (take k bs), drop k bs)

unfoldable pub decode : List ℕ → Result SerdeError Message
decode bs =
    let (id, b1) = take_word 8 bs in
    let (timestamp, b2) = take_word 8 b1 in
    let (n, b3) = take_word 8 b2 in
    let (t, _) = take_word 4 (drop n b3) in
    if ltb t 6
    then ok (record {
      id = id;
      timestamp = timestamp;
      payload = take n b3;
      message_type = from_u32 t;
      receive_time_ns = 0;
    })
    else err malformed

take_word-append :
    (k n : ℕ) (bs : List ℕ) → n < 256 ^ k → take_word k (to_le_bytes k n ++ bs) ≡ (n, bs)
unfolding take_word
take_word-append k n bs h = rw (
  take-append k (to_le_bytes k n) bs (sym (length-to_le_bytes k n)),
  drop-append k (to_le_bytes k n) bs (sym (length-to_le_bytes k n)),
  from_le_bytes-to_le_bytes k n h,
)

as_u32-lt : (t : MessageType) → as_u32 t < 6
unfolding as_u32
as_u32-lt t = ground arith

last_word : (t : MessageType) → (take_word 4 (to_le_bytes 4 (as_u32 t))).0 ≡ as_u32 t
unfolding take_word to_le_bytes from_le_bytes as_u32
last_word one_way = refl
last_word _ = refl

pub decode-reads_back :
    (m : Message)
    → IsMessage m
    → decode (
        to_le_bytes 8 m.id
        ++ (to_le_bytes 8 m.timestamp ++ payload_and_type m.payload m.message_type))
      ≡ ok (record m { receive_time_ns = 0 })
unfolding decode
decode-reads_back m v =
    rw
      (take_word-append 8 m.id
        (to_le_bytes 8 m.timestamp ++ payload_and_type m.payload m.message_type) v.id_range)
      (rw
        (take_word-append 8 m.timestamp (payload_and_type m.payload m.message_type)
          v.timestamp_range)
        (rw
          (take_word-append 8 (length m.payload)
            (m.payload ++ to_le_bytes 4 (as_u32 m.message_type)) (omega (arith, v.length_range)))
          (rw (
            drop-append (length m.payload) m.payload (to_le_bytes 4 (as_u32 m.message_type)) refl,
            take-append (length m.payload) m.payload (to_le_bytes 4 (as_u32 m.message_type)) refl,
            last_word m.message_type,
            lt→ltb (as_u32 m.message_type) 6 (as_u32-lt m.message_type),
            (from_u32-as_u32 m.message_type 0).0,
          ))))

abbrev pub fixint : Bincode
fixint = record {
  serialize = λ m. ok (
      to_le_bytes 8 m.id
      ++ (to_le_bytes 8 m.timestamp ++ payload_and_type m.payload m.message_type));
  deserialize = decode;
  rest = payload_and_type;
  fields_in_order = λ m. refl;
  reads_back = decode-reads_back;
}

abbrev pub ask : Message
ask = record {
  id = 3;
  timestamp = 0;
  payload = 9 ∷ 8 ∷ [];
  message_type = request;
  receive_time_ns = 0;
}

pub ask-IsMessage : IsMessage ask
ask-IsMessage = omega arith
