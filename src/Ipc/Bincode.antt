-- ===== src/Ipc/Bincode.antt =====
-- The serialisation of messages. The `bincode` crate is not part of the repository: it is a
-- parameter, with what its documentation says of the default format as laws.
use rusty_comms.Prelude.{
  ℕ, ◌+◌, ◌≡◌, sym, ap, ◌∙◌, true, some, List, ◌++◌, length, arith, leb, length-append, Result, ok,
}
use rusty_comms.Bytes.Endian.{to_le_bytes, length-to_le_bytes}
use rusty_comms.Bytes.Copy.{copy_in-append}
use rusty_comms.Ipc.Message.{Message, MessageType, IsMessage, stamp, timestamp_offset}

pub data SerdeError : Type 0 where
  malformed : SerdeError

-- Integers are little-endian of fixed width and the fields follow one another in declaration order,
-- so a message starts with its id and its timestamp; `rest` is what follows. `receive_time_ns` is
-- skipped, and read back as its default.
pub record Bincode : Type 0 where
  pub serialize : Message → Result SerdeError (List ℕ)
  pub deserialize : List ℕ → Result SerdeError Message
  pub rest : List ℕ → MessageType → List ℕ
  pub fields_in_order :
      (m : Message)
      → serialize m
        ≡ ok (to_le_bytes 8 m.id ++ (to_le_bytes 8 m.timestamp ++ rest m.payload m.message_type))
  pub reads_back :
      (m : Message)
      → IsMessage m
      → deserialize
          (to_le_bytes 8 m.id ++ (to_le_bytes 8 m.timestamp ++ rest m.payload m.message_type))
        ≡ ok (record m { receive_time_ns = 0 })

module _ (codec : Bincode) where
  open codec use {serialize, deserialize, rest, fields_in_order, reads_back}

  -- `Message::to_bytes` and `Message::from_bytes`
  unfoldable pub to_bytes : Message → Result SerdeError (List ℕ)
  to_bytes m = serialize m

  unfoldable pub from_bytes : List ℕ → Result SerdeError Message
  from_bytes bs = deserialize bs

  abbrev pub wire : Message → List ℕ
  wire m = to_le_bytes 8 m.id ++ (to_le_bytes 8 m.timestamp ++ rest m.payload m.message_type)

  pub length-wire : (m : Message) → length (wire m) ≡ 16 + length (rest m.payload m.message_type)
  length-wire m = omega (
    arith,
    length-append (to_le_bytes 8 m.id) (to_le_bytes 8 m.timestamp ++ rest m.payload m.message_type),
    length-append (to_le_bytes 8 m.timestamp) (rest m.payload m.message_type),
    length-to_le_bytes 8 m.id,
    length-to_le_bytes 8 m.timestamp,
  )

  -- Stamping the bytes of a message at `timestamp_offset` gives the bytes of the message with that
  -- timestamp.
  pub stamp-wire :
      (m : Message) (now : ℕ)
      → stamp (some timestamp_offset) now (wire m) ≡ some (wire (record m { timestamp = now }))
  unfolding stamp
  stamp-wire m now = rw long (
      ap some (
        copy_in-append (to_le_bytes 8 m.id) (to_le_bytes 8 m.timestamp)
          (rest m.payload m.message_type) (to_le_bytes 8 now) 8 (sym (length-to_le_bytes 8 m.id))
          (length-to_le_bytes 8 m.timestamp ∙ sym (length-to_le_bytes 8 now))))
    where
      long : leb 16 (length (wire m)) ≡ true
      long = ground (arith, length-wire m)
