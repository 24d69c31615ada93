-- ===== src/Stream/Framing.antt =====
-- What a sender writes is what a receiver reads: the length prefix frames the messages of a stream.
use rusty_comms.Prelude.{
  ℕ, ◌%◌, ◌^◌, ◌≤◌, ◌<◌, ◌≡◌, refl, sym, ap, ◌∙◌, Bool, true, false, List, ◌++◌, append_assoc,
  length, arith, le→leb, length-append, take-append, drop-append, ok, err,
}
use rusty_comms.Bytes.Endian.{from_le_bytes, length-to_le_bytes, u32_round_trip}
use rusty_comms.Ipc.Message.{Message, IsMessage}
use rusty_comms.Ipc.Bincode.{Bincode, to_bytes, from_bytes, wire, stamp-wire, length-wire}
use rusty_comms.Stream.{
  Fault, invalid_message_length, Conn, Io, ◌>>=◌, ◌>>◌, lift, read_exact, write_all,
  max_message_size, prefix, prepare, decode, send_tcp, receive, next, guard, read_payload,
  allowed_blocking,
}

abbrev pub frame : List ℕ → List ℕ
frame bs = prefix bs ++ bs

pub read_exact-append :
    (n : ℕ) (xs ys : List ℕ) (c : Conn)
    → n ≡ length xs
    → c.incoming ≡ xs ++ ys
    → read_exact n c ≡ (ok xs, record c { incoming = ys })
unfolding read_exact
read_exact-append n xs ys c e h = rw (
  h,
  take-append n xs ys e,
  drop-append n xs ys e,
  le→leb n (length (xs ++ ys)) (omega (arith, length-append xs ys)),
)

pub length-prefix : (bs : List ℕ) → length (prefix bs) ≡ 4
length-prefix bs = length-to_le_bytes 4 (length bs % 2 ^ 32)

pub bind-ok :
    {A B : Type 0} (m : Io A) (f : A → Io B) {c c' : Conn} {a : A}
    → m c ≡ (ok a, c')
    → (m >>= f) c ≡ f a c'
bind-ok m f e = ap (next f) e

pub bind-err :
    {A B : Type 0} (m : Io A) (f : A → Io B) {c c' : Conn} {e : Fault}
    → m c ≡ (err e, c')
    → (m >>= f) c ≡ (err e, c')
bind-err m f e = ap (next f) e

pub write_all-ok :
    (bs : List ℕ) (c : Conn)
    → c.broken ≡ false
    → write_all bs c ≡ (ok tt, record c { outgoing = c.outgoing ++ bs })
unfolding write_all
write_all-ok bs c e = ground arith

module _ (codec : Bincode) where
  open codec use {fields_in_order, reads_back}

  -- The message that a receiver gets of one that was stamped at the time `now`.
  abbrev pub delivered : ℕ → Message → Message
  delivered now m = record m { timestamp = now; receive_time_ns = 0 }

  abbrev pub Fits : Message → Type 0
  Fits m = length (wire codec m) ≤ max_message_size

  pub prepare-wire :
      (now : ℕ) (m : Message) → prepare codec now m ≡ ok (wire codec (record m { timestamp = now }))
  unfolding prepare to_bytes
  prepare-wire now m =
      rw (fields_in_order (record m { timestamp = 0 }), prepare)
        (rw (stamp-wire codec (record m { timestamp = 0 }) now, prepare))

  -- On a working connection `send_blocking` of TCP appends the frame of the stamped message.
  pub send_tcp-frame :
      (now : ℕ) (m : Message) (c : Conn)
      → c.broken ≡ false
      → send_tcp codec now m c ≡ (
        ok tt,
        record c { outgoing = c.outgoing ++ frame (wire codec (record m { timestamp = now })) },
      )
  unfolding send_tcp
  send_tcp-frame now m c e =
      bind-ok (lift (prepare codec now m)) (λ b. write_all (prefix b) >> write_all b)
        (ap (λ r. (r, c)) (prepare-wire now m))
      ∙ bind-ok (write_all (prefix bs)) (λ _. write_all bs) (write_all-ok (prefix bs) c e)
      ∙ write_all-ok bs (record c { outgoing = c.outgoing ++ prefix bs }) e
      ∙ ap (λ t. (ok tt, record c { outgoing = t })) (append_assoc c.outgoing (prefix bs) bs)
    where
      bs : List ℕ
      bs = wire codec (record m { timestamp = now })

  pub decode-wire :
      (m : Message)
      → IsMessage m
      → decode codec (wire codec m) ≡ ok (record m { receive_time_ns = 0 })
  unfolding decode from_bytes
  decode-wire m v = rw (reads_back m v, decode)

  -- The two reads of a receiver on the frame of a message of at most 16 MiB.
  length-prefix_lem :
      (m : Message)
      → Fits m
      → (from_le_bytes (prefix (wire codec m)) ≡ length (wire codec m))
        × (0 < length (wire codec m))
  length-prefix_lem m fits =
      (u32_round_trip (length (wire codec m)) (omega arith), omega (arith, length-wire codec m))

  read_payload-wire :
      (allowed : ℕ → Bool) (m : Message) (rest : List ℕ) (c : Conn)
      → IsMessage m
      → c.incoming ≡ wire codec m ++ rest
      → allowed (length (wire codec m)) ≡ true
      → read_payload codec allowed (length (wire codec m)) c
        ≡ (ok (record m { receive_time_ns = 0 }), record c { incoming = rest })
  unfolding read_payload
  read_payload-wire allowed m rest c v e a =
      bind-ok (guard (allowed (length bs)) (invalid_message_length (length bs))) _
        (ap (λ t. guard t (invalid_message_length (length bs)) c) a)
      ∙ bind-ok (read_exact (length bs)) (λ b. lift (decode codec b))
          (read_exact-append (length bs) bs rest c refl e)
      ∙ ap (λ r. (r, record c { incoming = rest })) (decode-wire m v)
    where
      bs : List ℕ
      bs = wire codec m

  -- On a stream that starts with the frame of a message of at most 16 MiB, `receive_blocking` returns
  -- the message and leaves what follows the frame.
  pub receive-frame :
      (m : Message) (rest : List ℕ) (c : Conn)
      → IsMessage m
      → Fits m
      → c.incoming ≡ frame (wire codec m) ++ rest
      → receive codec c ≡ (ok (record m { receive_time_ns = 0 }), record c { incoming = rest })
  unfolding receive
  receive-frame m rest c v fits e =
      bind-ok (read_exact 4) (λ b. read_payload codec allowed_blocking (from_le_bytes b))
        (read_exact-append 4 (prefix bs) (bs ++ rest) c (sym (length-prefix bs))
          (e ∙ append_assoc (prefix bs) bs rest))
      ∙ ap (λ n. read_payload codec allowed_blocking n (record c { incoming = bs ++ rest }))
          (length-prefix_lem m fits).0
      ∙ read_payload-wire allowed_blocking m rest (record c { incoming = bs ++ rest }) v refl
          (ground (arith, (length-prefix_lem m fits).1))
    where
      bs : List ℕ
      bs = wire codec m
