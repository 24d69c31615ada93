-- ===== src/Stream/Errors.antt =====
-- Streams that no sender of the program writes: truncated ones, and prefixes out of range.
use rusty_comms.Prelude.{
  ℕ, ◌+◌, ◌≤◌, ◌<◌, ◌≡◌, inl, inr, sym, ap, ◌∙◌, Bool, true, false, not, ◌||◌, [], length, take,
  drop, arith, leb, ltb, ◌==◌, leb→le, ltb→lt, ltb→le, if◌then◌else◌, Bool-cases, ◌≢◌, length-drop,
  Result, ok, err,
}
use rusty_comms.Bytes.Endian.{from_le_bytes}
use rusty_comms.Ipc.Message.{Message}
use rusty_comms.Ipc.Bincode.{Bincode}
use rusty_comms.Stream.{
  Fault, unexpected_eof, invalid_message_length, Conn, ◌>>=◌, ◌>>◌, lift, guard, read_exact,
  max_message_size, read_payload, allowed_blocking, allowed_async, receive, read_message, decode,
}
use rusty_comms.Stream.Framing.{bind-ok, bind-err}

-- The length that the first four bytes of a stream announce.
abbrev pub announced : Conn → ℕ
announced c = from_le_bytes (take 4 c.incoming)

read_exact-enough :
    (n : ℕ) (c : Conn)
    → n ≤ length c.incoming
    → read_exact n c ≡ (ok (take n c.incoming), record c { incoming = drop n c.incoming })
unfolding read_exact
read_exact-enough n c h = ground arith

read_exact-short :
    (n : ℕ) (c : Conn)
    → length c.incoming < n
    → read_exact n c ≡ (err unexpected_eof, record c { incoming = [] })
unfolding read_exact
read_exact-short n c h = ground arith

module _ (codec : Bincode) where
  read_payload-refused :
      (allowed : ℕ → Bool) (len : ℕ) (c : Conn)
      → allowed len ≡ false
      → read_payload codec allowed len c ≡ (err (invalid_message_length len), c)
  unfolding read_payload
  read_payload-refused allowed len c e =
      bind-err (guard (allowed len) (invalid_message_length len)) _
        (ap (λ t. guard t (invalid_message_length len) c) e)

  read_payload-short :
      (allowed : ℕ → Bool) (len : ℕ) (c : Conn)
      → allowed len ≡ true
      → length c.incoming < len
      → read_payload codec allowed len c ≡ (err unexpected_eof, record c { incoming = [] })
  unfolding read_payload
  read_payload-short allowed len c e h =
      bind-ok (guard (allowed len) (invalid_message_length len)) _
        (ap (λ t. guard t (invalid_message_length len) c) e)
      ∙ bind-err (read_exact len) (λ b. lift (decode codec b)) (read_exact-short len c h)

  receive-step :
      (c : Conn)
      → 4 ≤ length c.incoming
      → receive codec c
        ≡ read_payload codec allowed_blocking
            (announced c)
            (record c { incoming = drop 4 c.incoming })
  unfolding receive
  receive-step c h = bind-ok (read_exact 4) _ (read_exact-enough 4 c h)

  read_payload-whole :
      (allowed : ℕ → Bool) (len : ℕ) (c : Conn)
      → allowed len ≡ true
      → len ≤ length c.incoming
      → read_payload codec allowed len c
        ≡ (decode codec (take len c.incoming), record c { incoming = drop len c.incoming })
  unfolding read_payload
  read_payload-whole allowed len c e h =
      bind-ok (guard (allowed len) (invalid_message_length len)) _
        (ap (λ t. guard t (invalid_message_length len) c) e)
      ∙ bind-ok (read_exact len) (λ b. lift (decode codec b)) (read_exact-enough len c h)

  -- What a receiver has to do with the bytes that arrive, in terms of the announced length alone.
  abbrev pub outcome : Conn → Result Fault Message × Conn
  outcome c =
      if ltb (length c.incoming) 4
      then (err unexpected_eof, record c { incoming = [] })
      else if announced c == 0 || ltb max_message_size (announced c)
      then (err (invalid_message_length (announced c)), record c { incoming = drop 4 c.incoming })
      else if ltb (length c.incoming) (4 + announced c)
      then (err unexpected_eof, record c { incoming = [] })
      else (
        decode codec (take (announced c) (drop 4 c.incoming)),
        record c { incoming = drop (announced c) (drop 4 c.incoming) },
      )

  -- `receive_blocking` on any stream: one that ends inside the prefix, or inside the announced payload,
  -- is an unexpected end and leaves nothing; an announced length of 0 or above 16 MiB is an error that
  -- leaves the bytes behind the prefix unread; otherwise the payload is decoded, and the bytes behind
  -- it stay, whether or not it is a message.
  pub receive-outcome : (c : Conn) → receive codec c ≡ outcome c
  receive-outcome c = elim (Bool-cases (ltb (length c.incoming) 4)) [
    | inl e ↦
        rw e (unfold receive in bind-err (read_exact 4) _ (read_exact-short 4 c (ground arith)))
    | inr e ↦
        receive-step c (ground arith)
        ∙ elim (Bool-cases (announced c == 0 || ltb max_message_size (announced c))) [
          | inl bad ↦
              rw (e, bad)
                (read_payload-refused allowed_blocking (announced c)
                  (record c { incoming = drop 4 c.incoming }) (ap not bad))
          | inr good ↦ elim (Bool-cases (ltb (length c.incoming) (4 + announced c))) [
            | inl short ↦
                rw (e, good, short)
                  (read_payload-short allowed_blocking (announced c)
                    (record c { incoming = drop 4 c.incoming }) (ap not good)
                    (omega (
                      arith,
                      length-drop 4 c.incoming,
                      ltb→lt (length c.incoming) (4 + announced c) short,
                      ltb→le (length c.incoming) 4 e,
                    )))
            | inr whole ↦
                rw (e, good, whole)
                  (read_payload-whole allowed_blocking (announced c)
                    (record c { incoming = drop 4 c.incoming }) (ap not good)
                    (omega (
                      arith,
                      length-drop 4 c.incoming,
                      ltb→le (length c.incoming) (4 + announced c) whole,
                    )))
          ]
        ]
  ]

  read_payload-cong :
      (f g : ℕ → Bool) (len : ℕ) (c : Conn)
      → f len ≡ g len
      → read_payload codec f len c ≡ read_payload codec g len c
  unfolding read_payload
  read_payload-cong f g len c e =
      ap
        (λ t.
          (guard t (invalid_message_length len) >> (read_exact len >>= λ b. lift (decode codec b)))
            c)
        e

  -- The asynchronous `read_message` and the blocking `receive_blocking` do the same on every stream
  -- whose first four bytes do not announce an empty message.
  pub read_message-eq-receive :
      (c : Conn) → announced c ≢ 0 → read_message codec c ≡ receive codec c
  unfolding read_message receive
  read_message-eq-receive c h = elim (Bool-cases (leb 4 (length c.incoming))) [
    | inl e ↦
        bind-ok (read_exact 4) _ (read_exact-enough 4 c (leb→le 4 (length c.incoming) e))
        ∙ read_payload-cong allowed_async allowed_blocking (announced c)
            (record c { incoming = drop 4 c.incoming }) (ground arith)
        ∙ sym (bind-ok (read_exact 4) _ (read_exact-enough 4 c (leb→le 4 (length c.incoming) e)))
    | inr e ↦
        bind-err (read_exact 4) _ (read_exact-short 4 c (ground arith))
        ∙ sym (bind-err (read_exact 4) _ (read_exact-short 4 c (ground arith)))
  ]
