-- ===== src/Stream/Session.antt =====
-- A whole session on one connection: messages sent one after another and received in order.
use rusty_comms.Prelude.{
  ℕ, zero, suc, ◌≡◌, refl, sym, ap, ◌∙◌, false, List, [], ◌∷◌, ◌++◌, map, append_assoc, append-nil,
  length, ok, All, IsU64,
}
use rusty_comms.Ipc.Message.{Message, IsMessage}
use rusty_comms.Ipc.Bincode.{Bincode, wire}
use rusty_comms.Stream.{Conn, Io, ◌>>=◌, ◌>>◌, lift, send_tcp, receive}
use rusty_comms.Stream.Framing.{frame, bind-ok, delivered, Fits, send_tcp-frame, receive-frame}

module _ (codec : Bincode) where
  -- `send_blocking` for each message, at the clock's times.
  unfoldable pub send_all : List (ℕ × Message) → Io (Unit {0})
  send_all [] = lift (ok tt)
  send_all ((now, m) ∷ ms) = send_tcp codec now m >> send_all ms

  -- `receive_blocking`, `n` times.
  unfoldable pub receive_all : ℕ → Io (List Message)
  receive_all zero = lift (ok [])
  receive_all (suc n) = do m ← receive codec; ms ← receive_all n; lift (ok (m ∷ ms))

  abbrev pub Sendable : ℕ × Message → Type 0
  Sendable (now, m) = IsMessage m × IsU64 now × Fits codec (record m { timestamp = now })

  abbrev pub on_arrival : ℕ × Message → Message
  on_arrival (now, m) = delivered codec now m

  stream_bytes : List (ℕ × Message) → List ℕ
  stream_bytes [] = []
  stream_bytes ((now, m) ∷ ms) =
      frame (wire codec (record m { timestamp = now })) ++ stream_bytes ms

  send_all-bytes :
      (ms : List (ℕ × Message)) (c : Conn)
      → c.broken ≡ false
      → send_all ms c ≡ (ok tt, record c { outgoing = c.outgoing ++ stream_bytes ms })
  unfolding send_all stream_bytes
  send_all-bytes [] c e = ap (λ t. (ok tt, record c { outgoing = t })) (sym (append-nil c.outgoing))
  send_all-bytes ((now, m) ∷ ms) c e =
      bind-ok (send_tcp codec now m) (λ _. send_all ms) (send_tcp-frame codec now m c e)
      ∙ send_all-bytes ms (record c { outgoing = c.outgoing ++ head }) e
      ∙ ap (λ t. (ok tt, record c { outgoing = t }))
          (append_assoc c.outgoing head (stream_bytes ms))
    where
      head : List ℕ
      head = frame (wire codec (record m { timestamp = now }))

  receive_all-bytes :
      (ms : List (ℕ × Message)) (rest : List ℕ) (c : Conn)
      → All Sendable ms
      → c.incoming ≡ stream_bytes ms ++ rest
      → receive_all (length ms) c ≡ (ok (map on_arrival ms), record c { incoming = rest })
  unfolding receive_all stream_bytes
  receive_all-bytes [] rest c v e = ap (λ t. (ok [], record c { incoming = t })) e
  receive_all-bytes ((now, m) ∷ ms) rest c ((vm, vn, fits), vs) e =
      bind-ok (receive codec) _ (
        receive-frame codec stamped (stream_bytes ms ++ rest) c stamped-IsMessage fits
          (e ∙ append_assoc (frame (wire codec stamped)) (stream_bytes ms) rest))
      ∙ bind-ok (receive_all (length ms)) (λ t. lift (ok (on_arrival (now, m) ∷ t)))
          (receive_all-bytes ms rest (record c { incoming = stream_bytes ms ++ rest }) vs refl)
    where
      stamped : Message
      stamped = record m { timestamp = now }

      stamped-IsMessage : IsMessage stamped
      stamped-IsMessage = record {
        id_range = vm.id_range;
        timestamp_range = vn;
        payload_range = vm.payload_range;
        length_range = vm.length_range;
      }

  -- Messages of at most 16 MiB that are sent over a working connection arrive at its other end all,
  -- in order and with the timestamps of their sending, and what follows them in the stream is left.
  pub receive_all-send_all :
      (ms : List (ℕ × Message)) (rest : List ℕ) (a b : Conn)
      → All Sendable ms
      → a.broken ≡ false
      → a.outgoing ≡ []
      → b.incoming ≡ (send_all ms a).1.outgoing ++ rest
      → ((send_all ms a).0 ≡ ok tt)
        × (receive_all (length ms) b ≡ (ok (map on_arrival ms), record b { incoming = rest }))
  receive_all-send_all ms rest a b v works fresh e = (
    ap (λ p. p.0) sent,
    receive_all-bytes ms rest b v (e ∙ ap (λ p. p.1.outgoing ++ rest) sent ∙ start),
  )
    where
      sent : send_all ms a ≡ (ok tt, record a { outgoing = a.outgoing ++ stream_bytes ms })
      sent = send_all-bytes ms a works

      start : (a.outgoing ++ stream_bytes ms) ++ rest ≡ stream_bytes ms ++ rest
      start = ap (λ t. (t ++ stream_bytes ms) ++ rest) fresh
