-- ===== src/Stream/Tests.antt =====
-- Runs of the stream transports, and their theorems at concrete inputs.
use rusty_comms.Prelude.{ℕ, ◌≡◌, refl, false, some, List, [], ◌∷◌, ◌++◌, map, arith, ok}
use rusty_comms.Bytes.Endian.{to_le_bytes, from_le_bytes}
use rusty_comms.Bytes.Copy.{copy_in}
use rusty_comms.Ipc.Message.{Message, IsMessage, stamp, as_u32}
use rusty_comms.Ipc.Bincode.{wire, to_bytes}
use rusty_comms.Ipc.Sample.{fixint, ask, ask-IsMessage}
use rusty_comms.Stream.{Conn, prepare, write_all, send_tcp, send_uds, receive}
use rusty_comms.Stream.Framing.{frame, delivered}
use rusty_comms.Stream.Session.{send_all, receive_all, on_arrival, receive_all-send_all}
use rusty_comms.Stream.Errors.{outcome, receive-outcome}
use rusty_comms.Stream.Writev.{send_uds-eq-tcp}
use rusty_comms.Stream.Socket.{
  ensure_connection, with_stream, start_client_blocking, send_blocking, on_stream, new, from_stream,
  client_to_server, client_sends, server_receives,
}

-- Opens what a run computes with.
run_all : ℕ
unfolding to_le_bytes from_le_bytes copy_in stamp to_bytes prepare write_all send_tcp
    ensure_connection with_stream on_stream from_stream new start_client_blocking send_blocking
    as_u32
run_all = 0

abbrev idle : Conn
idle = record { incoming = []; outgoing = []; broken = false }

-- A connection on which `ask` arrives, sent at the time 5, with one byte behind it.
abbrev arriving : Conn
arriving = record idle { incoming = frame (wire fixint (record ask { timestamp = 5 })) ++ (1 ∷ []) }

-- Its payload is missing but for two bytes.
abbrev cut : Conn
cut = record idle { incoming = 30 ∷ 0 ∷ 0 ∷ 0 ∷ 7 ∷ 7 ∷ [] }

stamped-IsMessage : IsMessage (record ask { timestamp = 5 })
stamped-IsMessage = omega arith

abbrev two_asks : List (ℕ × Message)
two_asks = (5, ask) ∷ (6, ask) ∷ []

receive_all-send_all_example :
    ((send_all fixint two_asks idle).0 ≡ ok tt)
    × (receive_all fixint 2
          (record idle { incoming = (send_all fixint two_asks idle).1.outgoing ++ (1 ∷ []) })
        ≡ (ok (map (on_arrival fixint) two_asks), record idle { incoming = 1 ∷ [] }))
unfolding to_le_bytes
receive_all-send_all_example =
    receive_all-send_all fixint two_asks (1 ∷ []) idle
      (record idle { incoming = (send_all fixint two_asks idle).1.outgoing ++ (1 ∷ []) })
      ((ask-IsMessage, omega arith, omega arith), ((omega arith, omega arith, omega arith), tt))
      refl refl refl

receive-outcome_example : receive fixint cut ≡ outcome fixint cut
receive-outcome_example = receive-outcome fixint cut

-- The kernel took seven bytes of the frame.
send_uds-eq-tcp_example : send_uds fixint (some 7) 5 ask idle ≡ send_tcp fixint 5 ask idle
unfolding to_le_bytes
send_uds-eq-tcp_example = send_uds-eq-tcp fixint 7 5 ask idle refl (omega arith) (omega arith)

-- The server's end of the client's connection.
abbrev far_end : Conn
far_end = record idle { incoming = frame (wire fixint (record ask { timestamp = 5 })) }

client_to_server_example :
    ((client_sends fixint 5 ask idle far_end).0 ≡ ok tt)
    × ((server_receives fixint 5 ask idle far_end).0 ≡ ok (delivered fixint 5 ask))
    × ((server_receives fixint 5 ask idle far_end).1.stream
        ≡ some (record far_end { incoming = [] }))
unfolding run_all
client_to_server_example =
    client_to_server fixint 5 ask idle far_end stamped-IsMessage (omega arith) refl refl refl
