-- ===== src/Stream/Socket.antt =====
-- `BlockingTcpSocket` and `BlockingUnixDomainSocket`: a listener, a stream, and the connection that
-- a server accepts at its first send or receive. What the system calls return is an argument.
use rusty_comms.Prelude.{
  ℕ, ◌≡◌, inl, inr, refl, sym, ap, ap₂, ◌∙◌, Bool, true, false, Option, none, some, Option-cases,
  Bool-cases, append-nil, List, [], ◌++◌, if◌then◌else◌, Result, ok, err,
}
use rusty_comms.Ipc.Message.{Message, IsMessage}
use rusty_comms.Ipc.Bincode.{Bincode, wire}
use rusty_comms.Stream.{Fault, not_connected, Conn, Io, send_tcp, receive}
use rusty_comms.Stream.Framing.{frame, delivered, Fits, send_tcp-frame, receive-frame}

pub record Socket : Type 0 where
  pub listening : Bool
  pub stream : Option Conn

abbrev pub Method : Type 0 → Type 0
Method A = Socket → Result Fault A × Socket

unfoldable pub new : Socket
new = record { listening = false; stream = none }

unfoldable pub from_stream : Conn → Socket
from_stream c = record { listening = false; stream = some c }

-- `bound` is the outcome of creating, binding and listening.
unfoldable pub start_server_blocking : Result Fault (Unit {0}) → Method (Unit {0})
start_server_blocking (ok _) s = (ok tt, record s { listening = true })
start_server_blocking (err e) s = (err e, s)

unfoldable pub start_client_blocking : Result Fault Conn → Method (Unit {0})
start_client_blocking (ok c) s = (ok tt, record s { stream = some c })
start_client_blocking (err e) s = (err e, s)

accept : Result Fault Conn → Method (Unit {0})
accept (ok c) s = (ok tt, record s { stream = some c })
accept (err e) s = (err e, s)

-- `accepted` is what a call of `accept` (with `set_nodelay`) would return now.
unfoldable pub ensure_connection : Result Fault Conn → Method (Unit {0})
unfolding accept
ensure_connection accepted s = elim s.stream [
  | some _ ↦ (ok tt, s)
  | none ↦ if s.listening then accept accepted s else (ok tt, s)
]

-- `self.stream.as_mut().context(…)?`, then an operation on the stream.
unfoldable pub with_stream : {A : Type 0} → Io A → Method A
with_stream op s = elim s.stream [
  | none ↦ (err not_connected, s)
  | some c ↦ ((op c).0, record s { stream = some (op c).1 })
]

then_stream : {A : Type 0} → Io A → Result Fault (Unit {0}) × Socket → Result Fault A × Socket
then_stream op (ok _, s) = with_stream op s
then_stream op (err e, s) = (err e, s)

-- `ensure_connection()?`, then the stream: `send_blocking` and `receive_blocking` begin so.
unfoldable pub on_stream : {A : Type 0} → Result Fault Conn → Io A → Method A
unfolding then_stream
on_stream accepted op s = then_stream op (ensure_connection accepted s)

unfoldable pub send_blocking : Bincode → Result Fault Conn → ℕ → Message → Method (Unit {0})
send_blocking codec accepted now m = on_stream accepted (send_tcp codec now m)

unfoldable pub receive_blocking : Bincode → Result Fault Conn → Method Message
receive_blocking codec accepted = on_stream accepted (receive codec)

unfoldable pub close_blocking : Method (Unit {0})
close_blocking s = (ok tt, record s { listening = false; stream = none })

on_stream-connected :
    {A : Type 0} (accepted : Result Fault Conn) (op : Io A) (s : Socket) {c : Conn}
    → s.stream ≡ some c
    → on_stream accepted op s ≡ ((op c).0, record s { stream = some (op c).1 })
unfolding on_stream ensure_connection with_stream
on_stream-connected accepted op s e = ap (λ t. on_stream accepted op (record s { stream = t })) e

on_stream-accepted :
    {A : Type 0} (op : Io A) (s : Socket) (c : Conn)
    → s.stream ≡ none
    → s.listening ≡ true
    → on_stream (ok c) op s ≡ ((op c).0, record s { stream = some (op c).1 })
unfolding on_stream ensure_connection with_stream
on_stream-accepted op s c e l =
    ap₂ (λ t b. on_stream (ok c) op (record { listening = b; stream = t })) e l
    ∙ ap (λ b. ((op c).0, record { listening = b; stream = some (op c).1 })) (sym l)

on_stream-refused :
    {A : Type 0} (f : Fault) (op : Io A) (s : Socket)
    → s.stream ≡ none
    → s.listening ≡ true
    → on_stream (err f) op s ≡ (err f, s)
unfolding on_stream ensure_connection with_stream
on_stream-refused f op s e l =
    ap₂ (λ t b. on_stream (err f) op (record { listening = b; stream = t })) e l
    ∙ ap₂ (λ t b. (err f, record { listening = b; stream = t })) (sym e) (sym l)

on_stream-absent :
    {A : Type 0} (accepted : Result Fault Conn) (op : Io A) (s : Socket)
    → s.stream ≡ none
    → s.listening ≡ false
    → on_stream accepted op s ≡ (err not_connected, s)
unfolding on_stream ensure_connection with_stream
on_stream-absent accepted op s e l =
    ap₂ (λ t b. on_stream accepted op (record { listening = b; stream = t })) e l
    ∙ ap₂ (λ t b. (err not_connected, record { listening = b; stream = t })) (sym e) (sym l)

on_stream-ok :
    {A : Type 0} (accepted : Result Fault Conn) (op : Io A) (s : Socket) {a : A}
    → (on_stream accepted op s).0 ≡ ok a
    → (c : Conn) × ((on_stream accepted op s).1.stream ≡ some c)
on_stream-ok (ok d) op s h = elim (Option-cases s.stream) [
  | inr (c, e) ↦ ((op c).1, ap (λ p. p.1.stream) (on_stream-connected (ok d) op s e))
  | inl e ↦ elim (Bool-cases s.listening) [
    | inl l ↦ ((op d).1, ap (λ p. p.1.stream) (on_stream-accepted op s d e l))
    | inr l ↦ cc (ap (λ p. p.0) (on_stream-absent (ok d) op s e l))
  ]
]
on_stream-ok (err f) op s h = elim (Option-cases s.stream) [
  | inr (c, e) ↦ ((op c).1, ap (λ p. p.1.stream) (on_stream-connected (err f) op s e))
  | inl e ↦ elim (Bool-cases s.listening) [
    | inl l ↦ cc (ap (λ p. p.0) (on_stream-refused f op s e l))
    | inr l ↦ cc (ap (λ p. p.0) (on_stream-absent (err f) op s e l))
  ]
]

-- Once an operation has succeeded the socket keeps its connection: what a later `accept` would return
-- makes no difference to the operations that follow.
pub accepts_once :
    {A B : Type 0} (accepted x y : Result Fault Conn) (first : Io A) (later : Io B) (s : Socket)
    {a : A}
    → (on_stream accepted first s).0 ≡ ok a
    → on_stream x later (on_stream accepted first s).1
      ≡ on_stream y later (on_stream accepted first s).1
accepts_once accepted x y first later s h =
    let (c, e) = on_stream-ok accepted first s h in
    on_stream-connected x later (on_stream accepted first s).1 e
    ∙ sym (on_stream-connected y later (on_stream accepted first s).1 e)

-- A closed socket, and one that was never started, is left as it is by every send or receive, with
-- the error of a missing connection, whatever it was before and whoever tries to connect.
pub closed_lem :
    {A : Type 0} (accepted : Result Fault Conn) (op : Io A) (s : Socket)
    → (on_stream accepted op (close_blocking s).1 ≡ (err not_connected, (close_blocking s).1))
      × ((close_blocking s).1 ≡ new)
unfolding close_blocking new
closed_lem accepted op s = (on_stream-absent accepted op (close_blocking s).1 refl refl, refl)

-- What has been written to the socket's stream.
abbrev pub written : Socket → List ℕ
written s = elim s.stream [ none ↦ [] | some c ↦ c.outgoing ]

-- The two ends after one message: the client's connection is `a`, and `b` is the server's, which
-- receives what the client has written.
module _ (codec : Bincode) (now : ℕ) (m : Message) (a b : Conn) where
  abbrev pub client_sends : Result Fault (Unit {0}) × Socket
  client_sends = send_blocking codec (err not_connected) now m (start_client_blocking (ok a) new).1

  abbrev pub server_receives : Result Fault Message × Socket
  server_receives = receive_blocking codec (ok b) (start_server_blocking (ok tt) new).1

  -- A client that is started on a working connection sends a message of at most 16 MiB; the server,
  -- started and not yet connected, accepts and receives it with the timestamp of its sending, and has
  -- read all that was written.
  pub client_to_server :
      IsMessage (record m { timestamp = now })
      → Fits codec (record m { timestamp = now })
      → a.broken ≡ false
      → a.outgoing ≡ []
      → b.incoming ≡ written client_sends.1
      → (client_sends.0 ≡ ok tt)
        × (server_receives.0 ≡ ok (delivered codec now m))
        × (server_receives.1.stream ≡ some (record b { incoming = [] }))
  unfolding start_client_blocking start_server_blocking send_blocking receive_blocking new
  client_to_server v fits works fresh arrives =
      (ap (λ p. p.0) sent, ap (λ p. p.0) got, ap (λ p. p.1.stream) got)
    where
      client : Socket
      client = record { listening = false; stream = some a }

      server : Socket
      server = record { listening = true; stream = none }

      bytes : List ℕ
      bytes = frame (wire codec (record m { timestamp = now }))

      sent :
          on_stream (err not_connected) (send_tcp codec now m) client
          ≡ (ok tt, record client { stream = some (record a { outgoing = a.outgoing ++ bytes }) })
      sent =
          on_stream-connected (err not_connected) (send_tcp codec now m) client refl
          ∙ ap (λ p. (p.0, record client { stream = some p.1 }))
              (send_tcp-frame codec now m a works)

      in_flight : b.incoming ≡ bytes ++ []
      in_flight =
          arrives ∙ ap (λ p. written p.1) sent ∙ ap (λ t. t ++ bytes) fresh ∙ sym (append-nil bytes)

      got : on_stream (ok b) (receive codec) server ≡ (
        ok (delivered codec now m),
        record server { stream = some (record b { incoming = [] }) },
      )
      got =
          on_stream-accepted (receive codec) server b refl refl
          ∙ ap (λ p. (p.0, record server { stream = some p.1 }))
              (receive-frame codec (record m { timestamp = now }) [] b v fits in_flight)
