-- ===== src/AsyncQueue.antt =====
-- `PosixMessageQueueTransport` of src/ipc/posix_message_queue.rs: one queue, opened without blocking, for
-- both directions. The kernel's queues are not part of the repository: what each system call returns is
-- an argument. Loops that sleep give the list of their delays.
pub mod Retries
pub mod Opening
pub mod Exchange
pub mod Receiver
mod Tests
pub use rusty_comms.Prelude.{Run, running, crashed, returned}
use rusty_comms.Prelude.{
  ℕ, ◌+◌, ◌*◌, Bool, true, false, not, ◌&&◌, ◌||◌, Option, none, some, List, [], ◌∷◌, ◌++◌, min,
  max, ltb, leb, ◌==◌, if◌then◌else◌, Result, ok, err,
}
use rusty_comms.Ipc.Message.{Message, stamp, timestamp_offset}
use rusty_comms.Ipc.Bincode.{Bincode, to_bytes, from_bytes}
use rusty_comms.Queue.{
  Config, Call, unlink, close_fd, Receiving, received, empty, broken, with_slash, closes, is_empty,
}

-- The states; the code here sets three of them.
pub data TransportState : Type 0 where
  uninitialized initializing connected disconnected error : TransportState

pub record Transport : Type 0 where
  pub state : TransportState
  pub queue_name : List ℕ
  pub mq_fd : Option ℕ
  pub max_msg_size : ℕ
  pub max_msg_count : ℕ
  pub is_creator : Bool
  pub has_warned_backpressure : Bool
  pub config : Option Config

pub data Fault : Type 0 where
  no_queue backpressure_timeout send_failed task_failed receive_failed : Fault
  serialize_failed deserialize_failed : Fault
  create_failed : ℕ → Fault
  open_failed : ℕ → ℕ → Fault
  system : ℕ → Fault

abbrev pub Outcome : Type 0 → Type 0
Outcome A = Run Fault A

unfoldable pub new : Transport
new = record {
  state = uninitialized;
  queue_name = [];
  mq_fd = none;
  max_msg_size = 8192;
  max_msg_count = 10;
  is_creator = false;
  has_warned_backpressure = false;
  config = none;
}

-- How both starts begin.
unfoldable pub configure : Bool → Config → Transport → Transport
configure is_creator config t = record t {
  config = some config;
  queue_name = with_slash config.message_queue_name;
  max_msg_count = config.message_queue_depth;
  max_msg_size = max config.buffer_size 1024;
  is_creator = is_creator;
}

-- `created` is what `mq_open` with `O_CREAT` gives: a descriptor or an error.
unfoldable pub start_server : Result ℕ ℕ → Config → Transport → Result Fault (Unit {0}) × Transport
start_server created config t =
    let q = configure true config t in
    elim created [
      | err code ↦ (err (create_failed code), q)
      | ok fd ↦ (ok tt, record q { mq_fd = some fd; state = connected })
    ]

-- What `mq_open` of an existing queue gives; `missing` is ENOENT, and `refused` another error.
pub data Opened : Type 0 where
  opened : ℕ → Opened
  missing : Opened
  refused : ℕ → Opened

-- The number of ENOENT, which the last error also is.
abbrev pub enoent : ℕ
enoent = 2

-- The loop of the client: attempts that have failed, and the delay before the next one in milliseconds.
unfoldable pub open_loop : ℕ → ℕ → List Opened → Outcome ℕ × List ℕ
open_loop attempts delay [] = (running, [])
open_loop attempts delay (opened fd ∷ tries) = (returned (ok fd), [])
open_loop attempts delay (missing ∷ tries) =
    let (o, delays) = open_loop (attempts + 1) (min (delay * 2) 1000) tries in
    if ltb attempts 10
    then (o, delay ∷ delays)
    else (returned (err (open_failed (attempts + 1) enoent)), [])
open_loop attempts delay (refused code ∷ tries) =
    (returned (err (open_failed (attempts + 1) code)), [])

abbrev pub joined : Outcome ℕ → Transport → Outcome (Unit {0}) × Transport
joined running q = (running, q)
joined crashed q = (crashed, q)
joined (returned (err e)) q = (returned (err e), q)
joined (returned (ok fd)) q = (returned (ok tt), record q { mq_fd = some fd; state = connected })

unfoldable pub start_client :
    List Opened → Config → Transport → (Outcome (Unit {0}) × Transport) × List ℕ
start_client tries config t =
    let (o, delays) = open_loop 0 10 tries in (joined o (configure false config t), delays)

-- What `mq_send` gives: accepted, with the time that the call took in nanoseconds; EAGAIN; another error.
pub data Sending : Type 0 where
  accepted : ℕ → Sending
  full : Sending
  failed : ℕ → Sending

-- The outcome of the send loop: what the kernel has accepted, the delays, and whether the queue was found
-- to push back.
pub record Sent : Type 0 where
  pub outcome : Outcome (List ℕ)
  pub delays : List ℕ
  pub backpressure : Bool

abbrev pub five_ms : ℕ
five_ms = 5_000_000

-- `for attempt in 0..100`: each attempt stamps a copy of the serialised message with the time at which it
-- is made. The delay is in milliseconds.
unfoldable pub send_loop : ℕ → ℕ → Bool → List (ℕ × Sending) → List ℕ → Sent
send_loop attempt delay pressed [] data' = record {
  outcome = running;
  delays = [];
  backpressure = pressed;
}
send_loop attempt delay pressed ((now, result) ∷ tries) data' =
    let rest = send_loop (attempt + 1) (min (delay * 2) 10) true tries data' in
    if leb 100 attempt
    then record { outcome = returned (err send_failed); delays = []; backpressure = pressed }
    else (elim (stamp (some timestamp_offset) now data') [
      | none ↦ record { outcome = returned (err task_failed); delays = []; backpressure = pressed }
      | some stamped ↦ elim result [
        | accepted elapsed ↦ record {
          outcome = returned (ok stamped);
          delays = [];
          backpressure = pressed || ltb five_ms elapsed;
        }
        | full ↦
            if attempt == 99
            then record {
              outcome = returned (err backpressure_timeout);
              delays = [];
              backpressure = true;
            }
            else record rest { delays = delay ∷ rest.delays }
        | failed code ↦ record {
          outcome = returned (err (system code));
          delays = [];
          backpressure = pressed;
        }
      ]
    ])

-- `for attempt in 0..1000`, with the delay in microseconds.
unfoldable pub receive_loop : ℕ → ℕ → List Receiving → Outcome (List ℕ) × List ℕ
receive_loop attempt delay [] = (running, [])
receive_loop attempt delay (r ∷ tries) =
    let (o, delays) = receive_loop (attempt + 1) (min (delay * 2) 500) tries in
    if leb 1000 attempt then (returned (err receive_failed), []) else (elim r [
      | received bs ↦ (returned (ok bs), [])
      | empty ↦ if attempt == 999 then (returned (err receive_failed), []) else (o, delay ∷ delays)
      | broken code ↦ (returned (err (system code)), [])
    ])

abbrev pub flagged : Outcome (List ℕ) → Bool → Transport → Outcome (List ℕ × Bool) × Transport
flagged running pressed t = (running, t)
flagged crashed pressed t = (crashed, t)
flagged (returned (err e)) pressed t = (returned (err e), t)
flagged (returned (ok bs)) pressed t = (returned (ok (bs, pressed)), t)

abbrev pub send_data :
    List (ℕ × Sending) → List ℕ → Option ℕ → Transport → Outcome (List ℕ × Bool) × Transport
send_data tries data' none t = (returned (err no_queue), t)
send_data tries data' (some fd) t =
    let s = send_loop 0 1 false tries data' in
    flagged s.outcome s.backpressure
      (record t { has_warned_backpressure = t.has_warned_backpressure || s.backpressure })

module _ (codec : Bincode) where
  -- The bytes accepted and the flag that `send` returns, and the transport, which has warned if the queue
  -- pushed back.
  unfoldable pub send :
      List (ℕ × Sending) → Message → Transport → Outcome (List ℕ × Bool) × Transport
  send tries m t = elim (to_bytes codec m) [
    | err _ ↦ (returned (err serialize_failed), t)
    | ok data' ↦ send_data tries data' t.mq_fd t
  ]

  abbrev pub decoded : Outcome (List ℕ) → Outcome Message
  decoded running = running
  decoded crashed = crashed
  decoded (returned (err e)) = returned (err e)
  decoded (returned (ok bs)) = elim (from_bytes codec bs) [
    | ok m ↦ returned (ok m)
    | err _ ↦ returned (err deserialize_failed)
  ]

  unfoldable pub receive : List Receiving → Transport → Outcome Message
  receive tries t = elim t.mq_fd [
    | none ↦ returned (err no_queue)
    | some fd ↦ decoded (receive_loop 0 100 tries).0
  ]

  -- The task that `start_multi_server` spawns: the messages that it has put into the channel, and whether
  -- it still runs. The channel is closed for the sends that find `false`.
  unfoldable pub receiver_task : List (Receiving × Bool) → List Message × Bool
  receiver_task [] = ([], true)
  receiver_task ((received bs, open_channel) ∷ rest) =
      let (ms, runs) = receiver_task rest in
      elim (from_bytes codec bs) [
        | ok m ↦ if open_channel then (m ∷ ms, runs) else ([], false)
        | err _ ↦ (ms, runs)
      ]
  receiver_task ((empty, _) ∷ rest) = ([], false)
  receiver_task ((broken code, _) ∷ rest) = ([], false)

abbrev pub unlinks : Transport → List Call
unlinks t = if t.is_creator && not (is_empty t.queue_name) then unlink t.queue_name ∷ [] else []

-- `cleanup_queue`, which `Drop` calls.
unfoldable pub cleanup_queue : Transport → Transport × List Call
cleanup_queue t = (record t { mq_fd = none }, closes t.mq_fd ++ unlinks t)

unfoldable pub close : Transport → Transport × List Call
close t = (record t { mq_fd = none; state = disconnected }, closes t.mq_fd ++ unlinks t)
