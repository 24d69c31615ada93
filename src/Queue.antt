-- ===== src/Queue.antt =====
-- `BlockingPosixMessageQueue` of src/ipc/posix_message_queue_blocking.rs. The kernel's queues are not
-- part of the repository: what each system call returns is an argument, and the calls that change
-- the kernel's state are listed in order.
pub mod Exchange
pub mod Cleanup
mod Tests
pub use rusty_comms.Prelude.{Run, running, crashed, returned}
use rusty_comms.Prelude.{
  ℕ, ◌*◌, Bool, true, false, not, ◌&&◌, Option, none, some, List, [], ◌∷◌, ◌++◌, length, ltb, ◌==◌,
  if◌then◌else◌, Result, ok, err,
}
use rusty_comms.Ipc.Message.{Message, stamp, timestamp_offset}
use rusty_comms.Ipc.Bincode.{Bincode, to_bytes, from_bytes}

pub record Queue : Type 0 where
  pub queue_name_base : List ℕ
  pub send_fd : Option ℕ
  pub recv_fd : Option ℕ
  pub max_msg_size : ℕ
  pub max_msg_count : ℕ
  pub is_creator : Bool
  pub priority : ℕ

-- The fields of `TransportConfig` that the queues use.
pub record Config : Type 0 where
  pub message_queue_name : List ℕ
  pub pmq_priority : ℕ
  pub buffer_size : ℕ
  pub message_queue_depth : ℕ

pub data Fault : Type 0 where
  create_failed open_timeout not_initialized queue_full : Fault
  serialize_failed deserialize_failed : Fault
  too_large : ℕ → ℕ → Fault
  system : ℕ → Fault

abbrev pub Outcome : Type 0 → Type 0
Outcome A = Run Fault A

-- `mq_unlink`, `mq_close`, and `mq_open` of a new queue with its limits.
pub data Call : Type 0 where
  unlink : List ℕ → Call
  close_fd : ℕ → Call
  create : List ℕ → ℕ → ℕ → Call

unfoldable pub new : Queue
new = record {
  queue_name_base = [];
  send_fd = none;
  recv_fd = none;
  max_msg_size = 8192;
  max_msg_count = 10;
  is_creator = false;
  priority = 0;
}

-- The base and `_req`, or `_resp`.
unfoldable pub request_queue_name : Queue → List ℕ
request_queue_name q = q.queue_name_base ++ (95 ∷ 114 ∷ 101 ∷ 113 ∷ [])

unfoldable pub response_queue_name : Queue → List ℕ
response_queue_name q = q.queue_name_base ++ (95 ∷ 114 ∷ 101 ∷ 115 ∷ 112 ∷ [])

-- `if config.x > 0`
abbrev pub limit : ℕ → ℕ → ℕ
limit configured old = if ltb 0 configured then configured else old

abbrev pub with_slash : List ℕ → List ℕ
with_slash [] = 47 ∷ []
with_slash (c ∷ cs) = if c == 47 then c ∷ cs else 47 ∷ c ∷ cs

-- How both starts begin.
unfoldable pub configure : Config → Queue → Queue
configure config q = record q {
  queue_name_base = with_slash config.message_queue_name;
  priority = config.pmq_priority;
  max_msg_size = limit config.buffer_size q.max_msg_size;
  max_msg_count = limit config.message_queue_depth q.max_msg_count;
}

-- `request` and `response` are the descriptors of the created queues, if the kernel gives them.
unfoldable pub start_server_blocking :
    Option ℕ → Option ℕ → Config → Queue → Result Fault (Unit {0}) × Queue × List Call
start_server_blocking request response config old =
    let q = configure config old in
    let cleared = unlink (request_queue_name q) ∷ unlink (response_queue_name q) ∷ [] in
    let first = create (request_queue_name q) q.max_msg_count q.max_msg_size in
    let second = create (response_queue_name q) q.max_msg_count q.max_msg_size in
    elim request [
      | none ↦ (err create_failed, q, cleared ++ (first ∷ []))
      | some recv ↦ elim response [
        | none ↦ (err create_failed, q, cleared ++ (first ∷ second ∷ []))
        | some send ↦ (
          ok tt,
          record q { recv_fd = some recv; send_fd = some send; is_creator = true },
          cleared ++ (first ∷ second ∷ []),
        )
      ]
    ]

-- What `mq_open` of an existing queue gives; ENOENT with the time elapsed.
pub data Opening : Type 0 where
  opened : ℕ → Opening
  missing : ℕ → Opening
  refused : ℕ → Opening

abbrev pub second : ℕ
second = 1_000_000_000

unfoldable pub open_queue : List Opening → Outcome ℕ
open_queue [] = running
open_queue (opened fd ∷ tries) = returned (ok fd)
open_queue (missing elapsed ∷ tries) =
    let rest = open_queue tries in
    if ltb (30 * second) elapsed then returned (err open_timeout) else rest
open_queue (refused code ∷ tries) = returned (err (system code))

-- The request queue is opened for sending, then the response queue for receiving.
unfoldable pub start_client_blocking :
    List Opening → List Opening → Config → Queue → Outcome (Unit {0}) × Queue
start_client_blocking request response config old =
    let q = configure config old in
    elim (open_queue request) [
      | running ↦ (running, q)
      | crashed ↦ (crashed, q)
      | returned (err e) ↦ (returned (err e), q)
      | returned (ok send) ↦ elim (open_queue response) [
        | running ↦ (running, q)
        | crashed ↦ (crashed, q)
        | returned (err e) ↦ (returned (err e), q)
        | returned (ok recv) ↦ (
          returned (ok tt),
          record q { send_fd = some send; recv_fd = some recv; is_creator = false },
        )
      ]
    ]

-- What `mq_send` gives; EAGAIN with the time elapsed since the call began.
pub data Sending : Type 0 where
  accepted : Sending
  full : ℕ → Sending
  failed : ℕ → Sending

-- The retry loop: each attempt stamps the bytes with the time at which it is made. The result is what
-- the kernel has accepted.
unfoldable pub send_loop : List (ℕ × Sending) → List ℕ → Outcome (List ℕ)
send_loop [] bs = running
send_loop ((now, accepted) ∷ tries) bs = elim (stamp (some timestamp_offset) now bs) [
  | none ↦ crashed
  | some bs' ↦ returned (ok bs')
]
send_loop ((now, full elapsed) ∷ tries) bs = elim (stamp (some timestamp_offset) now bs) [
  | none ↦ crashed
  | some bs' ↦
      let rest = send_loop tries bs' in
      if ltb (5 * second) elapsed then returned (err queue_full) else rest
]
send_loop ((now, failed code) ∷ tries) bs = elim (stamp (some timestamp_offset) now bs) [
  | none ↦ crashed
  | some _ ↦ returned (err (system code))
]

-- What `mq_receive` gives: the bytes of a message, EAGAIN, or another error.
pub data Receiving : Type 0 where
  received : List ℕ → Receiving
  empty : Receiving
  broken : ℕ → Receiving

unfoldable pub receive_loop : List Receiving → Outcome (List ℕ)
receive_loop [] = running
receive_loop (received bs ∷ tries) = returned (ok bs)
receive_loop (empty ∷ tries) = receive_loop tries
receive_loop (broken code ∷ tries) = returned (err (system code))

module _ (codec : Bincode) where
  unfoldable pub send_blocking : List (ℕ × Sending) → Message → Queue → Outcome (List ℕ)
  send_blocking tries m q = elim q.send_fd [
    | none ↦ returned (err not_initialized)
    | some fd ↦ elim (to_bytes codec (record m { timestamp = 0 })) [
      | err _ ↦ returned (err serialize_failed)
      | ok serialized ↦
          let sent = send_loop tries serialized in
          if ltb q.max_msg_size (length serialized)
          then returned (err (too_large (length serialized) q.max_msg_size))
          else sent
    ]
  ]

  abbrev pub decode : List ℕ → Outcome Message
  decode bs = elim (from_bytes codec bs) [
    | ok m ↦ returned (ok m)
    | err _ ↦ returned (err deserialize_failed)
  ]

  abbrev pub decoded : Outcome (List ℕ) → Outcome Message
  decoded running = running
  decoded crashed = crashed
  decoded (returned (ok bs)) = decode bs
  decoded (returned (err e)) = returned (err e)

  unfoldable pub receive_blocking : List Receiving → Queue → Outcome Message
  receive_blocking tries q = elim q.recv_fd [
    | none ↦ returned (err not_initialized)
    | some fd ↦ decoded (receive_loop tries)
  ]

  abbrev pub at_time : ℕ → Outcome Message → Outcome (Message × ℕ)
  at_time now running = running
  at_time now crashed = crashed
  at_time now (returned (ok m)) = returned (ok (m, now))
  at_time now (returned (err e)) = returned (err e)

  -- `now` is the clock's reading after the bytes are there, and before they are decoded.
  unfoldable pub receive_blocking_timed : List Receiving → ℕ → Queue → Outcome (Message × ℕ)
  receive_blocking_timed tries now q = elim q.recv_fd [
    | none ↦ returned (err not_initialized)
    | some fd ↦ at_time now (decoded (receive_loop tries))
  ]

abbrev pub closes : Option ℕ → List Call
closes none = []
closes (some fd) = close_fd fd ∷ []

abbrev pub is_empty : List ℕ → Bool
is_empty [] = true
is_empty (_ ∷ _) = false

-- `cleanup_queues`, which `close_blocking` and `Drop` call.
unfoldable pub cleanup_queues : Queue → Queue × List Call
cleanup_queues q = (
  record q { send_fd = none; recv_fd = none },
  closes q.send_fd
      ++ (closes q.recv_fd
          ++ (if q.is_creator && not (is_empty q.queue_name_base)
              then unlink (request_queue_name q) ∷ unlink (response_queue_name q) ∷ []
              else [])),
)
