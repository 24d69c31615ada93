-- ===== src/AsyncQueue/Tests.antt =====
-- The theorems on the single queue at concrete inputs.
use rusty_comms.Prelude.{
  ℕ, ◌*◌, ◌≡◌, ◌≤◌, ◌<◌, refl, arith, true, false, none, some, List, [], ◌∷◌, ◌++◌, replicate,
  length-replicate, ltb, ◌||◌, ok, err,
}
use rusty_comms.Ipc.Bincode.{wire}
use rusty_comms.Ipc.Sample.{fixint, ask, ask-IsMessage}
use rusty_comms.Metrics.Totals.{total}
use rusty_comms.Queue.{Config, Receiving, received, empty}
use rusty_comms.AsyncQueue.{
  Transport, connected, returned, Sending, accepted, full, five_ms, send_loop, receive_loop, send,
  receive, opened, missing, open_failed, enoent, configure, start_client, receiver_task,
}
use rusty_comms.AsyncQueue.Retries.{Ends, calls-End}
use rusty_comms.AsyncQueue.Opening.{start_client-Connects}
use rusty_comms.AsyncQueue.Exchange.{queued_received}
use rusty_comms.AsyncQueue.Receiver.{arrivals, delivered, receiver_task-stops}

abbrev transport : Transport
transport = record {
  state = connected;
  queue_name = 47 ∷ 113 ∷ [];
  mq_fd = some 5;
  max_msg_size = 8192;
  max_msg_count = 10;
  is_creator = false;
  has_warned_backpressure = false;
  config = none;
}

abbrev config : Config
config = record {
  message_queue_name = 113 ∷ [];
  pmq_priority = 0;
  buffer_size = 8192;
  message_queue_depth = 10;
}

abbrev always_full : List (ℕ × Sending)
always_full = replicate 100 (7, full)

abbrev always_empty : List Receiving
always_empty = replicate 1000 empty

calls-End_example :
    Ends (send fixint always_full ask transport).0
    × (total (send_loop 0 1 false always_full (wire fixint ask)).delays < 1000)
    × Ends (receive fixint always_empty transport)
    × (total (receive_loop 0 100 always_empty).1 < 500_000)
calls-End_example =
    calls-End fixint ask transport (wire fixint ask) always_full always_empty
      (omega (arith, length-replicate {A = ℕ × Sending} 100 (7, full)))
      (omega (arith, length-replicate {A = Receiving} 1000 empty))

start_client-Connects_example :
    ((start_client (missing ∷ missing ∷ opened 6 ∷ []) config transport).0 ≡ (
      returned (ok tt),
      record (configure false config transport) { mq_fd = some 6; state = connected },
    ))
    × (total (start_client (missing ∷ missing ∷ opened 6 ∷ []) config transport).1 ≤ 1000 * 2)
    × ((start_client
          (missing ∷ missing ∷ missing ∷ missing ∷ missing ∷ missing ∷ missing ∷ missing ∷ missing
            ∷ missing ∷ missing ∷ [])
          config
          transport).0
        ≡ (returned (err (open_failed 11 enoent)), configure false config transport))
start_client-Connects_example =
    start_client-Connects config transport 6 (missing ∷ missing ∷ []) []
      (missing ∷ missing ∷ missing ∷ missing ∷ missing ∷ missing ∷ missing ∷ missing ∷ missing
        ∷ missing ∷ missing ∷ [])
      (tt, (tt, tt)) (tt, (tt, (tt, (tt, (tt, (tt, (tt, (tt, (tt, (tt, (tt, tt)))))))))))
      (omega arith) refl

-- The transport receives its own message.
queued_received_example :
    (bs : List ℕ) × (send fixint ((40, full) ∷ (50, accepted 900) ∷ []) ask transport ≡ (
      returned (ok (bs, ltb 0 1 || ltb five_ms 900)),
      record transport { has_warned_backpressure = false || (ltb 0 1 || ltb five_ms 900) },
    ))
    × (receive fixint (empty ∷ received bs ∷ []) transport
        ≡ returned (ok (record ask { timestamp = 50; receive_time_ns = 0 })))
queued_received_example =
    queued_received fixint ask transport transport ((40, full) ∷ []) (empty ∷ []) 50 900 refl refl
      (omega arith) (tt, tt) (omega arith) (refl, tt) (omega arith)

receiver_task-stops_example :
    (receiver_task fixint (arrivals fixint (ask ∷ ask ∷ [])) ≡ (delivered (ask ∷ ask ∷ []), true))
    × (receiver_task fixint (
          arrivals fixint (ask ∷ ask ∷ [])
          ++ ((empty, true) ∷ (received (wire fixint ask), true) ∷ []))
        ≡ (delivered (ask ∷ ask ∷ []), false))
receiver_task-stops_example =
    receiver_task-stops fixint (ask ∷ ask ∷ []) true ((received (wire fixint ask), true) ∷ [])
      (ask-IsMessage, (ask-IsMessage, tt))
