-- ===== src/AsyncQueue/Receiver.antt =====
-- The task that receives for a server with one queue.
use rusty_comms.Prelude.{◌≡◌, refl, Bool, true, false, List, [], ◌∷◌, ◌++◌, All}
use rusty_comms.Ipc.Message.{Message, IsMessage}
use rusty_comms.Ipc.Bincode.{Bincode, wire, from_bytes}
use rusty_comms.Queue.{Receiving, received, empty}
use rusty_comms.AsyncQueue.{receiver_task}

-- As it is received: the time of receipt is not sent.
abbrev pub delivered : List Message → List Message
delivered [] = []
delivered (m ∷ ms) = record m { receive_time_ns = 0 } ∷ delivered ms

module _ (codec : Bincode) where
  -- Reads that find the messages in turn, with the channel open.
  abbrev pub arrivals : List Message → List (Receiving × Bool)
  arrivals [] = []
  arrivals (m ∷ ms) = (received (wire codec m), true) ∷ arrivals ms

  step :
      (m : Message) (rest : List (Receiving × Bool)) {ms : List Message} {runs : Bool}
      → IsMessage m
      → receiver_task codec rest ≡ (ms, runs)
      → receiver_task codec ((received (wire codec m), true) ∷ rest)
        ≡ (record m { receive_time_ns = 0 } ∷ ms, runs)
  unfolding receiver_task from_bytes
  step m rest v e = rw (codec.reads_back m v, e, receiver_task, from_bytes) refl

  -- The task hands on the messages that it finds in the queue one after the other, and still runs; but it
  -- stops at the first read that finds the queue empty, and hands on nothing that arrives later.
  pub receiver_task-stops :
      (ms : List Message) (open_channel : Bool) (later : List (Receiving × Bool))
      → All IsMessage ms
      → (receiver_task codec (arrivals ms) ≡ (delivered ms, true))
        × (receiver_task codec (arrivals ms ++ ((empty, open_channel) ∷ later))
            ≡ (delivered ms, false))
  unfolding receiver_task
  receiver_task-stops [] open_channel later h = (refl, refl)
  receiver_task-stops (m ∷ ms) open_channel later (v, h) =
      let (on, off) = receiver_task-stops ms open_channel later h in
      (step m (arrivals ms) v on, step m (arrivals ms ++ ((empty, open_channel) ∷ later)) v off)
