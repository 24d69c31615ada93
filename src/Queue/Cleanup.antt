-- ===== src/Queue/Cleanup.antt =====
-- Closing a queue transport, once by `close_blocking` and once more by `Drop`.
use rusty_comms.Prelude.{ℕ, ◌≡◌, refl, err, true, false, List, [], ◌∷◌}
use rusty_comms.Ipc.Message.{Message}
use rusty_comms.Ipc.Bincode.{Bincode}
use rusty_comms.Queue.{
  Queue, returned, not_initialized, unlink, cleanup_queues, request_queue_name, response_queue_name,
  is_empty, send_blocking, receive_blocking, Sending, Receiving,
}

-- A closed transport refuses sends and receives. The queues of a server are removed when it is closed,
-- and any queues that have these names by then are removed again when it is dropped.
pub cleanup_queues_lem :
    (codec : Bincode) (q : Queue) (m : Message) (sends : List (ℕ × Sending))
    (receives : List Receiving)
    → q.is_creator ≡ true
    → is_empty q.queue_name_base ≡ false
    → (send_blocking codec sends m (cleanup_queues q).0 ≡ returned (err not_initialized))
      × (receive_blocking codec receives (cleanup_queues q).0 ≡ returned (err not_initialized))
      × ((cleanup_queues (cleanup_queues q).0).1
          ≡ unlink (request_queue_name q) ∷ unlink (response_queue_name q) ∷ [])
unfolding cleanup_queues send_blocking receive_blocking request_queue_name response_queue_name
cleanup_queues_lem codec q m sends receives creator named = (refl, refl, rw (creator, named) refl)
