-- ===== src/Shm/Direct/System.antt =====
-- Any interleaving of the critical sections of senders and receivers on one slot.
use rusty_comms.Prelude.{
  ℕ, ◌≡◌, ◌≢◌, refl, sym, ap, subst, ◌∙◌, Bool, Option, none, some, List, [], ◌∷◌, ◌++◌,
  append_assoc, length, arith, ok,
}
use rusty_comms.Ipc.Message.{Message}
use rusty_comms.Shm.Direct.{
  RawSharedMessage, max_payload_size, finished, send_blocking, Clock, collect, receive_slot, init,
  client_arrives,
}
use rusty_comms.Shm.Direct.Slot.{stamped, content, Holds, fill-Holds, send_blocking-WritesFree}

-- The slot, and a record of the messages that were written and returned, less their time of receipt.
pub record System : Type 0 where
  pub slot : RawSharedMessage
  pub sent : List Message
  pub received : List Message

pub data Step : System → System → Type 0 where
  send :
      {s : System} {r : RawSharedMessage} (now : ℕ) (m : Message)
      → send_blocking s.slot [] now m ≡ finished (ok r)
      → Step s (record s { slot = r; sent = s.sent ++ (stamped now m ∷ []) })
  receive :
      {s : System} {r : RawSharedMessage} {m : Message} (precise : Bool) (clock : Clock)
      → receive_slot precise clock s.slot [] ≡ finished (ok (m, r))
      → Step s (record s { slot = r; received = s.received ++ (stamped m.timestamp m ∷ []) })
  arrive : {s : System} → Step s (record s { slot = client_arrives s.slot })

-- The server creates the segment with any bytes in it.
abbrev pub initial : RawSharedMessage → System
initial raw = record { slot = init raw; sent = []; received = [] }

pub data Reach (raw : RawSharedMessage) : System → Type 0 where
  start : Reach raw (initial raw)
  later : {s t : System} → Reach raw s → Step s t → Reach raw t

abbrev pub queued : Option Message → List Message
queued none = []
queued (some m) = m ∷ []

-- What is written and not yet returned is at most one message, and it is the slot's content.
abbrev pub Inv : System → Type 0
Inv s = (q : Option Message) × Holds s.slot q × (s.sent ≡ s.received ++ queued q)

init-Holds :
    (raw : RawSharedMessage) → length raw.payload ≡ max_payload_size → Holds (init raw) none
unfolding init
init-Holds raw h = (record { storage = h; len_in = omega arith }, refl)

arrives-Holds :
    (raw : RawSharedMessage) (q : Option Message) → Holds raw q → Holds (client_arrives raw) q
unfolding client_arrives
arrives-Holds raw none (v, e) = (record { storage = v.storage; len_in = v.len_in }, e)
arrives-Holds raw (some m) (v, e, c) = (record { storage = v.storage; len_in = v.len_in }, e, c)

-- A slot that is in use is not written.
send-free :
    (raw : RawSharedMessage) (q : Option Message) (now : ℕ) (m : Message) {r : RawSharedMessage}
    → Holds raw q
    → send_blocking raw [] now m ≡ finished (ok r)
    → (q ≡ none) × Holds r (some (stamped now m))
send-free raw none now m {r} h e =
    let w = send_blocking-WritesFree raw [] now m e in
    (refl, subst (λ t. Holds t (some (stamped now m))) (sym (w.1.1)) (fill-Holds raw now m h.0 w.0))
send-free raw (some x) now m {r} h e =
    absurd ((send_blocking-WritesFree raw [] now m {r = r} e).1.0 h.1)

-- What a receive returns is the content of a full slot, and it leaves the slot free.
receive-full :
    (raw : RawSharedMessage) (precise : Bool) (clock : Clock) {m : Message} {r : RawSharedMessage}
    → receive_slot precise clock raw [] ≡ finished (ok (m, r))
    → (raw.ready ≢ 0) × ((m, r) ≡ collect precise clock raw)
unfolding receive_slot
receive-full raw precise clock {m} {r} e = ground arith

same-content :
    (raw : RawSharedMessage) (precise : Bool) (clock : Clock) {m : Message} {r : RawSharedMessage}
    → (m, r) ≡ collect precise clock raw
    → (stamped m.timestamp m ≡ content raw) × (r ≡ record raw { ready = 0 })
unfolding collect
same-content raw precise clock e = (ap (λ x. stamped x.0.timestamp x.0) e, ap (λ x. x.1) e)

receive-free :
    (raw : RawSharedMessage) (q : Option Message) (precise : Bool) (clock : Clock) {m : Message}
    {r : RawSharedMessage}
    → Holds raw q
    → receive_slot precise clock raw [] ≡ finished (ok (m, r))
    → (q ≡ some (stamped m.timestamp m)) × Holds r none
receive-free raw none precise clock h e = absurd ((receive-full raw precise clock e).0 h.1)
receive-free raw (some x) precise clock h e =
    let (p, q) = same-content raw precise clock (receive-full raw precise clock e).1 in
    (
      ap some (sym (h.2) ∙ sym p),
      subst (λ t. Holds t none) (sym q)
          (record { storage = h.0.storage; len_in = h.0.len_in }, refl),
    )

Step-Inv : {s t : System} → Step s t → Inv s → Inv t
Step-Inv (send {s = s} now m a) (q, h, e) =
    let (p, h') = send-free s.slot q now m h a in
    (
      some (stamped now m),
      h',
      ap (λ t. t ++ (stamped now m ∷ [])) (e ∙ ap (λ o. s.received ++ queued o) p)
          ∙ append_assoc s.received [] (stamped now m ∷ []),
    )
Step-Inv (receive {s = s} {m = m} precise clock a) (q, h, e) =
    let (p, h') = receive-free s.slot q precise clock h a in
    (
      none,
      h',
      e
          ∙ ap (λ o. s.received ++ queued o) p
          ∙ sym (append_assoc s.received (stamped m.timestamp m ∷ []) []),
    )
Step-Inv (arrive {s = s}) (q, h, e) = (q, arrives-Holds s.slot q h, e)

-- In every state that senders, receivers and the client's arrival can reach from a fresh segment,
-- whose array has its 8192 bytes, in any interleaving, the messages returned so far are the first
-- ones of those sent, in order, with their times of sending, and at most one more message lies in
-- the slot.
pub messages_in_order :
    {raw : RawSharedMessage} {s : System}
    → length raw.payload ≡ max_payload_size
    → Reach raw s
    → Inv s
messages_in_order {raw = raw} h start = (none, init-Holds raw h, refl)
messages_in_order h (later r st) = Step-Inv st (messages_in_order h r)
