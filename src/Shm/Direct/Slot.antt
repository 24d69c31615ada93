-- ===== src/Shm/Direct/Slot.antt =====
-- The slot as a queue of at most one message.
use rusty_comms.Prelude.{
  ℕ, ◌≤◌, ◌<◌, ◌≡◌, ◌≢◌, ◌⊎◌, refl, ap, ◌∙◌, Option, none, some, List, [], ◌∷◌, length, take,
  take-all, arith, min, ok,
}
use rusty_comms.Bytes.Copy.{copy_in, copy_out, length-copy_in}
use rusty_comms.Bytes.Circular.{put, copy_in-eq-put, copy_out-eq-window, window-put_self}
use rusty_comms.Ipc.Message.{Message, from_u32, from_u32-as_u32}
use rusty_comms.Shm.Direct.{
  RawSharedMessage, max_payload_size, finished, fill, deliver, Wake, woken, timed_out, failed,
  send_blocking,
}

-- The array has 8192 bytes, and the length stays inside it.
pub record IsSlot (raw : RawSharedMessage) : Type 0 where
  pub storage : length raw.payload ≡ max_payload_size
  pub len_in : raw.payload_len ≤ max_payload_size

-- The message as it is sent: stamped, and without a time of receipt.
abbrev pub stamped : ℕ → Message → Message
stamped now m = record m { timestamp = now; receive_time_ns = 0 }

-- The message that the slot's fields spell.
abbrev pub content : RawSharedMessage → Message
content raw = record {
  id = raw.id;
  timestamp = raw.timestamp;
  payload = copy_out raw.payload 0 raw.payload_len;
  message_type = from_u32 raw.message_type;
  receive_time_ns = 0;
}

abbrev pub Holds : RawSharedMessage → Option Message → Type 0
Holds raw none = IsSlot raw × (raw.ready ≡ 0)
Holds raw (some m) = IsSlot raw × (raw.ready ≡ 1) × (content raw ≡ m)

-- A payload that is copied to the start of a longer array is read back.
copy_out-copy_in :
    (buf xs : List ℕ) (n : ℕ)
    → n ≡ length xs
    → length xs ≤ length buf
    → 0 < length buf
    → copy_out (copy_in buf 0 xs) 0 n ≡ xs
copy_out-copy_in buf xs n e h pos =
    ap (λ k. copy_out (copy_in buf 0 xs) 0 k) e
    ∙ ap (λ b. copy_out b 0 (length xs)) (copy_in-eq-put buf (length buf) 0 xs (omega arith))
    ∙ copy_out-eq-window (put buf (length buf) 0 xs) (length buf) 0 (length xs) (omega arith)
    ∙ window-put_self buf (length buf) 0 xs pos (omega arith) h

pub fill-Holds :
    (raw : RawSharedMessage) (now : ℕ) (m : Message)
    → IsSlot raw
    → length m.payload ≤ max_payload_size
    → Holds (fill raw now m) (some (stamped now m))
unfolding fill
fill-Holds raw now m v h = (
  record {
    storage =
        length-copy_in raw.payload 0 (take (min (length m.payload) max_payload_size) m.payload)
        ∙ v.storage;
    len_in = omega arith;
  },
  refl,
  λ i. record {
    id = m.id;
    timestamp = now;
    payload = same i;
    message_type = (from_u32-as_u32 m.message_type 0).0 i;
    receive_time_ns = 0;
  },
)
  where
    len_lem : min (length m.payload) max_payload_size ≡ length m.payload
    len_lem = omega arith

    whole : take (min (length m.payload) max_payload_size) m.payload ≡ m.payload
    whole = take-all (min (length m.payload) max_payload_size) m.payload (omega arith)

    same :
        copy_out
          (copy_in raw.payload 0 (take (min (length m.payload) max_payload_size) m.payload))
          0
          (min (length m.payload) max_payload_size)
        ≡ m.payload
    same =
        ap (λ t. copy_out (copy_in raw.payload 0 t) 0 (min (length m.payload) max_payload_size))
          whole
        ∙ copy_out-copy_in raw.payload m.payload (min (length m.payload) max_payload_size) len_lem
            (omega (arith, v.storage)) (omega (arith, v.storage))

-- Where a send writes: into the first slot that it finds free, all earlier waits having been woken.
abbrev pub WritesFree :
    RawSharedMessage → List (Wake × RawSharedMessage) → ℕ → Message → RawSharedMessage → Type 0
WritesFree raw [] now m r = (raw.ready ≢ 1) × (r ≡ fill raw now m)
WritesFree raw ((w, raw') ∷ wakes) now m r =
    ((raw.ready ≢ 1) × (r ≡ fill raw now m))
    ⊎ ((raw.ready ≡ 1) × (w ≡ woken) × WritesFree raw' wakes now m r)

deliver-ok :
    (raw : RawSharedMessage) (now : ℕ) (m : Message) {r : RawSharedMessage}
    → deliver raw now m ≡ ok r
    → (length m.payload ≤ max_payload_size) × (r ≡ fill raw now m)
unfolding deliver
deliver-ok raw now m e = ground arith

-- A send that succeeds has never overwritten an unread message: it was woken from every wait, found
-- the slot free, wrote there what `fill` writes, and its payload has at most 8192 bytes.
pub send_blocking-WritesFree :
    (raw : RawSharedMessage) (wakes : List (Wake × RawSharedMessage)) (now : ℕ) (m : Message)
    {r : RawSharedMessage}
    → send_blocking raw wakes now m ≡ finished (ok r)
    → (length m.payload ≤ max_payload_size) × WritesFree raw wakes now m r
unfolding send_blocking
send_blocking-WritesFree raw [] now m {r} e = ground (arith, deliver-ok raw now m {r = r})
send_blocking-WritesFree raw ((woken, raw') ∷ wakes) now m {r} e =
    ground (arith, deliver-ok raw now m {r = r}, send_blocking-WritesFree raw' wakes now m {r = r})
send_blocking-WritesFree raw ((timed_out, raw') ∷ wakes) now m {r} e =
    ground (arith, deliver-ok raw now m {r = r})
send_blocking-WritesFree raw ((failed k, raw') ∷ wakes) now m {r} e =
    ground (arith, deliver-ok raw now m {r = r})
