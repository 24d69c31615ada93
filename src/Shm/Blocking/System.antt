-- ===== src/Shm/Blocking/System.antt =====
-- Any interleaving of the critical sections of writers and readers on one ring buffer.
use rusty_comms.Prelude.{
  ℕ, ◌≡◌, ◌^◌, ◌≤◌, ◌<◌, refl, sym, ap, subst, ◌∙◌, Option, some, List, [], ◌∷◌, ◌++◌, append_assoc,
  length, ok, err, IsU32,
}
use rusty_comms.Ipc.Message.{stamp}
use rusty_comms.Shm.Ring.{SharedMemoryRingBuffer, new, available_read_data}
use rusty_comms.Shm.Ring.Fifo.{Holds}
use rusty_comms.Shm.Ring.Refine.{new-Holds}
use rusty_comms.Shm.Blocking.{BlockingFault, finished, write_attempt, read_attempt, shut}
use rusty_comms.Shm.Blocking.Attempts.{
  TriedWrite, TriedRead, write_attempt-TriedWrite, read_attempt-TriedRead,
}

-- The segment, and a record of the payloads that the writers have written and the readers returned.
pub record System : Type 0 where
  pub ring : SharedMemoryRingBuffer
  pub sent : List (List ℕ)
  pub received : List (List ℕ)

-- A critical section that waits or fails leaves the segment as it is.
pub data Step : System → System → Type 0 where
  write :
      {s : System} {r : SharedMemoryRingBuffer} (bs d : List ℕ) (o : Option (ℕ × ℕ)) (now : ℕ)
      → IsU32 (length bs)
      → stamp o now bs ≡ some d
      → write_attempt s.ring bs o now ≡ finished (ok r)
      → Step s (record s { ring = r; sent = s.sent ++ (d ∷ []) })
  read :
      {s : System} {r : SharedMemoryRingBuffer} {d : List ℕ}
      → read_attempt s.ring ≡ finished (ok (d, r))
      → Step s (record s { ring = r; received = s.received ++ (d ∷ []) })
  close : {s : System} → Step s (record s { ring = shut s.ring })

abbrev pub init : ℕ → System
init capacity = record { ring = new capacity; sent = []; received = [] }

pub data Reach (capacity : ℕ) : System → Type 0 where
  start : Reach capacity (init capacity)
  later : {s t : System} → Reach capacity s → Step s t → Reach capacity t

-- What is written and not yet read lies in the segment, in order.
abbrev pub Inv : System → Type 0
Inv s = (q : List (List ℕ)) × Holds s.ring q × (s.sent ≡ s.received ++ q)

pub shut-Holds : {r : SharedMemoryRingBuffer} {q : List (List ℕ)} → Holds r q → Holds (shut r) q
unfolding shut available_read_data
shut-Holds h = record {
  valid = record {
    storage = h.valid.storage;
    nonempty = h.valid.nonempty;
    small = h.valid.small;
    read_in = h.valid.read_in;
    write_in = h.valid.write_in;
  };
  bytes = h.bytes;
  sized = h.sized;
}

read-Inv :
    {r r' : SharedMemoryRingBuffer} {d : List ℕ} (sent received q : List (List ℕ))
    → Holds r q
    → sent ≡ received ++ q
    → read_attempt r ≡ finished (ok (d, r'))
    → (q' : List (List ℕ)) × Holds r' q' × (sent ≡ (received ++ (d ∷ [])) ++ q')
read-Inv {r} {r'} {d} sent received [] h e a =
    absurd (closed (subst (TriedRead r []) a (read_attempt-TriedRead [] h)).1)
  where
    closed : {f : BlockingFault} {x : List ℕ × SharedMemoryRingBuffer} → ok x ≡ err f → ⊥
    closed p = cc
read-Inv {r} {r'} {d} sent received (m ∷ q) h e a =
    let (same, h') = subst (TriedRead r (m ∷ q)) a (read_attempt-TriedRead (m ∷ q) h) in
    (
      q,
      h',
      e ∙ sym (append_assoc received (m ∷ []) q) ∙ ap (λ t. (received ++ (t ∷ [])) ++ q) (sym same),
    )

Step-Inv : {s t : System} → Step s t → Inv s → Inv t
Step-Inv (write {s = s} bs d o now small st a) (q, h, e) =
    let (_, h') =
      subst (TriedWrite s.ring q d) a (write_attempt-TriedWrite bs d o now h small st) in
    (q ++ (d ∷ []), h', ap (λ t. t ++ (d ∷ [])) e ∙ append_assoc s.received q (d ∷ []))
Step-Inv (read {s = s} a) (q, h, e) = read-Inv s.sent s.received q h e a
Step-Inv close (q, h, e) = (q, shut-Holds h, e)

-- In every state that writers, readers and a close can reach from a fresh segment, in any
-- interleaving, the payloads returned so far are the first ones of those written, in order and
-- unchanged, and the others lie in the buffer.
pub Reach-Inv :
    {capacity : ℕ} {s : System} → 0 < capacity → capacity ≤ 2 ^ 62 → Reach capacity s → Inv s
Reach-Inv {capacity} pos small start = ([], new-Holds capacity pos small, refl)
Reach-Inv pos small (later r st) = Step-Inv st (Reach-Inv pos small r)
