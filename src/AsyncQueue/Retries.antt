-- ===== src/AsyncQueue/Retries.antt =====
-- The loops of a send and of a receive end, and sleep for a bounded time.
use rusty_comms.Prelude.{
  ℕ, ◌+◌, ◌-◌, ◌*◌, ◌≤◌, ◌<◌, ◌≡◌, refl, sym, subst, min, Bool, true, false, Bool-cases, Option,
  Option-cases, none, some, List, [], ◌∷◌, length, arith, lt→leb, ◌==◌, inl, inr, ok, err,
  Result-cases,
}
use rusty_comms.Ipc.Bincode.{Bincode, wire, to_bytes, from_bytes}
use rusty_comms.Ipc.Message.{Message, stamp, timestamp_offset}
use rusty_comms.Metrics.Totals.{total}
use rusty_comms.Queue.{Receiving, received, empty, broken}
use rusty_comms.AsyncQueue.{
  Outcome, running, crashed, returned, Sending, accepted, full, failed, Transport, send_loop,
  receive_loop, send, receive, decoded, flagged, send_data,
}

abbrev pub Ends : {A : Type 0} → Outcome A → Type 0
Ends running = ⊥
Ends crashed = Unit
Ends (returned _) = Unit

below_last : (a last : ℕ) → a ≤ last → a == last ≡ false → a + 1 ≤ last
below_last a last h ne = ground arith

send_loop-Paced :
    (attempt delay : ℕ) (pressed : Bool) (tries : List (ℕ × Sending)) (bs : List ℕ)
    → attempt ≤ 99
    → delay ≤ 10
    → 100 ≤ attempt + length tries
    → Ends (send_loop attempt delay pressed tries bs).outcome
      × (total (send_loop attempt delay pressed tries bs).delays ≤ 10 * (99 - attempt))
unfolding send_loop
send_loop-Paced attempt delay pressed [] bs a d enough = absurd (omega arith)
send_loop-Paced attempt delay pressed ((now, accepted elapsed) ∷ tries) bs a d enough =
    rw (lt→leb 100 attempt (omega arith))
      (elim (Option-cases (stamp (some timestamp_offset) now bs)) [
        | inl e ↦ rw e (tt, omega arith)
        | inr (stamped, e) ↦ rw e (tt, omega arith)
      ])
send_loop-Paced attempt delay pressed ((now, failed code) ∷ tries) bs a d enough =
    rw (lt→leb 100 attempt (omega arith))
      (elim (Option-cases (stamp (some timestamp_offset) now bs)) [
        | inl e ↦ rw e (tt, omega arith)
        | inr (stamped, e) ↦ rw e (tt, omega arith)
      ])
send_loop-Paced attempt delay pressed ((now, full) ∷ tries) bs a d enough =
    rw (lt→leb 100 attempt (omega arith))
      (elim (Option-cases (stamp (some timestamp_offset) now bs)) [
        | inl e ↦ rw e (tt, omega arith)
        | inr (stamped, e) ↦ elim (Bool-cases (attempt == 99)) [
          | inl last ↦ rw (e, last) (tt, omega arith)
          | inr more ↦
              let next = below_last attempt 99 a more in
              let (ends, slept) =
                send_loop-Paced (attempt + 1) (min (delay * 2) 10) true tries bs next (omega arith)
                  (omega arith) in
              rw (e, more) (ends, omega arith)
        ]
      ])

receive_loop-Paced :
    (attempt delay : ℕ) (tries : List Receiving)
    → attempt ≤ 999
    → delay ≤ 500
    → 1000 ≤ attempt + length tries
    → Ends (receive_loop attempt delay tries).0
      × (total (receive_loop attempt delay tries).1 ≤ 500 * (999 - attempt))
unfolding receive_loop
receive_loop-Paced attempt delay [] a d enough = absurd (omega arith)
receive_loop-Paced attempt delay (received bs ∷ tries) a d enough =
    rw (lt→leb 1000 attempt (omega arith)) (tt, omega arith)
receive_loop-Paced attempt delay (broken code ∷ tries) a d enough =
    rw (lt→leb 1000 attempt (omega arith)) (tt, omega arith)
receive_loop-Paced attempt delay (empty ∷ tries) a d enough =
    rw (lt→leb 1000 attempt (omega arith)) (elim (Bool-cases (attempt == 999)) [
      | inl last ↦ rw last (tt, omega arith)
      | inr more ↦
          let next = below_last attempt 999 a more in
          let (ends, slept) =
            receive_loop-Paced (attempt + 1) (min (delay * 2) 500) tries next (omega arith)
              (omega arith) in
          rw more (ends, omega arith)
    ])

module _ (codec : Bincode) where
  decoded-Ends : (o : Outcome (List ℕ)) → Ends o → Ends (decoded codec o)
  unfolding from_bytes
  decoded-Ends running h = h
  decoded-Ends crashed h = h
  decoded-Ends (returned (err e)) h = h
  decoded-Ends (returned (ok bs)) h = elim (Result-cases (from_bytes codec bs)) [
    | inl (m, e) ↦ rw (e, Ends, decoded) tt
    | inr (x, e) ↦ rw (e, Ends, decoded) tt
  ]

  flagged-Ends :
      (o : Outcome (List ℕ)) (pressed : Bool) (t : Transport)
      → Ends o
      → Ends (flagged o pressed t).0
  flagged-Ends running pressed t h = h
  flagged-Ends crashed pressed t h = h
  flagged-Ends (returned (err e)) pressed t h = h
  flagged-Ends (returned (ok bs)) pressed t h = h

  pub send-send_data :
      (tries : List (ℕ × Sending)) (m : Message) (t : Transport)
      → send codec tries m t ≡ send_data tries (wire codec m) t.mq_fd t
  unfolding send to_bytes
  send-send_data tries m t = rw (codec.fields_in_order m, send, to_bytes) refl

  send_data-Ends :
      (tries : List (ℕ × Sending)) (bs : List ℕ) (o : Option ℕ) (t : Transport)
      → Ends (send_loop 0 1 false tries bs).outcome
      → Ends (send_data tries bs o t).0
  send_data-Ends tries bs none t h = tt
  send_data-Ends tries bs (some fd) t h = flagged-Ends (send_loop 0 1 false tries bs).outcome _ _ h

  -- A send and a receive end, whatever the kernel answers: the send after at most a hundred attempts,
  -- between which it sleeps for less than a second in all, and the receive after at most a thousand, with
  -- less than half a second of sleep.
  pub calls-End :
      (m : Message) (t : Transport) (bs : List ℕ) (tries : List (ℕ × Sending))
      (reads : List Receiving)
      → 100 ≤ length tries
      → 1000 ≤ length reads
      → Ends (send codec tries m t).0
        × (total (send_loop 0 1 false tries bs).delays < 1000)
        × Ends (receive codec reads t)
        × (total (receive_loop 0 100 reads).1 < 500_000)
  unfolding receive
  calls-End m t bs tries reads many many' =
      let (ends, slept) =
        send_loop-Paced 0 1 false tries (wire codec m) (omega arith) (omega arith) (omega arith) in
      let (_, slept') =
        send_loop-Paced 0 1 false tries bs (omega arith) (omega arith) (omega arith) in
      let (got, waited) =
        receive_loop-Paced 0 100 reads (omega arith) (omega arith) (omega arith) in
      (
        subst (λ x. Ends x.0) (sym (send-send_data tries m t))
            (send_data-Ends tries (wire codec m) t.mq_fd t ends),
        omega arith,
        elim (Option-cases t.mq_fd) [
          | inl e ↦ rw e tt
          | inr (fd, e) ↦ rw e (decoded-Ends (receive_loop 0 100 reads).0 got)
        ],
        omega arith,
      )
