-- ===== src/Queue/Exchange.antt =====
-- What a send gives to the kernel's queue, and what a receive makes of it.
use rusty_comms.Prelude.{
  ℕ, ◌*◌, ◌≤◌, ◌≡◌, inl, inr, refl, sym, ap, subst, ◌∙◌, true, Bool-cases, Option-cases, some, List,
  [], ◌∷◌, ◌++◌, length, All, arith, ltb, ltb→le, le→ltb, ok, err,
}
use rusty_comms.Ipc.Message.{Message, IsMessage}
use rusty_comms.Ipc.Bincode.{Bincode, wire, length-wire, stamp-wire, to_bytes, from_bytes}
use rusty_comms.Queue.{
  Queue, Outcome, running, crashed, returned, Sending, accepted, full, failed, second, send_loop,
  Receiving, received, empty, receive_loop, send_blocking, receive_blocking, receive_blocking_timed,
  at_time, decoded, decode, queue_full, system, too_large,
}

-- Attempts that find the queue full within the five seconds, and reads that find it empty.
abbrev pub Retries : ℕ × Sending → Type 0
Retries (now, accepted) = ⊥
Retries (now, full elapsed) = elapsed ≤ 5 * second
Retries (now, failed code) = ⊥

abbrev pub Empty : Receiving → Type 0
Empty r = r ≡ empty

receive_loop-waits :
    (before : List Receiving) (bs : List ℕ)
    → All Empty before
    → receive_loop (before ++ (received bs ∷ [])) ≡ returned (ok bs)
unfolding receive_loop
receive_loop-waits [] bs h = refl
receive_loop-waits (r ∷ before) bs (e, h) =
    ap (λ x. receive_loop (x ∷ (before ++ (received bs ∷ [])))) e ∙ receive_loop-waits before bs h

abbrev NoResult : Outcome (List ℕ) → Type 0
NoResult running = Unit
NoResult crashed = Unit
NoResult (returned (ok _)) = ⊥
NoResult (returned (err _)) = Unit

other : {o : Outcome (List ℕ)} {bs : List ℕ} → o ≡ returned (ok bs) → NoResult o → ⊥
other e h = subst NoResult e h

same : {xs ys : List ℕ} → Path (Outcome (List ℕ)) (returned (ok xs)) (returned (ok ys)) → xs ≡ ys
same e = cc

module _ (codec : Bincode) where
  -- However often it is retried, the message is accepted with the time of the last attempt.
  send_loop-Retries :
      (before : List (ℕ × Sending)) (m : Message) (now : ℕ)
      → All Retries before
      → send_loop (before ++ ((now, accepted) ∷ [])) (wire codec m)
        ≡ returned (ok (wire codec (record m { timestamp = now })))
  unfolding send_loop
  send_loop-Retries [] m now h = rw (stamp-wire codec m now, send_loop) refl
  send_loop-Retries ((t, accepted) ∷ before) m now h = absurd h.0
  send_loop-Retries ((t, failed c) ∷ before) m now h = absurd h.0
  send_loop-Retries ((t, full elapsed) ∷ before) m now h =
      rw (stamp-wire codec m t, le→ltb (5 * second) elapsed h.0, send_loop)
        (send_loop-Retries before (record m { timestamp = t }) now h.1)

  send_blocking-loop :
      (tries : List (ℕ × Sending)) (m : Message) (q : Queue) {fd : ℕ}
      → q.send_fd ≡ some fd
      → length (wire codec (record m { timestamp = 0 })) ≤ q.max_msg_size
      → send_blocking codec tries m q ≡ send_loop tries (wire codec (record m { timestamp = 0 }))
  unfolding send_blocking to_bytes
  send_blocking-loop tries m q e fits =
      rw
        (
          e,
          codec.fields_in_order (record m { timestamp = 0 }),
          le→ltb q.max_msg_size (length (wire codec (record m { timestamp = 0 }))) fits,
          send_blocking,
          to_bytes,
        )
        refl

  decoded-wire :
      (m : Message)
      → IsMessage m
      → decoded codec (returned (ok (wire codec m)))
        ≡ returned (ok (record m { receive_time_ns = 0 }))
  unfolding from_bytes
  decoded-wire m v = rw (codec.reads_back m v, decoded, decode, from_bytes) refl

  send_blocking-large :
      (tries : List (ℕ × Sending)) (m : Message) (q : Queue) {fd : ℕ}
      → q.send_fd ≡ some fd
      → ltb q.max_msg_size (length (wire codec (record m { timestamp = 0 }))) ≡ true
      → send_blocking codec tries m q
        ≡ returned
            (err (too_large (length (wire codec (record m { timestamp = 0 }))) q.max_msg_size))
  unfolding send_blocking to_bytes
  send_blocking-large tries m q e big =
      rw (e, codec.fields_in_order (record m { timestamp = 0 }), big, send_blocking, to_bytes) refl

  -- A message that fits the queue's limit is sent however often the queue is full in the first five
  -- seconds, and is received however often the other queue end finds nothing: complete, and with the
  -- time of the attempt that succeeded.
  pub sent_received :
      (m : Message) (now : ℕ) (full_tries : List (ℕ × Sending)) (empty_tries : List Receiving)
      (q p : Queue) {fd fd' : ℕ}
      → q.send_fd ≡ some fd
      → p.recv_fd ≡ some fd'
      → length (wire codec (record m { timestamp = 0 })) ≤ q.max_msg_size
      → IsMessage (record m { timestamp = now })
      → All Retries full_tries
      → All Empty empty_tries
      → (bs : List ℕ) × (send_blocking codec (full_tries ++ ((now, accepted) ∷ [])) m q
          ≡ returned (ok bs))
        × (receive_blocking codec (empty_tries ++ (received bs ∷ [])) p
            ≡ returned (ok (record m { timestamp = now; receive_time_ns = 0 })))
  unfolding receive_blocking from_bytes
  sent_received m now full_tries empty_tries q p sender receiver fits v retries none_yet = (
    wire codec (record m { timestamp = now }),
    send_blocking-loop (full_tries ++ ((now, accepted) ∷ [])) m q sender fits
        ∙ send_loop-Retries full_tries (record m { timestamp = 0 }) now retries,
    rw
        (
          receiver,
          receive_loop-waits empty_tries (wire codec (record m { timestamp = now })) none_yet,
        )
        (decoded-wire (record m { timestamp = now }) v),
  )

  send_loop-ok :
      (tries : List (ℕ × Sending)) (m : Message) {bs : List ℕ}
      → send_loop tries (wire codec m) ≡ returned (ok bs)
      → (now : ℕ) × (bs ≡ wire codec (record m { timestamp = now }))
  unfolding send_loop
  send_loop-ok [] m {bs} e = absurd (other {o = running} e tt)
  send_loop-ok ((t, accepted) ∷ tries) m {bs} e =
      (t, same (sym e ∙ rw (stamp-wire codec m t, send_loop) refl))
  send_loop-ok ((t, failed c) ∷ tries) m {bs} e = absurd (
      other {o = returned (err (system c))} (sym (rw (stamp-wire codec m t, send_loop) refl) ∙ e)
        tt)
  send_loop-ok ((t, full elapsed) ∷ tries) m {bs} e = elim (Bool-cases (ltb (5 * second) elapsed)) [
    | inl late ↦ absurd (
        other {o = returned (err queue_full)}
          (sym (rw (stamp-wire codec m t, late, send_loop) refl) ∙ e) tt)
    | inr soon ↦
        send_loop-ok tries (record m { timestamp = t })
          (sym (rw (stamp-wire codec m t, soon, send_loop) refl) ∙ e)
  ]

  -- Whatever the queue does, a send that returns has given the kernel the message with the time of one
  -- of its attempts, in no more bytes than the queue's limit.
  pub send_blocking-ok :
      (tries : List (ℕ × Sending)) (m : Message) (q : Queue) {fd : ℕ} {bs : List ℕ}
      → q.send_fd ≡ some fd
      → send_blocking codec tries m q ≡ returned (ok bs)
      → (length bs ≤ q.max_msg_size) × (now : ℕ) × (bs ≡ wire codec (record m { timestamp = now }))
  send_blocking-ok tries m q {bs = bs} sender e =
      elim (Bool-cases (ltb q.max_msg_size (length (wire codec (record m { timestamp = 0 }))))) [
        | inl big ↦ absurd (other (sym (send_blocking-large tries m q sender big) ∙ e) tt)
        | inr small ↦
            let fits =
              ltb→le q.max_msg_size (length (wire codec (record m { timestamp = 0 }))) small in
            let (now, stamped) =
              send_loop-ok tries (record m { timestamp = 0 })
                (sym (send_blocking-loop tries m q sender fits) ∙ e) in
            (
              omega (
                arith,
                fits,
                ap length stamped,
                length-wire codec (record m { timestamp = 0 }),
                length-wire codec (record m { timestamp = now }),
              ),
              now,
              stamped,
            )
      ]

  -- The timed receive gives the message of the plain one, with the clock's reading.
  receive_blocking_timed-receive_blocking :
      (tries : List Receiving) (now : ℕ) (q : Queue)
      → receive_blocking_timed codec tries now q
        ≡ at_time codec now (receive_blocking codec tries q)
  unfolding receive_blocking_timed receive_blocking
  receive_blocking_timed-receive_blocking tries now q = elim (Option-cases q.recv_fd) [
    | inl e ↦ rw (e, receive_blocking_timed, receive_blocking) refl
    | inr (fd, e) ↦ rw (e, receive_blocking_timed, receive_blocking) refl
  ]
