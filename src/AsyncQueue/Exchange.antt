-- ===== src/AsyncQueue/Exchange.antt =====
-- What a send gives to the queue, and what a receive makes of it.
use rusty_comms.Prelude.{
  ℕ, suc, ◌+◌, ◌*◌, ◌≤◌, ◌≡◌, refl, sym, ap, ap₂, subst, ◌∙◌, min, Bool, true, false, ◌||◌, Option,
  some, List, [], ◌∷◌, ◌++◌, length, All, arith, ltb, lt→leb, ◌==◌, ok,
}
use rusty_comms.Ipc.Message.{Message, IsMessage}
use rusty_comms.Ipc.Bincode.{Bincode, wire, stamp-wire, from_bytes}
use rusty_comms.Queue.{Receiving, received, empty}
use rusty_comms.AsyncQueue.{
  Outcome, returned, Transport, Sending, accepted, full, failed, five_ms, send_loop, receive_loop,
  send_data, flagged, decoded, send, receive,
}
use rusty_comms.AsyncQueue.Retries.{send-send_data}

abbrev pub IsFull : ℕ × Sending → Type 0
IsFull (now, accepted _) = ⊥
IsFull (now, full) = Unit
IsFull (now, failed _) = ⊥

not_last : (a n last : ℕ) → a + suc n ≤ last → a == last ≡ false
not_last a n last h = ground arith

pressed_before : (p b : Bool) (n : ℕ) → true ≡ (p || (ltb 0 (suc n) || b))
pressed_before p b n = ground arith

receive_loop-waits :
    (attempt delay : ℕ) (before : List Receiving) (bs : List ℕ)
    → All (λ r. r ≡ empty) before
    → attempt + length before ≤ 999
    → (receive_loop attempt delay (before ++ (received bs ∷ []))).0 ≡ returned (ok bs)
unfolding receive_loop
receive_loop-waits attempt delay [] bs h few = rw (lt→leb 1000 attempt (omega arith)) refl
receive_loop-waits attempt delay (r ∷ before) bs (e, h) few =
    subst
      (λ x. (receive_loop attempt delay (x ∷ (before ++ (received bs ∷ [])))).0 ≡ returned (ok bs))
      (sym e)
      (rw (lt→leb 1000 attempt (omega arith), not_last attempt (length before) 999 few)
        (receive_loop-waits (attempt + 1) (min (delay * 2) 500) before bs h (omega arith)))

module _ (codec : Bincode) where
  send_loop-Retries :
      (attempt delay : ℕ) (pressed : Bool) (before : List (ℕ × Sending)) (m : Message)
      (now took : ℕ)
      → All IsFull before
      → attempt + length before ≤ 99
      → ((send_loop attempt delay pressed
            (before ++ ((now, accepted took) ∷ []))
            (wire codec m)).outcome
          ≡ returned (ok (wire codec (record m { timestamp = now }))))
        × ((send_loop attempt delay pressed
              (before ++ ((now, accepted took) ∷ []))
              (wire codec m)).backpressure
            ≡ (pressed || (ltb 0 (length before) || ltb five_ms took)))
  unfolding send_loop
  send_loop-Retries attempt delay pressed [] m now took h few =
      rw (lt→leb 100 attempt (omega arith), stamp-wire codec m now) (refl, refl)
  send_loop-Retries attempt delay pressed ((t, accepted _) ∷ before) m now took h few = absurd h.0
  send_loop-Retries attempt delay pressed ((t, failed c) ∷ before) m now took h few = absurd h.0
  send_loop-Retries attempt delay pressed ((t, full) ∷ before) m now took h few =
      let (sent, flag) =
        send_loop-Retries (attempt + 1) (min (delay * 2) 10) true before m now took h.1
          (omega arith) in
      rw
        (
          lt→leb 100 attempt (omega arith),
          stamp-wire codec m t,
          not_last attempt (length before) 99 few,
        )
        (sent, flag ∙ pressed_before pressed (ltb five_ms took) (length before))

  flagged-ok :
      (o : Outcome (List ℕ)) (b b' : Bool) (bs : List ℕ) (t : Transport)
      → o ≡ returned (ok bs)
      → b ≡ b'
      → flagged o b (record t { has_warned_backpressure = t.has_warned_backpressure || b }) ≡ (
        returned (ok (bs, b')),
        record t { has_warned_backpressure = t.has_warned_backpressure || b' },
      )
  flagged-ok o b b' bs t e f =
      ap₂
        (λ x y. flagged x y (record t { has_warned_backpressure = t.has_warned_backpressure || y }))
        e f

  send-Retries :
      (t : Transport) (o : Option ℕ) {fd : ℕ} (before : List (ℕ × Sending)) (m : Message)
      (now took : ℕ)
      → o ≡ some fd
      → All IsFull before
      → length before ≤ 99
      → send_data (before ++ ((now, accepted took) ∷ [])) (wire codec m) o t ≡ (
        returned (
            ok (
              wire codec (record m { timestamp = now }),
              ltb 0 (length before) || ltb five_ms took,
            )),
        record t {
          has_warned_backpressure =
              t.has_warned_backpressure || (ltb 0 (length before) || ltb five_ms took);
        },
      )
  send-Retries t o before m now took e h few =
      let (sent, flag) = send_loop-Retries 0 1 false before m now took h (omega (arith, few)) in
      ap (λ x. send_data (before ++ ((now, accepted took) ∷ [])) (wire codec m) x t) e
      ∙ flagged-ok _ _ _ (wire codec (record m { timestamp = now })) t sent flag

  receive-decoded :
      (q : Transport) {fd : ℕ} (reads : List Receiving)
      → q.mq_fd ≡ some fd
      → receive codec reads q ≡ decoded codec (receive_loop 0 100 reads).0
  unfolding receive
  receive-decoded q reads e = rw (e, receive) refl

  -- A message whose sender finds the queue full at most 99 times is accepted with the time of the
  -- attempt that succeeded, and the send reports back-pressure exactly when it found the queue full or the
  -- call took more than 5 ms. Whichever transport on the queue receives it then, after at most 999
  -- empty reads, gets it complete with that time: the sender itself too, since both directions
  -- share the queue.
  pub queued_received :
      (m : Message) (t q : Transport) {fd fd' : ℕ} (full_tries : List (ℕ × Sending))
      (empty_reads : List Receiving) (now took : ℕ)
      → t.mq_fd ≡ some fd
      → q.mq_fd ≡ some fd'
      → IsMessage (record m { timestamp = now })
      → All IsFull full_tries
      → length full_tries ≤ 99
      → All (λ r. r ≡ empty) empty_reads
      → length empty_reads ≤ 999
      → (bs : List ℕ) × (send codec (full_tries ++ ((now, accepted took) ∷ [])) m t ≡ (
        returned (ok (bs, ltb 0 (length full_tries) || ltb five_ms took)),
        record t {
          has_warned_backpressure =
              t.has_warned_backpressure || (ltb 0 (length full_tries) || ltb five_ms took);
        },
      ))
        × (receive codec (empty_reads ++ (received bs ∷ [])) q
            ≡ returned (ok (record m { timestamp = now; receive_time_ns = 0 })))
  unfolding from_bytes
  queued_received m t q full_tries empty_reads now took st sq valid fulls few empties few' = (
    wire codec (record m { timestamp = now }),
    send-send_data codec (full_tries ++ ((now, accepted took) ∷ [])) m t
        ∙ send-Retries t t.mq_fd full_tries m now took st fulls few,
    receive-decoded q (empty_reads ++ (received (wire codec (record m { timestamp = now })) ∷ []))
          sq
        ∙ ap (decoded codec) (
            receive_loop-waits 0 100 empty_reads (wire codec (record m { timestamp = now })) empties
              (omega (arith, few')))
        ∙ rw (codec.reads_back (record m { timestamp = now }) valid, decoded, from_bytes) refl,
  )
