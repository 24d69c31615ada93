-- ===== src/Exchanges/Answered.antt =====
-- The loops of `run_single_threaded_round_trip` of src/benchmark_blocking.rs, which record each latency
-- as it is measured. The outcome holds the requests sent, the collector and the records that are
-- streamed.
use rusty_comms.Prelude.{
  ℕ, zero, suc, ◌+◌, ◌-◌, ◌≡◌, ◌⊎◌, refl, ap, subst, Bool, true, false, Bool-cases, inl, inr, some,
  List, [], ◌∷◌, ◌++◌, length, All, arith, ltb, if◌then◌else◌, ok, err,
}
use rusty_comms.Ipc.Message.{Message}
use rusty_comms.Metrics.{Numeric, MetricsCollector, round_trip}
use rusty_comms.Metrics.Collector.{record_message}
use rusty_comms.Metrics.Takes.{Takes, record_message-ok}
use rusty_comms.Results.Record.{MessageLatencyRecord}
use rusty_comms.Results.Record as Record
use rusty_comms.Runner.Reporting.{add_zero, add_suc, HasCounted, HasCounted-record_message}
use rusty_comms.Exchanges.{
  Turn, is_sent, is_answered, Subject, request_of, Run, running, crashed, returned, Fault,
  send_failed, receive_failed, metrics,
}
use rusty_comms.Exchanges.Combined.{requests}
use rusty_comms.Exchanges.Timed.{Answers, round_trip_records}

module _ (num : Numeric) where
  abbrev pub Tested : Type 0
  Tested = Run Fault (List Message × (MetricsCollector num × List MessageLatencyRecord))

  abbrev pub with_request : Message → Tested → Tested
  with_request m running = running
  with_request m crashed = crashed
  with_request m (returned (err e)) = returned (err e)
  with_request m (returned (ok (ms, out))) = returned (ok (m ∷ ms, out))

  abbrev pub with_record : MessageLatencyRecord → Tested → Tested
  with_record r running = running
  with_record r crashed = crashed
  with_record r (returned (err e)) = returned (err e)
  with_record r (returned (ok (ms, (c, rs)))) = returned (ok (ms, (c, r ∷ rs)))

  -- `MessageLatencyRecord::new` for the request `i`.
  abbrev pub record_of : Subject → ℕ → Turn → MessageLatencyRecord
  record_of s i t =
      Record.new i s.mechanism s.message_size round_trip (t.finish - t.send_start) t.wall

  -- The number grows with each request that is sent, answered or not.
  unfoldable pub blocking_duration : Subject → ℕ → ℕ → MetricsCollector num → List Turn → Tested
  blocking_duration s duration i c [] = running
  blocking_duration s duration i c (t ∷ ts) =
      let (outcome, c') = record_message num c s.message_size (some (t.finish - t.send_start)) in
      let next = blocking_duration s duration (suc i) c' ts in
      let unanswered = blocking_duration s duration (suc i) c ts in
      if ltb t.elapsed duration
      then (if is_sent t
          then (if is_answered t
              then (elim outcome [
                | err e ↦ returned (err (metrics e))
                | ok _ ↦
                    with_request (request_of s.message_size i t)
                      (with_record (record_of s i t) next)
              ])
              else with_request (request_of s.message_size i t) unanswered)
          else returned (ok ([], (c, []))))
      else returned (ok ([], (c, [])))

  -- `for i in 0..msg_count`: `n` messages from `i`.
  unfoldable pub blocking_count : Subject → ℕ → ℕ → MetricsCollector num → List Turn → Tested
  blocking_count s i zero c ts = returned (ok ([], (c, [])))
  blocking_count s i (suc n) c [] = running
  blocking_count s i (suc n) c (t ∷ ts) =
      let (outcome, c') = record_message num c s.message_size (some (t.finish - t.send_start)) in
      let next = blocking_count s (suc i) n c' ts in
      if is_sent t
      then (if is_answered t
          then (elim outcome [
            | err e ↦ returned (err (metrics e))
            | ok _ ↦
                with_request (request_of s.message_size i t) (with_record (record_of s i t) next)
          ])
          else returned (err receive_failed))
      else returned (err send_failed)

  -- The records of the answered turns, each with the id of its request, and their number.
  abbrev pub answered_records : Subject → ℕ → List Turn → List MessageLatencyRecord
  answered_records s i [] = []
  answered_records s i (t ∷ ts) =
      let rest = answered_records s (suc i) ts in
      if is_answered t then record_of s i t ∷ rest else rest

  abbrev pub answers : List Turn → ℕ
  answers [] = 0
  answers (t ∷ ts) = let n = answers ts in if is_answered t then suc n else n

abbrev pub Sends : ℕ → Turn → Type 0
Sends duration t = (ltb t.elapsed duration ≡ true) × (is_sent t ≡ true)

abbrev pub Ends : ℕ → Turn → Type 0
Ends duration t = (ltb t.elapsed duration ≡ false) ⊎ (is_sent t ≡ false)

module _ (num : Numeric) where
  ended :
      (a b : Bool) (x o : Tested num)
      → (a ≡ false) ⊎ (b ≡ false)
      → (if a then (if b then x else o) else o) ≡ o
  ended false b x o h = refl
  ended true false x o h = refl
  ended true true x o h = absurd (ground arith)

  -- A blocking round-trip test that runs for a duration, over a histogram that takes every value: it goes
  -- on when a response fails to arrive, and ends by the time or with a send that fails. Every
  -- response is recorded under the id of its request, and the collector counts the responses.
  pub blocking_duration-Records :
      Takes num
      → (s : Subject) (duration i n : ℕ) (c : MetricsCollector num) (ts : List Turn) (e : Turn)
        (rest : List Turn)
      → All (Sends duration) ts
      → Ends duration e
      → HasCounted num c n
      → (c' : MetricsCollector num) × (blocking_duration num s duration i c (ts ++ (e ∷ rest))
          ≡ returned (ok (requests s.message_size i ts, (c', answered_records num s i ts))))
        × HasCounted num c' (n + answers num ts)
  unfolding blocking_duration
  blocking_duration-Records takes s duration i n c [] e rest h end has = (
    c,
    ended (ltb e.elapsed duration) (is_sent e) _ _ end,
    subst (HasCounted num c) (add_zero n) has,
  )
  blocking_duration-Records takes s duration i n c (t ∷ ts) e rest ((p, q), h) end has =
      elim (Bool-cases (is_answered t)) [
        | inr missed ↦
            let (c', run, has') =
              blocking_duration-Records takes s duration (suc i) n c ts e rest h end has in
            (
              c',
              rw (p, q, missed) (ap (with_request num (request_of s.message_size i t)) run),
              rw missed has',
            )
        | inl taken ↦
            let l = t.finish - t.send_start in
            let (c', run, has') =
              blocking_duration-Records takes s duration (suc i) (suc n)
                (record_message num c s.message_size (some l)).1 ts e rest h end
                (HasCounted-record_message num takes c n s.message_size l has) in
            (
              c',
              rw (p, q, taken, record_message-ok num takes c s.message_size l)
                  (ap
                    (λ x.
                      with_request num (request_of s.message_size i t)
                        (with_record num (record_of num s i t) x))
                    run),
              rw taken (subst (HasCounted num c') (add_suc n (answers num ts)) has'),
            )
      ]

  -- A blocking round-trip test with a message count, whose messages are all answered, over such a
  -- histogram: it records each message under its id, and the collector counts them all.
  pub blocking_count-Records :
      Takes num
      → (s : Subject) (i n : ℕ) (c : MetricsCollector num) (ts : List Turn) → All Answers ts
      → HasCounted num c n
      → (c' : MetricsCollector num) × (blocking_count num s i (length ts) c ts
          ≡ returned (ok (requests s.message_size i ts, (c', round_trip_records s i ts))))
        × HasCounted num c' (n + length ts)
  unfolding blocking_count
  blocking_count-Records takes s i n c [] h has =
      (c, refl, subst (HasCounted num c) (add_zero n) has)
  blocking_count-Records takes s i n c (t ∷ ts) ((p, q), h) has =
      let l = t.finish - t.send_start in
      let (c', run, has') =
        blocking_count-Records takes s (suc i) (suc n)
          (record_message num c s.message_size (some l)).1 ts h
          (HasCounted-record_message num takes c n s.message_size l has) in
      (
        c',
        rw (p, q, record_message-ok num takes c s.message_size l)
            (ap
              (λ x.
                with_request num (request_of s.message_size i t)
                  (with_record num (record_of num s i t) x))
              run),
        subst (HasCounted num c') (add_suc n (length ts)) has',
      )
