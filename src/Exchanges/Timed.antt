-- ===== src/Exchanges/Timed.antt =====
-- `run_single_threaded_round_trip` of src/benchmark.rs: what it sends, and what it records.
use rusty_comms.Prelude.{
  ℕ, suc, ◌+◌, ◌<◌, ◌≡◌, refl, ap, subst, Bool, true, false, Bool-cases, inl, inr, some, List, [],
  ◌∷◌, ◌++◌, map, length, All, arith, ltb, lt→ltb, if◌then◌else◌, ok,
}
use rusty_comms.Ipc.Message.{Message}
use rusty_comms.Metrics.{Numeric, MetricsCollector, round_trip}
use rusty_comms.Metrics.Collector.{record_message}
use rusty_comms.Metrics.Takes.{Takes, record_message-ok}
use rusty_comms.Results.Record.{MessageLatencyRecord}
use rusty_comms.Results.Record as Record
use rusty_comms.Runner.Reporting.{add_zero, add_suc, HasCounted, HasCounted-record_message}
use rusty_comms.Exchanges.{
  Turn, is_sent, is_answered, is_overdue, entry_of, with_message, with_entry, round_trip_duration,
  round_trip_count, iterations, Subject, with_record, record_round_trips, request_of, returned,
}
use rusty_comms.Exchanges.Combined.{requests}

-- The requests that are sent, numbered from `i`: one that is not sent leaves its number to the next.
abbrev pub sent_requests : ℕ → ℕ → List Turn → List Message
sent_requests size i [] = []
sent_requests size i (t ∷ ts) =
    let next = sent_requests size (suc i) ts in
    let again = sent_requests size i ts in if is_sent t then request_of size i t ∷ next else again

-- The turns whose message is sent and whose receive ends in time.
abbrev pub recorded : List Turn → List Turn
recorded [] = []
recorded (t ∷ ts) =
    let rest = recorded ts in if is_sent t then (if is_overdue t then rest else t ∷ rest) else rest

abbrev pub round_trip_records : Subject → ℕ → List Turn → List MessageLatencyRecord
round_trip_records s i [] = []
round_trip_records s i (t ∷ ts) =
    Record.new i s.mechanism s.message_size round_trip (entry_of t).0 (entry_of t).1
    ∷ round_trip_records s (suc i) ts

abbrev pub InTime : ℕ → Turn → Type 0
InTime duration t = ltb t.elapsed duration ≡ true

round_trip_duration-Entries :
    (duration size i : ℕ) (ts : List Turn) (e : Turn) (rest : List Turn)
    → All (InTime duration) ts
    → ltb e.elapsed duration ≡ false
    → round_trip_duration duration size i (ts ++ (e ∷ rest))
      ≡ returned (ok (sent_requests size i ts, map entry_of (recorded ts)))
unfolding round_trip_duration
round_trip_duration-Entries duration size i [] e rest h over = rw over refl
round_trip_duration-Entries duration size i (t ∷ ts) e rest (p, h) over =
    elim (Bool-cases (is_sent t)) [
      | inr no_send ↦ rw (p, no_send) (round_trip_duration-Entries duration size i ts e rest h over)
      | inl send ↦
          let next = round_trip_duration-Entries duration size (suc i) ts e rest h over in
          elim (Bool-cases (is_overdue t)) [
            | inl missed ↦ rw (p, send, missed) (ap (with_message (request_of size i t)) next)
            | inr taken ↦
                rw (p, send, taken)
                  (ap (λ x. with_message (request_of size i t) (with_entry (entry_of t) x)) next)
          ]
    ]

module _ (num : Numeric) where
  record_round_trips-all :
      Takes num
      → (s : Subject) (i n : ℕ) (c : MetricsCollector num) (ts : List Turn) → HasCounted num c n
      → (c' : MetricsCollector num) × (record_round_trips num s i c (map entry_of ts)
          ≡ returned (ok (c', round_trip_records s i ts)))
        × HasCounted num c' (n + length ts)
  unfolding record_round_trips
  record_round_trips-all takes s i n c [] has = (c, refl, subst (HasCounted num c) (add_zero n) has)
  record_round_trips-all takes s i n c (t ∷ ts) has =
      let l = (entry_of t).0 in
      let (c', e, has') =
        record_round_trips-all takes s (suc i) (suc n)
          (record_message num c s.message_size (some l)).1 ts
          (HasCounted-record_message num takes c n s.message_size l has) in
      (
        c',
        rw (record_message-ok num takes c s.message_size l, record_round_trips)
            (ap
              (with_record num
                (Record.new i s.mechanism s.message_size round_trip l (entry_of t).1))
              e),
        subst (HasCounted num c') (add_suc n (length ts)) has',
      )

  -- An asynchronous round-trip test that runs for a duration, over a histogram that takes every value: the
  -- ids of the requests that are sent have no gap, though sends fail or are overdue. Each receive
  -- that ends in time is recorded, a failed one too, and the records are numbered by their place among
  -- those, whatever the ids of their requests.
  pub round_trip_duration-Records :
      Takes num
      → (s : Subject) (duration n : ℕ) (c : MetricsCollector num) (ts : List Turn) (e : Turn)
        (rest : List Turn)
      → All (InTime duration) ts
      → ltb e.elapsed duration ≡ false
      → HasCounted num c n
      → (es : List (ℕ × ℕ)) × (c' : MetricsCollector num) × (round_trip_duration duration
            s.message_size 0
            (ts ++ (e ∷ rest))
          ≡ returned (ok (sent_requests s.message_size 0 ts, es)))
        × (record_round_trips num s 0 c es
            ≡ returned (ok (c', round_trip_records s 0 (recorded ts))))
        × HasCounted num c' (n + length (recorded ts))
  round_trip_duration-Records takes s duration n c ts e rest h over has =
      let (c', r, has') = record_round_trips-all takes s 0 n c (recorded ts) has in
      (
        map entry_of (recorded ts),
        c',
        round_trip_duration-Entries duration s.message_size 0 ts e rest h over,
        r,
        has',
      )

-- A turn whose message is sent and answered.
abbrev pub Answers : Turn → Type 0
Answers t = (is_sent t ≡ true) × (is_answered t ≡ true)

abbrev pub measured : Bool → List Turn → List Turn
measured true ts = ts
measured false [] = []
measured false (t ∷ ts) = ts

round_trip_count-later :
    (include_first : Bool) (size i : ℕ) (ts : List Turn)
    → All Answers ts
    → 0 < i
    → round_trip_count include_first size i (length ts) ts
      ≡ returned (ok (requests size i ts, map entry_of ts))
unfolding round_trip_count
round_trip_count-later include_first size i [] h pos = refl
round_trip_count-later include_first size i (t ∷ ts) ((p, q), h) pos =
    rw (p, q, lt→ltb 0 i pos)
      (ap (λ x. with_message (request_of size i t) (with_entry (entry_of t) x))
        (round_trip_count-later include_first size (suc i) ts h (omega arith)))

pred_eq : (a b : ℕ) → suc a ≡ suc b → a ≡ b
pred_eq a b e = omega arith

-- An asynchronous round-trip test with a message count whose messages are all answered sends one
-- request more when the first message is not included, and leaves that one out: it has a latency for each
-- of as many messages as were asked for.
pub round_trip_count-Entries :
    (include_first : Bool) (size msg_count : ℕ) (ts : List Turn)
    → All Answers ts
    → length ts ≡ iterations include_first msg_count
    → (round_trip_count include_first size 0 (iterations include_first msg_count) ts
        ≡ returned (ok (requests size 0 ts, map entry_of (measured include_first ts))))
      × (length (measured include_first ts) ≡ msg_count)
unfolding round_trip_count iterations
round_trip_count-Entries true size msg_count [] h e =
    (subst (λ n. round_trip_count true size 0 n [] ≡ returned (ok ([], []))) e refl, e)
round_trip_count-Entries true size msg_count (t ∷ ts) ((p, q), h) e = (
  subst
      (λ n.
        round_trip_count true size 0 n (t ∷ ts)
        ≡ returned (ok (requests size 0 (t ∷ ts), map entry_of (t ∷ ts))))
      e
      (rw (p, q)
        (ap (λ x. with_message (request_of size 0 t) (with_entry (entry_of t) x))
          (round_trip_count-later true size 1 ts h (omega arith)))),
  e,
)
round_trip_count-Entries false size msg_count [] h e = absurd (omega arith)
round_trip_count-Entries false size msg_count (t ∷ ts) ((p, q), h) e =
    let same = pred_eq (length ts) msg_count e in
    (
      rw (p, q)
          (ap (with_message (request_of size 0 t)) (
            subst
              (λ n.
                round_trip_count false size 1 n ts
                ≡ returned (ok (requests size 1 ts, map entry_of ts)))
              same (round_trip_count-later false size 1 ts h (omega arith)))),
      same,
    )
