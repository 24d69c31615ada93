-- ===== src/AsyncQueue/Opening.antt =====
-- A client opens the server's queue, which may not exist yet.
use rusty_comms.Prelude.{
  ℕ, ◌+◌, ◌*◌, ◌≤◌, ◌≡◌, refl, ap, min, false, some, List, [], ◌∷◌, ◌++◌, length, All, arith,
  lt→ltb, le→ltb, dec_lt, ok, err,
}
use rusty_comms.Metrics.Totals.{total}
use rusty_comms.Queue.{Config}
use rusty_comms.AsyncQueue.{
  Outcome, returned, Transport, Opened, opened, missing, refused, enoent, open_failed, connected,
  open_loop, configure, joined, start_client,
}

abbrev pub IsMissing : Opened → Type 0
IsMissing (opened _) = ⊥
IsMissing missing = Unit
IsMissing (refused _) = ⊥

open_loop-opens :
    (attempts delay fd : ℕ) (before rest : List Opened)
    → All IsMissing before
    → delay ≤ 1000
    → attempts + length before ≤ 10
    → ((open_loop attempts delay (before ++ (opened fd ∷ rest))).0 ≡ returned (ok fd))
      × (total (open_loop attempts delay (before ++ (opened fd ∷ rest))).1 ≤ 1000 * length before)
unfolding open_loop
open_loop-opens attempts delay fd [] rest h d few = (refl, omega arith)
open_loop-opens attempts delay fd (opened _ ∷ before) rest h d few = absurd h.0
open_loop-opens attempts delay fd (refused _ ∷ before) rest h d few = absurd h.0
open_loop-opens attempts delay fd (missing ∷ before) rest h d few =
    let (o, slept) =
      open_loop-opens (attempts + 1) (min (delay * 2) 1000) fd before rest h.1 (omega arith)
        (omega arith) in
    rw (lt→ltb attempts 10 (omega arith)) (o, omega arith)

eleventh :
    (a : ℕ)
    → a ≡ 10
    → Path
        (Outcome ℕ)
        (returned (err (open_failed (a + 1) enoent)))
        (returned (err (open_failed 11 enoent)))
eleventh a e = ap (λ n. returned (err (open_failed (n + 1) enoent))) e

open_loop-fails :
    (attempts delay : ℕ) (before rest : List Opened)
    → All IsMissing before
    → attempts ≤ 10
    → attempts + length before ≡ 11
    → (open_loop attempts delay (before ++ rest)).0 ≡ returned (err (open_failed 11 enoent))
unfolding open_loop
open_loop-fails attempts delay [] rest h a e = absurd (omega arith)
open_loop-fails attempts delay (opened _ ∷ before) rest h a e = absurd h.0
open_loop-fails attempts delay (refused _ ∷ before) rest h a e = absurd h.0
open_loop-fails attempts delay (missing ∷ before) rest h a e = elim (dec_lt attempts 10) [
  | yes more ↦ rw (lt→ltb attempts 10 more) (
      open_loop-fails (attempts + 1) (min (delay * 2) 1000) before rest h.1 (omega arith)
        (omega arith))
  | no last ↦ rw (le→ltb attempts 10 (omega arith)) (eleventh attempts (omega arith))
]

-- A client that finds no queue at up to ten attempts and then the server's queue is connected to it,
-- after at most a second of sleep for each failed attempt; at the eleventh attempt without a queue
-- it fails.
pub start_client-Connects :
    (config : Config) (t : Transport) (fd : ℕ) (before rest late : List Opened)
    → All IsMissing before
    → All IsMissing late
    → length before ≤ 10
    → length late ≡ 11
    → ((start_client (before ++ (opened fd ∷ rest)) config t).0 ≡ (
      returned (ok tt),
      record (configure false config t) { mq_fd = some fd; state = connected },
    ))
      × (total (start_client (before ++ (opened fd ∷ rest)) config t).1 ≤ 1000 * length before)
      × ((start_client (late ++ rest) config t).0
          ≡ (returned (err (open_failed 11 enoent)), configure false config t))
unfolding start_client
start_client-Connects config t fd before rest late h h' few many =
    let (o, slept) = open_loop-opens 0 10 fd before rest h (omega arith) (omega (arith, few)) in
    (
      ap (λ x. joined x (configure false config t)) o,
      slept,
      ap (λ x. joined x (configure false config t))
          (open_loop-fails 0 10 late rest h' (omega arith) (omega (arith, many))),
    )
