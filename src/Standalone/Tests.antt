-- ===== src/Standalone/Tests.antt =====
-- A server that comes up at the third attempt, and accept loops that end and that wait.
use rusty_comms.Prelude.{
  ℕ, zero, suc, ◌*◌, ◌≤◌, ◌<◌, ◌≡◌, ◌⊎◌, refl, some, true, false, List, [], ◌∷◌, Result, ok, err,
  returned, arith,
}
use rusty_comms.Standalone.{
  connect_retry_timeout, connect_blocking_with_retry, Poll, connection, would_block, disconnected,
  ended, initial, accept_step, accept_loop,
}
use rusty_comms.Standalone.Connect.{attempt, connect_blocking_with_retry-ends}
use rusty_comms.Standalone.Accept.{Waits, Ends, accept_loop-cases}

-- The attempts that are still to fail.
abbrev start_client : ℕ → Result ℕ (Unit {0}) × ℕ
start_client zero = (ok tt, zero)
start_client (suc n) = (err n, n)

abbrev elapsed : ℕ → ℕ
elapsed n = 100_000_500 * n

third : connect_blocking_with_retry start_client elapsed 302 0 2 ≡ (returned (ok tt), 0)
unfolding connect_blocking_with_retry
third = refl

connect_blocking_with_retry-ends_example :
    (m : ℕ) × (r : Result ℕ (Unit {0})) × (m < 302)
    × ((connect_blocking_with_retry start_client elapsed 302 0 2).0 ≡ returned r)
    × ((k : ℕ)
        → k < m
        → ((e : ℕ) × (attempt start_client elapsed k 2 ≡ err e))
          × (elapsed k ≤ connect_retry_timeout))
    × (attempt start_client elapsed m 2 ≡ r)
    × ((r ≡ ok tt) ⊎ (((e : ℕ) × (r ≡ err e)) × (connect_retry_timeout < elapsed m)))
connect_blocking_with_retry-ends_example =
    connect_blocking_with_retry-ends start_client elapsed 2 (λ k. omega arith)

-- One client that is served in three seconds.
abbrev served : List Poll
served =
    would_block false 5 true
    ∷ connection 1_000_000_000 true true
    ∷ would_block false 4_000_000_000 false
    ∷ would_block false 4_000_000_001 true
    ∷ []

finished :
    accept_loop 0 initial served
    ≡ ended disconnected (record initial {
      first_client_time = some 1_000_000_000;
      handles = 1;
      had_any_client = true;
    })
unfolding accept_loop accept_step
finished = refl

accept_loop-cases_example : Waits 0 initial served ⊎ Ends 0 initial served
accept_loop-cases_example = accept_loop-cases 0 served
