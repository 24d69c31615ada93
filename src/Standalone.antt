-- ===== src/Standalone.antt =====
-- The standalone processes' waiting: `connect_blocking_with_retry` and the accept loop of
-- `run_standalone_server_blocking_multi_accept_tcp`, both of src/standalone_server.rs. Times are
-- nanoseconds of a clock that does not go back.
pub mod Connect
pub mod Accept
pub mod Client
pub mod Workers
pub mod RoundTrips
mod Tests
mod ClientTests
use rusty_comms.Prelude.{
  ℕ, zero, suc, ◌-◌, Bool, true, false, not, ◌&&◌, Option, none, some, List, [], ◌∷◌, ltb, ◌==◌,
  if◌then◌else◌, Result, ok, err, Run, running, returned,
}

abbrev pub connect_retry_timeout : ℕ
connect_retry_timeout = 30_000_000_000

abbrev pub connect_retry_interval : ℕ
connect_retry_interval = 100_000_000

abbrev pub server_accept_grace_period : ℕ
server_accept_grace_period = 2_000_000_000

abbrev pub server_idle_timeout : ℕ
server_idle_timeout = 60_000_000_000

module _ {T E : Type 0} (start_client_blocking : T → Result E (Unit {0}) × T)
    (elapsed : ℕ → ℕ) where
  -- `elapsed n` is the clock's reading behind the attempt `n`, counted from the first.
  unfoldable pub connect_blocking_with_retry : ℕ → ℕ → T → Run E (Unit {0}) × T
  connect_blocking_with_retry zero n transport = (running, transport)
  connect_blocking_with_retry (suc rounds) n transport =
      let (outcome, transport') = start_client_blocking transport in
      elim outcome [
        | ok _ ↦ (returned (ok tt), transport')
        | err e ↦
            let later = connect_blocking_with_retry rounds (suc n) transport' in
            if ltb connect_retry_timeout (elapsed n) then (returned (err e), transport') else later
      ]

pub record Accepting : Type 0 where
  pub first_client_time : Option ℕ
  pub handles : ℕ
  pub had_any_client : Bool

-- What a round of the loop meets: a connection with the outcomes of its two settings, nothing to accept
-- with the shutdown flag and whether all handlers are finished, or an error.
pub data Poll : Type 0 where
  connection : (now : ℕ) (blocking_set nodelay_set : Bool) → Poll
  would_block : (shutdown : Bool) (now : ℕ) (all_finished : Bool) → Poll
  accept_error : Poll

pub data Ending : Type 0 where
  signalled idle disconnected accept_failed : Ending

pub data Accepted : Type 0 where
  waiting : Accepting → Accepted
  ended : Ending → Accepting → Accepted

abbrev pub initial : Accepting
initial = record { first_client_time = none; handles = 0; had_any_client = false }

abbrev pub is_none : Option ℕ → Bool
is_none none = true
is_none (some _) = false

-- `is_some_and(|t| t.elapsed() > accept_grace_period)`
abbrev pub grace_elapsed : ℕ → Option ℕ → Bool
grace_elapsed now none = false
grace_elapsed now (some t) = ltb server_accept_grace_period (now - t)

unfoldable pub accept_step : ℕ → Poll → Accepting → Accepted
accept_step server_start (connection now blocking_set nodelay_set) s =
    let s' = record s { first_client_time = some now; had_any_client = true } in
    if not blocking_set
    then waiting s'
    else if not nodelay_set
    then waiting s'
    else waiting (record s' { handles = suc s'.handles })
accept_step server_start (would_block shutdown now all_finished) s =
    if shutdown
    then ended signalled s
    else if is_none s.first_client_time && ltb server_idle_timeout (now - server_start)
    then ended idle s
    else if grace_elapsed now s.first_client_time && (not (s.handles == 0) && all_finished)
    then ended disconnected s
    else waiting s
accept_step server_start accept_error s = ended accept_failed s

unfoldable pub accept_loop : ℕ → Accepting → List Poll → Accepted
accept_loop server_start s [] = waiting s
accept_loop server_start s (p ∷ ps) = elim (accept_step server_start p s) [
  | waiting s' ↦ accept_loop server_start s' ps
  | ended e s' ↦ ended e s'
]
