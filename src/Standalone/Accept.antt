-- ===== src/Standalone/Accept.antt =====
-- Why the accept loop ends.
use rusty_comms.Prelude.{
  ℕ, zero, suc, ◌-◌, ◌≤◌, ◌<◌, ◌≡◌, ◌⊎◌, refl, inl, inr, ap, ◌∙◌, Bool, true, false, Bool-cases,
  ◌&&◌, ltb, ltb→lt, if◌then◌else◌, Option, none, some, List, [], ◌∷◌, ◌++◌, All, arith,
}
use rusty_comms.Standalone.{
  server_accept_grace_period, server_idle_timeout, Accepting, Poll, connection, would_block,
  accept_error, Ending, signalled, idle, disconnected, accept_failed, waiting, ended, initial,
  accept_step, accept_loop,
}

-- The time of the last connection, and the number of connections that got a handler.
abbrev pub last_connection : Option ℕ → List Poll → Option ℕ
last_connection t [] = t
last_connection t (connection now _ _ ∷ ps) = last_connection (some now) ps
last_connection t (would_block _ _ _ ∷ ps) = last_connection t ps
last_connection t (accept_error ∷ ps) = last_connection t ps

abbrev pub spawned : ℕ → List Poll → ℕ
spawned n [] = n
spawned n (connection _ blocking_set nodelay_set ∷ ps) =
    spawned (if blocking_set && nodelay_set then suc n else n) ps
spawned n (would_block _ _ _ ∷ ps) = spawned n ps
spawned n (accept_error ∷ ps) = spawned n ps

-- Why the loop ends at a poll, when the last connection was at `t` and `n` handlers were started.
abbrev pub Why : ℕ → Ending → Option ℕ → ℕ → Poll → Type 0
Why server_start e t n (connection _ _ _) = true ≡ false
Why server_start e t n accept_error = e ≡ accept_failed
Why server_start e t n (would_block shutdown now all_finished) =
    ((e ≡ signalled) × (shutdown ≡ true))
    ⊎ (((e ≡ idle) × (shutdown ≡ false) × (t ≡ none) × (server_idle_timeout < now - server_start))
        ⊎ ((e ≡ disconnected)
            × (shutdown ≡ false)
            × (1 ≤ n)
            × (all_finished ≡ true)
            × ((at : ℕ) × (t ≡ some at) × (server_accept_grace_period < now - at))))

-- No poll of the list gives a reason to end, each judged by the connections before it.
abbrev pub Passed : ℕ → Option ℕ → ℕ → List Poll → Type 0
Passed server_start t n [] = Unit
Passed server_start t n (p ∷ ps) =
    ((e : Ending) → ¬ Why server_start e t n p)
    × Passed server_start (last_connection t (p ∷ [])) (spawned n (p ∷ [])) ps

abbrev advance : Poll → Accepting → Accepting
advance (connection now blocking_set nodelay_set) s = record {
  first_client_time = some now;
  handles = if blocking_set && nodelay_set then suc s.handles else s.handles;
  had_any_client = true;
}
advance (would_block _ _ _) s = s
advance accept_error s = s

abbrev Step : ℕ → Poll → Accepting → Type 0
Step server_start p s =
    ((accept_step server_start p s ≡ waiting (advance p s))
      × ((e : Ending) → ¬ Why server_start e s.first_client_time s.handles p))
    ⊎ ((e : Ending) × (accept_step server_start p s ≡ ended e s)
        × Why server_start e s.first_client_time s.handles p)

step-connection :
    (server_start now : ℕ) (b d : Bool) (s : Accepting)
    → accept_step server_start (connection now b d) s ≡ waiting (advance (connection now b d) s)
unfolding accept_step
step-connection server_start now true true s = refl
step-connection server_start now true false s = refl
step-connection server_start now false d s = refl

step-would_block :
    (server_start now : ℕ) (fin : Bool) (t : Option ℕ) (n : ℕ) (any : Bool)
    → Step server_start
        (would_block false now fin)
        (record { first_client_time = t; handles = n; had_any_client = any })
unfolding accept_step
step-would_block server_start now fin none n any =
    elim (Bool-cases (ltb server_idle_timeout (now - server_start))) [
      | inl e ↦ inr (
        idle,
        rw (e) refl,
        inr (inl (refl, refl, refl, ltb→lt server_idle_timeout (now - server_start) e)),
      )
      | inr e ↦ inl (rw (e) refl, λ ending why. ground (arith, why))
    ]
step-would_block server_start now fin (some t) zero any =
    inl (ground arith, λ ending why. ground (arith, why))
step-would_block server_start now false (some t) (suc n) any =
    inl (ground arith, λ ending why. ground (arith, why))
step-would_block server_start now true (some t) (suc n) any =
    elim (Bool-cases (ltb server_accept_grace_period (now - t))) [
      | inl e ↦ inr (
        disconnected,
        rw (e) (ground arith),
        inr (
            inr (
              refl,
              refl,
              omega arith,
              refl,
              (t, refl, ltb→lt server_accept_grace_period (now - t) e),
            )),
      )
      | inr e ↦ inl (rw (e) refl, λ ending why. ground (arith, why))
    ]

step-cases : (server_start : ℕ) (p : Poll) (s : Accepting) → Step server_start p s
step-cases server_start (connection now b d) s =
    inl (step-connection server_start now b d s, λ ending why. ground (arith, why))
step-cases server_start (would_block true now fin) s =
    inr (signalled, (unfold accept_step in refl), inl (refl, refl))
step-cases server_start (would_block false now fin) s =
    step-would_block server_start now fin s.first_client_time s.handles s.had_any_client
step-cases server_start accept_error s = inr (accept_failed, (unfold accept_step in refl), refl)

advance-last_connection :
    (p : Poll) (s : Accepting) (ps : List Poll)
    → last_connection s.first_client_time (p ∷ ps)
      ≡ last_connection (advance p s).first_client_time ps
advance-last_connection (connection now b d) s ps = refl
advance-last_connection (would_block _ _ _) s ps = refl
advance-last_connection accept_error s ps = refl

advance-spawned :
    (p : Poll) (s : Accepting) (ps : List Poll)
    → spawned s.handles (p ∷ ps) ≡ spawned (advance p s).handles ps
advance-spawned (connection now b d) s ps = refl
advance-spawned (would_block _ _ _) s ps = refl
advance-spawned accept_error s ps = refl

-- The loop goes on after all the polls, none of which gives a reason to end.
abbrev pub Waits : ℕ → Accepting → List Poll → Type 0
Waits server_start s ps =
    ((s' : Accepting) × (accept_loop server_start s ps ≡ waiting s'))
    × Passed server_start s.first_client_time s.handles ps

-- The loop ends at the first poll that gives a reason, with that reason.
abbrev pub Ends : ℕ → Accepting → List Poll → Type 0
Ends server_start s ps =
    (before : List Poll) × (p : Poll) × (rest : List Poll) × (e : Ending) × (s' : Accepting) × (ps
      ≡ before ++ (p ∷ rest))
    × (accept_loop server_start s ps ≡ ended e s')
    × Why server_start e (last_connection s.first_client_time before) (spawned s.handles before) p
    × Passed server_start s.first_client_time s.handles before

loop-step :
    (server_start : ℕ) (p : Poll) (s s' : Accepting) (ps : List Poll)
    → accept_step server_start p s ≡ waiting s'
    → accept_loop server_start s (p ∷ ps) ≡ accept_loop server_start s' ps
unfolding accept_loop
loop-step server_start p s s' ps h = rw (h, accept_loop) refl

loop-end :
    (server_start : ℕ) (p : Poll) (s : Accepting) (ps : List Poll) (e : Ending)
    → accept_step server_start p s ≡ ended e s
    → accept_loop server_start s (p ∷ ps) ≡ ended e s
unfolding accept_loop
loop-end server_start p s ps e h = rw (h, accept_loop) refl

Passed-later :
    (server_start : ℕ) (p : Poll) (s : Accepting) (ps : List Poll)
    → ((e : Ending) → ¬ Why server_start e s.first_client_time s.handles p)
    → Passed server_start (advance p s).first_client_time (advance p s).handles ps
    → Passed server_start s.first_client_time s.handles (p ∷ ps)
Passed-later server_start p s ps h later =
    (h, rw (advance-last_connection p s [], advance-spawned p s []) later)

Ends-later :
    (server_start : ℕ) (p : Poll) (s : Accepting) (ps : List Poll)
    → accept_step server_start p s ≡ waiting (advance p s)
    → ((e : Ending) → ¬ Why server_start e s.first_client_time s.handles p)
    → Ends server_start (advance p s) ps
    → Ends server_start s (p ∷ ps)
Ends-later server_start p s ps h none_here (before, q, rest, e, s', split, run, why, passed) = (
  p ∷ before,
  q,
  rest,
  e,
  s',
  ap (λ l. p ∷ l) split,
  loop-step server_start p s (advance p s) ps h ∙ run,
  rw (advance-last_connection p s before, advance-spawned p s before) why,
  Passed-later server_start p s before none_here passed,
)

loop-cases :
    (server_start : ℕ) (s : Accepting) (ps : List Poll)
    → Waits server_start s ps ⊎ Ends server_start s ps
loop-cases server_start s [] = inl ((s, (unfold accept_loop in refl)), tt)
loop-cases server_start s (p ∷ ps) = elim (step-cases server_start p s) [
  | inl (h, none_here) ↦ elim (loop-cases server_start (advance p s) ps) [
    | inl ((s', w), passed) ↦ inl (
      (s', loop-step server_start p s (advance p s) ps h ∙ w),
      Passed-later server_start p s ps none_here passed,
    )
    | inr ends ↦ inr (Ends-later server_start p s ps h none_here ends)
  ]
  | inr (e, h, why) ↦ inr ([], p, ps, e, s, refl, loop-end server_start p s ps e h, why, tt)
]

-- The accept loop ends at the first poll that gives a reason, and with that reason: a shutdown signal;
-- else, when there is no connection to accept, more than the idle timeout behind its start while no
-- client has connected, or more than the grace period behind the last connection when a handler was
-- started and all of them are finished; or an error of accept. It is still waiting after the polls
-- only when none of them gives a reason.
pub accept_loop-cases :
    (server_start : ℕ) (ps : List Poll)
    → Waits server_start initial ps ⊎ Ends server_start initial ps
accept_loop-cases server_start ps = loop-cases server_start initial ps

-- Nothing to accept, and no signal.
abbrev pub IsQuiet : Poll → Type 0
IsQuiet (connection _ _ _) = true ≡ false
IsQuiet (would_block shutdown _ _) = shutdown ≡ false
IsQuiet accept_error = true ≡ false

-- One client has connected and has got no handler.
abbrev pub abandoned : ℕ → Accepting
abandoned at = record { first_client_time = some at; handles = 0; had_any_client = true }

quiet-step :
    (server_start at : ℕ) (p : Poll)
    → IsQuiet p
    → accept_step server_start p (abandoned at) ≡ waiting (abandoned at)
unfolding accept_step
quiet-step server_start at (connection _ _ _) h = absurd (ground arith)
quiet-step server_start at (would_block shutdown now fin) h = rw (h) (ground arith)
quiet-step server_start at accept_error h = absurd (ground arith)

loop-quiet :
    (server_start at : ℕ) (ps : List Poll)
    → All IsQuiet ps
    → accept_loop server_start (abandoned at) ps ≡ waiting (abandoned at)
loop-quiet server_start at [] h = unfold accept_loop in refl
loop-quiet server_start at (p ∷ ps) (q, h) =
    rw (loop-step server_start p (abandoned at) (abandoned at) ps (quiet-step server_start at p q))
      (loop-quiet server_start at ps h)

-- Behind a connection whose settings fail as the only one, the loop never ends without a signal, an
-- error or another connection, however long it waits.
pub accept_loop-quiet :
    (server_start at : ℕ) (blocking_set nodelay_set : Bool) (ps : List Poll)
    → (blocking_set && nodelay_set) ≡ false
    → All IsQuiet ps
    → accept_loop server_start initial (connection at blocking_set nodelay_set ∷ ps)
      ≡ waiting (abandoned at)
accept_loop-quiet server_start at b d ps unset quiet =
    loop-step server_start (connection at b d) initial (advance (connection at b d) initial) ps
      (step-connection server_start at b d initial)
    ∙ rw (unset) (loop-quiet server_start at ps quiet)
