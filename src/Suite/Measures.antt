-- ===== src/Suite/Measures.antt =====
-- A run that succeeds has measured something.
use rusty_comms.Prelude.{
  ℕ, ◌≡◌, ◌≢◌, refl, sym, ap, subst, ◌∙◌, Bool, true, false, not, ◌&&◌, ◌||◌, Bool-cases, inl, inr,
  Option, List, [], ◌∷◌, Result, ok, err, ◌>>=◌, arith, if◌then◌else◌,
}
use rusty_comms.Metrics.{Numeric, PerformanceMetrics}
use rusty_comms.Results.Record.{IpcMechanism}
use rusty_comms.Config as Config
use rusty_comms.Config.{
  TestConfig, is_shm, create_transport_config, create_transport_config_blocking,
}
use rusty_comms.Report.{
  BenchmarkResults, success, new, tests, update_summary, extract_latency_stats,
  calculate_weighted_average_latency, add_one_way_results, add_round_trip_results,
}
use rusty_comms.Suite.{
  Args, from_args, Outcomes, validate_core_availability, warmed, fresh, with_one_way,
  with_round_trip, with_combined, run, run_blocking, configured, timed,
}

ok_eq : {E A : Type 0} {a b : A} → Path (Result E A) (ok a) (ok b) → a ≡ b
ok_eq e = cc

no_ok : {E A : Type 0} {e : E} {b : A} → Path (Result E A) (err e) (ok b) → ⊥
no_ok e = cc

-- What is returned behind a call that returns.
bind-ok :
    {E A B : Type 0} (r : Result E A) (f : A → Result E B) (b : B)
    → (r >>= f) ≡ ok b
    → (a : A) × (r ≡ ok a) × (f a ≡ ok b)
bind-ok (ok a) f b e = (a, refl, e)
bind-ok (err x) f b e = absurd (no_ok e)

at_least_one :
    (a b : Bool)
    → ((if not a && not b then true else a) || (if not a && not b then true else b)) ≡ true
at_least_one true b = refl
at_least_one false true = refl
at_least_one false false = refl

neither_runs : (a b : Bool) → (a || b) ≡ true → a ≡ false → b ≡ false → ⊥
neither_runs a b h p q = absurd (ground arith)

cons-ne-nil : {A : Type 0} (x : A) (xs : List A) → x ∷ xs ≢ []
cons-ne-nil x xs e = cc

module _ (num : Numeric) where
  -- The results are those of the mechanism and successful, they have the metrics of a test, and the
  -- summary is that of their tests.
  abbrev pub HasMeasured : IpcMechanism → BenchmarkResults num → Type 0
  HasMeasured m r =
      (r.mechanism ≡ m) × (r.status ≡ success) × (tests num r ≢ []) × (update_summary num r ≡ r)

  both_added :
      (config : TestConfig) (o : Outcomes num) (buffer_size : ℕ) (a b : PerformanceMetrics num)
      → HasMeasured config.mechanism (
          add_round_trip_results num b (
            add_one_way_results num a (
              new num o.utc config.mechanism config.message_size buffer_size config.concurrency
                config.msg_count config.duration config.warmup_iterations config.one_way
                config.round_trip)))
  unfolding add_round_trip_results add_one_way_results update_summary extract_latency_stats
      calculate_weighted_average_latency tests new
  both_added config o buffer_size a b = (refl, refl, cons-ne-nil a (b ∷ []), refl)

  one_added :
      (config : TestConfig) (o : Outcomes num) (buffer_size : ℕ) (a : PerformanceMetrics num)
      → HasMeasured config.mechanism (
          add_one_way_results num a (
            new num o.utc config.mechanism config.message_size buffer_size config.concurrency
              config.msg_count config.duration config.warmup_iterations config.one_way
              config.round_trip))
        × HasMeasured config.mechanism (
            add_round_trip_results num a (
              new num o.utc config.mechanism config.message_size buffer_size config.concurrency
                config.msg_count config.duration config.warmup_iterations config.one_way
                config.round_trip))
  unfolding add_round_trip_results add_one_way_results update_summary extract_latency_stats
      calculate_weighted_average_latency tests new
  one_added config o buffer_size a =
      ((refl, refl, cons-ne-nil a [], refl), (refl, refl, cons-ne-nil a [], refl))

  round_trip_on :
      (o : Outcomes num) (runs : Bool) (r0 r : BenchmarkResults num)
      → runs ≡ true
      → with_round_trip num runs o r0 ≡ ok r
      → (b : PerformanceMetrics num) × (add_round_trip_results num b r0 ≡ r)
  round_trip_on o true r0 r on e =
      let (b, _, added) = bind-ok o.round_trip (λ m. ok (add_round_trip_results num m r0)) r e in
      (b, ok_eq added)
  round_trip_on o false r0 r on e = absurd (ground arith)

  round_trip_off :
      (o : Outcomes num) (runs : Bool) (r0 r : BenchmarkResults num)
      → runs ≡ false
      → with_round_trip num runs o r0 ≡ ok r
      → r0 ≡ r
  round_trip_off o true r0 r off e = absurd (ground arith)
  round_trip_off o false r0 r off e = ok_eq e

  if-eq :
      {A : Type 0} (b b' : Bool) (x y : A) → b ≡ b' → (if b then x else y) ≡ (if b' then x else y)
  if-eq b b' x y e = ap (λ c. if c then x else y) e

  separate-HasMeasured :
      (config : TestConfig) (o : Outcomes num) (transport : Config.TransportConfig) (runs : Bool)
      (r : BenchmarkResults num)
      → (config.one_way || runs) ≡ true
      → (with_one_way num config o (fresh num config o transport) >>= λ x.
          with_round_trip num runs o x)
        ≡ ok r
      → HasMeasured config.mechanism r
  separate-HasMeasured config o transport runs r some_test e =
      let r0 = fresh num config o transport in
      let (r1, first, then_round) =
        bind-ok (with_one_way num config o r0) (λ x. with_round_trip num runs o x) r e in
      elim (Bool-cases config.one_way) [
        | inl on ↦
            let (a, _, added) =
              bind-ok o.one_way (λ m. ok (add_one_way_results num m r0)) r1
                (sym (if-eq config.one_way true _ _ on) ∙ first) in
            let one = ok_eq added in
            elim (Bool-cases runs) [
              | inl on' ↦
                  let (b, whole) = round_trip_on o runs r1 r on' then_round in
                  subst (HasMeasured config.mechanism)
                    (ap (add_round_trip_results num b) one ∙ whole)
                    (both_added config o transport.buffer_size a b)
              | inr off' ↦
                  subst (HasMeasured config.mechanism)
                    (one ∙ round_trip_off o runs r1 r off' then_round)
                    (one_added config o transport.buffer_size a).0
            ]
        | inr off ↦
            let untouched = ok_eq (sym (if-eq config.one_way false _ _ off) ∙ first) in
            elim (Bool-cases runs) [
              | inl on' ↦
                  let (b, whole) = round_trip_on o runs r1 r on' then_round in
                  subst (HasMeasured config.mechanism)
                    (ap (add_round_trip_results num b) untouched ∙ whole)
                    (one_added config o transport.buffer_size b).1
              | inr off' ↦ absurd (neither_runs config.one_way runs some_test off off')
            ]
      ]

  combined-HasMeasured :
      (config : TestConfig) (o : Outcomes num) (transport : Config.TransportConfig)
      (r : BenchmarkResults num)
      → with_combined num o (fresh num config o transport) ≡ ok r
      → HasMeasured config.mechanism r
  combined-HasMeasured config o transport r e =
      let ((a, b), _, added) =
        bind-ok o.combined
          (λ ms. ok (
            add_round_trip_results num ms.1
              (add_one_way_results num ms.0 (fresh num config o transport))))
          r e in
      subst (HasMeasured config.mechanism) (ok_eq added)
        (both_added config o transport.buffer_size a b)

  tested-HasMeasured :
      (config : TestConfig) (o : Outcomes num) (transport : Config.TransportConfig)
      (combines : Bool) (r : BenchmarkResults num)
      → (config.one_way || config.round_trip) ≡ true
      → (if combines
          then with_combined num o (fresh num config o transport)
          else (with_one_way num config o (fresh num config o transport) >>= λ x.
              with_round_trip num config.round_trip o x))
        ≡ ok r
      → HasMeasured config.mechanism r
  tested-HasMeasured config o transport true r some_test e =
      combined-HasMeasured config o transport r e
  tested-HasMeasured config o transport false r some_test e =
      separate-HasMeasured config o transport config.round_trip r some_test e

  -- Whatever tests the command line asks for, a run that succeeds, combined or not, has results of its
  -- mechanism that are marked successful, with the metrics of at least one test, and the summary is
  -- that of exactly those metrics; and the cores that were asked for were there.
  pub run-HasMeasured :
      (cores : Option ℕ) (combined_streaming : Bool) (args : Args) (m : IpcMechanism)
      (o : Outcomes num) (r : BenchmarkResults num)
      → run num cores combined_streaming (from_args args m) o ≡ ok r
      → HasMeasured m r × (validate_core_availability cores (from_args args m) ≡ ok tt)
  unfolding run from_args
  run-HasMeasured cores combined_streaming args m o r e =
      let config = from_args args m in
      let (_, valid, e1) = bind-ok (validate_core_availability cores config) _ r e in
      let (_, _, e2) = bind-ok (warmed num config o) _ r e1 in
      (
        tested-HasMeasured config o (create_transport_config o.unique_id config)
            (combined_streaming && (config.one_way && config.round_trip)) r
            (at_least_one args.one_way args.round_trip) e2,
        valid,
      )

  timed_eq :
      (o : Outcomes num) (m : IpcMechanism) (r : BenchmarkResults num)
      → HasMeasured m r
      → HasMeasured m (timed num o r)
  unfolding update_summary extract_latency_stats calculate_weighted_average_latency tests
  timed_eq o m r (a, b, c, d) = (a, b, c, ap (timed num o) d)

  some_blocking : (a b c : Bool) → (a || b) ≡ true → c ≡ false → (a || (b && not c)) ≡ true
  some_blocking a b c h e = ground arith

  -- The same of a blocking run, for the mechanisms but shared memory, whose round-trip test is left out.
  pub run_blocking-HasMeasured :
      (cores : Option ℕ) (args : Args) (m : IpcMechanism) (o : Outcomes num)
      (r : BenchmarkResults num)
      → is_shm m ≡ false
      → run_blocking num cores (from_args args m) o ≡ ok r
      → HasMeasured m r × (validate_core_availability cores (from_args args m) ≡ ok tt)
  unfolding run_blocking from_args
  run_blocking-HasMeasured cores args m o r bidirectional e =
      let config = from_args args m in
      let (_, valid, e1) = bind-ok (validate_core_availability cores config) _ r e in
      let (transport, _, e2) =
        bind-ok (configured num (create_transport_config_blocking o.unique_id config)) _ r e1 in
      let (_, _, e3) = bind-ok (warmed num config o) _ r e2 in
      let runs = config.round_trip && not (is_shm m) in
      let (r1, first, e4) =
        bind-ok (with_one_way num config o (fresh num config o transport)) _ r e3 in
      let (r2, second, e5) = bind-ok (with_round_trip num runs o r1) _ r e4 in
      (
        subst (HasMeasured m) (ok_eq e5) (
            timed_eq o m r2 (
              separate-HasMeasured config o transport runs r2
                (some_blocking config.one_way config.round_trip (is_shm m)
                  (at_least_one args.one_way args.round_trip) bidirectional)
                (ap (λ x. x >>= λ y. with_round_trip num runs o y) first ∙ second))),
        valid,
      )
