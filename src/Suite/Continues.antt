-- ===== src/Suite/Continues.antt =====
-- The loop over the mechanisms, with and without `--continue-on-error`.
use rusty_comms.Prelude.{
  ℕ, ◌≡◌, refl, ap, ◌∙◌, Bool, true, false, Bool-cases, inl, inr, List, [], ◌∷◌, ◌++◌, map, All,
  Result, ok, err, if◌then◌else◌,
}
use rusty_comms.Metrics.{Numeric}
use rusty_comms.Results.Record.{IpcMechanism}
use rusty_comms.Config.{TestConfig}
use rusty_comms.Report.{BenchmarkResults, failure, set_failure, new}
use rusty_comms.Suite.{
  Fault, Args, contains_all, expand_all, from_args, Reported, failed_result, added, run_mechanisms,
  run_suite,
}

-- `all` stands for mechanisms that a run can be given.
expand_all-contains_all : (ms : List IpcMechanism) → contains_all (expand_all ms) ≡ false
unfolding expand_all
expand_all-contains_all ms = elim (Bool-cases (contains_all ms)) [
  | inl e ↦ rw e refl
  | inr e ↦ rw e e
]

err-ne-ok : {E A : Type 0} {e : E} {a : A} → Path (Result E A) (err e) (ok a) → ⊥
err-ne-ok h = cc

module _ (num : Numeric) (utc : ℕ) (to_string : Fault → List ℕ)
    (runs : TestConfig → Result Fault (BenchmarkResults num)) (args : Args) where
  -- A mechanism's own results, or the failure that stands for them.
  abbrev pub result_of : IpcMechanism → BenchmarkResults num
  result_of m = elim (runs (from_args args m)) [
    | ok r ↦ r
    | err e ↦ failed_result num utc to_string (from_args args m) e
  ]

  abbrev pub Succeeds : IpcMechanism → Type 0
  Succeeds m = (r : BenchmarkResults num) × (runs (from_args args m) ≡ ok r)

  -- What one run adds to the results of the rest.
  abbrev step :
      Bool
      → TestConfig
      → Reported num
      → Result Fault (List (BenchmarkResults num))
      → Result Fault (List (BenchmarkResults num))
  step b config x rest = elim x [
    | ok r ↦ added num r rest
    | err e ↦ if b then added num (failed_result num utc to_string config e) rest else err e
  ]

  abbrev reported : TestConfig → Reported num → BenchmarkResults num
  reported config x = elim x [ ok r ↦ r | err e ↦ failed_result num utc to_string config e ]

  goes_on :
      (b : Bool) (config : TestConfig) (x : Reported num) (rs : List (BenchmarkResults num))
      → b ≡ true
      → step b config x (ok rs) ≡ ok (reported config x ∷ rs)
  goes_on b config (ok r) rs h = refl
  goes_on b config (err e) rs h = ap (λ c. step c config (err e) (ok rs)) h

  succeeded :
      (b : Bool) (config : TestConfig) (x : Reported num) (r : BenchmarkResults num)
      (rs : List (BenchmarkResults num))
      → x ≡ ok r
      → step b config x (ok rs) ≡ ok (reported config x ∷ rs)
  succeeded b config (ok r') r rs h = refl
  succeeded b config (err e) r rs h = absurd (err-ne-ok h)

  fails :
      (b : Bool) (config : TestConfig) (x : Reported num) (e : Fault)
      (rest : Result Fault (List (BenchmarkResults num)))
      → b ≡ false
      → x ≡ err e
      → step b config x rest ≡ err e
  fails b config x e rest h failed =
      ap (λ y. step b config y rest) failed ∙ ap (λ c. step c config (err e) rest) h

  stops :
      (b : Bool) (config : TestConfig) (x : Reported num) (r : BenchmarkResults num) (e : Fault)
      → x ≡ ok r
      → step b config x (err e) ≡ err e
  stops b config x r e h = ap (λ y. step b config y (err e)) h

  run_mechanisms-map :
      (ms : List IpcMechanism)
      → args.continue_on_error ≡ true
      → run_mechanisms num utc to_string runs args ms ≡ ok (map result_of ms)
  unfolding run_mechanisms
  run_mechanisms-map [] h = refl
  run_mechanisms-map (m ∷ ms) h =
      ap (step args.continue_on_error (from_args args m) (runs (from_args args m)))
        (run_mechanisms-map ms h)
      ∙ goes_on args.continue_on_error (from_args args m) (runs (from_args args m))
          (map result_of ms) h

  -- With `--continue-on-error` the suite returns, with one result for each of the mechanisms in their
  -- order: the results of its run, or the failure with the text of its error; `all` is not among them.
  pub run_suite-Complete :
      args.continue_on_error ≡ true
      → (run_suite num utc to_string runs args ≡ ok (map result_of (expand_all args.mechanisms)))
        × (contains_all (expand_all args.mechanisms) ≡ false)
        × ((m : IpcMechanism) (e : Fault)
            → runs (from_args args m) ≡ err e
            → (result_of m).status ≡ failure (to_string e))
  unfolding run_suite failed_result set_failure new
  run_suite-Complete h = (
    run_mechanisms-map (expand_all args.mechanisms) h,
    expand_all-contains_all args.mechanisms,
    λ m e failed. rw (failed, result_of) refl,
  )

  -- Without it the suite returns the error of the first mechanism whose run fails, and the results of
  -- those before it are dropped; when every run succeeds it returns their results in order.
  pub run_mechanisms-aborts :
      (before after : List IpcMechanism) (m : IpcMechanism) (e : Fault)
      → args.continue_on_error ≡ false
      → All Succeeds before
      → runs (from_args args m) ≡ err e
      → (run_mechanisms num utc to_string runs args (before ++ (m ∷ after)) ≡ err e)
        × (run_mechanisms num utc to_string runs args before ≡ ok (map result_of before))
  unfolding run_mechanisms
  run_mechanisms-aborts [] after m e h all failed =
      (fails args.continue_on_error (from_args args m) _ e _ h failed, refl)
  run_mechanisms-aborts (x ∷ before) after m e h ((r, run), all) failed =
      let (off, on) = run_mechanisms-aborts before after m e h all failed in
      let config = from_args args x in
      (
        ap (step args.continue_on_error config (runs config)) off
            ∙ stops args.continue_on_error config (runs config) r e run,
        ap (step args.continue_on_error config (runs config)) on
            ∙ succeeded args.continue_on_error config (runs config) r (map result_of before) run,
      )
