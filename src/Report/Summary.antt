-- ===== src/Report/Summary.antt =====
-- The summary of a mechanism's results against the logs of its tests.
use rusty_comms.Prelude.{
  ℕ, ◌+◌, ◌%◌, ◌^◌, ◌<◌, ◌≡◌, refl, sym, ap, ◌∙◌, subst, Option, none, some, List, [], ◌∷◌, ◌++◌,
  map, min, max, length, length-append, append_assoc, append-nil, All, add_usize, arith, Choice,
  least, greatest, IsBest, IsBest-append,
}
use rusty_comms.Metrics.{Numeric, LatencyMetrics, PerformanceMetrics, updated}
use rusty_comms.Metrics.Aggregate.{sum, latencies}
use rusty_comms.Metrics.Workers.{Measured}
use rusty_comms.Metrics.Totals.{Counted, total, total-append}
use rusty_comms.Report.{
  BenchmarkResults, tests, fold_extreme, update_summary, extract_latency_stats,
  calculate_weighted_average_latency, add_one_way_results, add_round_trip_results,
}

-- The extreme of a list that may be empty.
abbrev pub Extreme : Choice → Option ℕ → List ℕ → Type 0
Extreme choice none log = log ≡ []
Extreme choice (some k) log = IsBest choice k log

Extreme-step :
    (choice : Choice) (acc : Option ℕ) (k : ℕ) (xs ys : List ℕ)
    → Extreme choice acc xs
    → IsBest choice k ys
    → Extreme choice (updated choice.pick acc k) (xs ++ ys)
Extreme-step choice none k xs ys e best = subst (λ l. IsBest choice k (l ++ ys)) (sym e) best
Extreme-step choice (some a) k xs ys h best = IsBest-append choice a k xs ys h best

module _ (num : Numeric) where
  -- A test's metrics with the latencies that it recorded and the sizes of its messages.
  abbrev pub Test : Type 0
  Test = PerformanceMetrics num × (List ℕ × List ℕ)

  abbrev pub Logged : Option (LatencyMetrics num) → List ℕ → Type 0
  Logged none log = log ≡ []
  Logged (some l) log = Measured num l log

  abbrev pub Describes : Test → Type 0
  Describes (m, (log, sizes)) = Logged m.latency log × Counted num m.throughput sizes

  abbrev pub metrics : List Test → List (PerformanceMetrics num)
  metrics [] = []
  metrics (t ∷ ts) = t.0 ∷ metrics ts

  abbrev pub all_logs : List Test → List ℕ
  all_logs [] = []
  all_logs (t ∷ ts) = t.1.0 ++ all_logs ts

  abbrev pub all_sizes : List Test → List ℕ
  all_sizes [] = []
  all_sizes (t ∷ ts) = t.1.1 ++ all_sizes ts

  sum-totals :
      (ts : List Test) (messages bytes : ℕ)
      → messages < 2 ^ 64
      → bytes < 2 ^ 64
      → All Describes ts
      → (sum (map (λ m. m.throughput.total_messages) (metrics ts)) messages
          ≡ (messages + length (all_sizes ts)) % 2 ^ 64)
        × (sum (map (λ m. m.throughput.total_bytes) (metrics ts)) bytes
            ≡ (bytes + total (all_sizes ts)) % 2 ^ 64)
  sum-totals [] messages bytes h k all = (omega arith, omega arith)
  sum-totals ((m, (log, sizes)) ∷ ts) messages bytes h k ((_, (e, e')), all) =
      let (p, q) =
        sum-totals ts (add_usize messages m.throughput.total_messages)
          (add_usize bytes m.throughput.total_bytes) (omega arith) (omega arith) all in
      (
        p ∙ omega (arith, e, length-append sizes (all_sizes ts)),
        q ∙ omega (arith, e', total-append sizes (all_sizes ts)),
      )

  module _ (choice : Choice) (f : LatencyMetrics num → ℕ)
      (best : (l : LatencyMetrics num) (log : List ℕ)
        → Measured num l log
        → IsBest choice (f l) log) where
    one_test :
        (o : Option (LatencyMetrics num)) (found : List (LatencyMetrics num)) (acc : Option ℕ)
        (seen log rest : List ℕ)
        → Extreme choice acc seen
        → Logged o log
        → ((acc' : Option ℕ) (seen' : List ℕ)
            → Extreme choice acc' seen'
            → Extreme choice (fold_extreme num choice.pick f acc' found) (seen' ++ rest))
        → Extreme choice
            (fold_extreme num choice.pick f acc
              (elim o as (λ z. List (LatencyMetrics num)) [ none ↦ found | some l ↦ l ∷ found ]))
            (seen ++ (log ++ rest))
    one_test none found acc seen log rest h e go =
        subst (λ l. Extreme choice (fold_extreme num choice.pick f acc found) (seen ++ (l ++ rest)))
          (sym e) (go acc seen h)
    one_test (some l) found acc seen log rest h logged go =
        subst
          (Extreme choice (fold_extreme num choice.pick f (updated choice.pick acc (f l)) found))
          (append_assoc seen log rest)
          (go (updated choice.pick acc (f l)) (seen ++ log)
            (Extreme-step choice acc (f l) seen log h (best l log logged)))

    fold-Extreme :
        (ts : List Test) (acc : Option ℕ) (seen : List ℕ)
        → Extreme choice acc seen
        → All Describes ts
        → Extreme choice
            (fold_extreme num choice.pick f acc (latencies num (metrics ts)))
            (seen ++ all_logs ts)
    fold-Extreme [] acc seen h all = subst (Extreme choice acc) (sym (append-nil seen)) h
    fold-Extreme ((m, (log, sizes)) ∷ ts) acc seen h ((logged, _), all) =
        one_test m.latency (latencies num (metrics ts)) acc seen log (all_logs ts) h logged
          (λ acc' seen' h'. fold-Extreme ts acc' seen' h' all)

  -- After an update the summary describes all the tests of the results together: it has the number of
  -- their messages and of their bytes, in 64 bits, and the least and the greatest of all their latencies,
  -- or none when no latency was recorded.
  pub update_summary-Describes :
      (r : BenchmarkResults num) (ts : List Test)
      → tests num r ≡ metrics ts
      → All Describes ts
      → ((update_summary num r).summary.total_messages_sent ≡ length (all_sizes ts) % 2 ^ 64)
        × ((update_summary num r).summary.total_bytes_transferred ≡ total (all_sizes ts) % 2 ^ 64)
        × Extreme least (update_summary num r).summary.min_latency_ns (all_logs ts)
        × Extreme greatest (update_summary num r).summary.max_latency_ns (all_logs ts)
  unfolding update_summary extract_latency_stats
  update_summary-Describes r ts e all =
      let (messages, bytes) = sum-totals ts 0 0 (omega arith) (omega arith) all in
      (
        ap (λ t. sum (map (λ m. m.throughput.total_messages) t) 0) e ∙ (messages ∙ omega arith),
        ap (λ t. sum (map (λ m. m.throughput.total_bytes) t) 0) e ∙ (bytes ∙ omega arith),
        subst
            (λ t.
              Extreme least (fold_extreme num min (λ l. l.min_ns) none (latencies num t))
                (all_logs ts))
            (sym e) (fold-Extreme least (λ l. l.min_ns) (λ l log h. h.0) ts none [] refl all),
        subst
            (λ t.
              Extreme greatest (fold_extreme num max (λ l. l.max_ns) none (latencies num t))
                (all_logs ts))
            (sym e) (fold-Extreme greatest (λ l. l.max_ns) (λ l log h. h.1) ts none [] refl all),
      )

  -- The results of the two tests can be added in either order, and again: the last metrics of each kind
  -- count, and the summary is that of both.
  pub add_results_comm :
      (r : BenchmarkResults num) (one_way one_way' round_trip : PerformanceMetrics num)
      → (add_round_trip_results num round_trip (add_one_way_results num one_way r)
          ≡ add_one_way_results num one_way (add_round_trip_results num round_trip r))
        × (add_one_way_results num one_way (add_one_way_results num one_way' r)
            ≡ add_one_way_results num one_way r)
        × (tests num (add_round_trip_results num round_trip (add_one_way_results num one_way r))
            ≡ one_way ∷ round_trip ∷ [])
  unfolding add_one_way_results add_round_trip_results update_summary extract_latency_stats
      calculate_weighted_average_latency tests
  add_results_comm r one_way one_way' round_trip = (refl, refl, refl)
