-- ===== src/Metrics/Totals.antt =====
-- Throughput counters against the sizes of the messages that were counted, and workers against one
-- calculator that counts everything.
use rusty_comms.Prelude.{
  ℕ, ◌+◌, ◌%◌, ◌^◌, ◌<◌, ◌≡◌, ◌∙◌, List, [], ◌∷◌, ◌++◌, map, length, length-append, All, add_usize,
  arith, greatest, IsBest, best-IsBest,
}
use rusty_comms.Metrics.{Numeric, ThroughputMetrics, ThroughputCalculator}
use rusty_comms.Metrics.Throughput.{new, record_message, get_metrics}
use rusty_comms.Metrics.Aggregate.{sum, aggregate_throughput_metrics}

abbrev pub total : List ℕ → ℕ
total [] = 0
total (x ∷ xs) = x + total xs

pub total-append : (xs ys : List ℕ) → total (xs ++ ys) ≡ total xs + total ys
total-append [] ys = omega arith
total-append (x ∷ xs) ys = omega (arith, total-append xs ys)

module _ (num : Numeric) where
  abbrev pub count_all : ThroughputCalculator num → List ℕ → ThroughputCalculator num
  count_all c [] = c
  count_all c (n ∷ ns) = count_all (record_message num c n) ns

  -- The totals are those of the messages with these sizes, in 64 bits.
  abbrev pub Counted : ThroughputMetrics num → List ℕ → Type 0
  Counted m sizes =
      (m.total_messages ≡ length sizes % 2 ^ 64) × (m.total_bytes ≡ total sizes % 2 ^ 64)

  count_all-totals :
      (c : ThroughputCalculator num) (ns : List ℕ)
      → c.message_count < 2 ^ 64
      → c.byte_count < 2 ^ 64
      → ((count_all c ns).message_count ≡ (c.message_count + length ns) % 2 ^ 64)
        × ((count_all c ns).byte_count ≡ (c.byte_count + total ns) % 2 ^ 64)
  unfolding record_message
  count_all-totals c [] messages bytes = (omega arith, omega arith)
  count_all-totals c (n ∷ ns) messages bytes =
      let (p, q) = count_all-totals (record_message num c n) ns (omega arith) (omega arith) in
      (p ∙ omega arith, q ∙ omega arith)

  -- A new calculator that has counted some messages reports their number and the sum of their sizes,
  -- and the time since it was made.
  pub get_metrics-Counted :
      (start now : ℕ) (sizes : List ℕ)
      → Counted (get_metrics num now (count_all (new num start) sizes)) sizes
  unfolding get_metrics new
  get_metrics-Counted start now sizes =
      let (p, q) = count_all-totals (new num start) sizes (omega arith) (omega arith) in
      (p ∙ omega arith, q ∙ omega arith)

  abbrev pub Worker : Type 0
  Worker = ThroughputMetrics num × List ℕ

  abbrev pub all_sizes : List Worker → List ℕ
  all_sizes [] = []
  all_sizes (w ∷ ws) = w.1 ++ all_sizes ws

  sum-totals :
      (ws : List Worker) (messages bytes : ℕ)
      → messages < 2 ^ 64
      → bytes < 2 ^ 64
      → All (λ w. Counted w.0 w.1) ws
      → (sum (map (λ m. m.total_messages) (map (λ w. w.0) ws)) messages
          ≡ (messages + length (all_sizes ws)) % 2 ^ 64)
        × (sum (map (λ m. m.total_bytes) (map (λ w. w.0) ws)) bytes
            ≡ (bytes + total (all_sizes ws)) % 2 ^ 64)
  sum-totals [] messages bytes h k all = (omega arith, omega arith)
  sum-totals (w ∷ ws) messages bytes h k (first, all) =
      let (p, q) =
        sum-totals ws (add_usize messages w.0.total_messages) (add_usize bytes w.0.total_bytes)
          (omega arith) (omega arith) all in
      (
        p ∙ omega (arith, first.0, length-append w.1 (all_sizes ws)),
        q ∙ omega (arith, first.1, total-append w.1 (all_sizes ws)),
      )

  -- The aggregate of one or more workers' throughput has the totals of all their messages together,
  -- as if one calculator had counted them all, and the longest of their durations.
  pub aggregate-Counted :
      (w : Worker) (ws : List Worker)
      → All (λ v. Counted v.0 v.1) (w ∷ ws)
      → Counted (aggregate_throughput_metrics num (map (λ v. v.0) (w ∷ ws))) (all_sizes (w ∷ ws))
        × IsBest greatest
            (aggregate_throughput_metrics num (map (λ v. v.0) (w ∷ ws))).duration_ns
            (map (λ m. m.duration_ns) (map (λ v. v.0) (w ∷ ws)))
  unfolding aggregate_throughput_metrics
  aggregate-Counted w ws all =
      let (p, q) = sum-totals (w ∷ ws) 0 0 (omega arith) (omega arith) all in
      (
        (p ∙ omega arith, q ∙ omega arith),
        best-IsBest greatest w.0.duration_ns (map (λ m. m.duration_ns) (map (λ v. v.0) ws)),
      )
