-- ===== src/Report/Choice.antt =====
-- The two rankings of the overall summary.
use rusty_comms.Prelude.{
  ℕ, ◌≡◌, refl, sym, subst, true, none, some, Option, List, [], ◌∷◌, All, All-map_rel, map, ◌⊎◌,
  arith,
}
use rusty_comms.Metrics.{Numeric}
use rusty_comms.Results.Record.{name}
use rusty_comms.Report.{BenchmarkResults}
use rusty_comms.Report.Ranking.{
  greater, at_most, Order, IsLastMax, IsFirstMin, max_by-IsLastMax, min_by-IsFirstMin,
}
use rusty_comms.Report.Overall.{
  option_cmp, OverallSummary, throughput, latency, find_fastest_mechanism, with_latency, lowest,
  find_lowest_latency_mechanism, calculate_overall_summary, collect_mechanisms,
}
use rusty_comms.Metrics.Aggregate.{sum}

module _ {B : Type 0} (order : Order B) where
  open order use {partial_cmp, Number, total, flip, at_most_trans, at_most_greater}

  abbrev pub IsNumber : Option B → Type 0
  IsNumber none = ⊥
  IsNumber (some b) = Number b

  pub option_total :
      (a b : Option B)
      → IsNumber a
      → IsNumber b
      → (at_most (option_cmp partial_cmp a b) ≡ true) ⊎ (option_cmp partial_cmp a b ≡ some greater)
  unfolding option_cmp
  option_total none b p q = absurd p
  option_total (some a) none p q = absurd q
  option_total (some a) (some b) p q = total a b p q

  pub option_flip :
      (a b : Option B)
      → option_cmp partial_cmp a b ≡ some greater
      → at_most (option_cmp partial_cmp b a) ≡ true
  unfolding option_cmp
  option_flip none none h = refl
  option_flip none (some b) h = absurd (ground arith)
  option_flip (some a) none h = refl
  option_flip (some a) (some b) h = flip a b h

  pub option_trans :
      (a b c : Option B)
      → at_most (option_cmp partial_cmp a b) ≡ true
      → at_most (option_cmp partial_cmp b c) ≡ true
      → at_most (option_cmp partial_cmp a c) ≡ true
  unfolding option_cmp
  option_trans none b none p q = refl
  option_trans none b (some c) p q = refl
  option_trans (some a) none c p q = absurd (ground arith)
  option_trans (some a) (some b) none p q = absurd (ground arith)
  option_trans (some a) (some b) (some c) p q = at_most_trans a b c p q

  pub option_greater :
      (a b c : Option B)
      → at_most (option_cmp partial_cmp a b) ≡ true
      → option_cmp partial_cmp a c ≡ some greater
      → option_cmp partial_cmp b c ≡ some greater
  unfolding option_cmp
  option_greater none b none p q = absurd (ground arith)
  option_greater none b (some c) p q = absurd (ground arith)
  option_greater (some a) none c p q = absurd (ground arith)
  option_greater (some a) (some b) none p q = refl
  option_greater (some a) (some b) (some c) p q = at_most_greater a b c p q

  abbrev pub option_order : Order (Option B)
  option_order = record {
    partial_cmp = option_cmp partial_cmp;
    Number = IsNumber;
    total = option_total;
    flip = option_flip;
    at_most_trans = option_trans;
    at_most_greater = option_greater;
  }

module _ (num : Numeric) (order : Order num.F64) where
  open order use {partial_cmp, Number}

  abbrev pub Averaged : Option num.F64 → Type 0
  Averaged none = Unit
  Averaged (some l) = Number l

  -- The averages of a result that are there are numbers.
  abbrev pub HasNumbers : BenchmarkResults num → Type 0
  HasNumbers r = Number (throughput num partial_cmp r) × Averaged (latency num partial_cmp r)

  -- The result with the lowest latency: the first of those that have one.
  abbrev pub Lowest : Option (List ℕ) → List (BenchmarkResults num) → Type 0
  Lowest none measured = measured ≡ []
  Lowest (some n) measured =
      (b : BenchmarkResults num) × (n ≡ name b.mechanism)
      × IsFirstMin (option_order order) (latency num partial_cmp) b measured

  abbrev Measured : BenchmarkResults num → Type 0
  Measured r = IsNumber order (latency num partial_cmp r)

  pick :
      (r : BenchmarkResults num) (rest : List (BenchmarkResults num)) (o : Option num.F64)
      → latency num partial_cmp r ≡ o
      → Averaged o
      → All Measured rest
      → All Measured
          (elim o as (λ z. List (BenchmarkResults num)) [ none ↦ rest | some _ ↦ r ∷ rest ])
  pick r rest none e l h = h
  pick r rest (some x) e l h = (subst (IsNumber order) (sym e) l, h)

  with_latency-Measured :
      (rs : List (BenchmarkResults num))
      → All HasNumbers rs
      → All Measured (with_latency num partial_cmp rs)
  unfolding with_latency
  with_latency-Measured [] h = tt
  with_latency-Measured (r ∷ rs) ((_, l), h) =
      pick r (with_latency num partial_cmp rs) (latency num partial_cmp r) refl l
        (with_latency-Measured rs h)

  lowest-Lowest :
      (measured : List (BenchmarkResults num))
      → All Measured measured
      → (o : Option (List ℕ)) × (lowest num partial_cmp measured ≡ some o) × Lowest o measured
  lowest-Lowest [] h = (none, refl, refl)
  lowest-Lowest (r ∷ rs) h =
      let (b, e, first) = min_by-IsFirstMin (option_order order) (latency num partial_cmp) r rs h in
      (some (name b.mechanism), rw e refl, (b, refl, first))

  summary_lem :
      (rs : List (BenchmarkResults num)) {fastest low : Option (List ℕ)}
      → find_fastest_mechanism num partial_cmp rs ≡ some fastest
      → find_lowest_latency_mechanism num partial_cmp rs ≡ some low
      → calculate_overall_summary num partial_cmp rs
        ≡ some (record {
          total_messages = sum (map (λ r. r.summary.total_messages_sent) rs) 0;
          total_bytes = sum (map (λ r. r.summary.total_bytes_transferred) rs) 0;
          total_errors = sum (map (λ r. r.summary.error_count) rs) 0;
          mechanisms = collect_mechanisms num partial_cmp [] rs;
          fastest_mechanism = fastest;
          lowest_latency_mechanism = low;
        })
  unfolding calculate_overall_summary
  summary_lem rs e e' = rw (e, e', calculate_overall_summary) refl

  -- The overall summary of one or more results whose averages are numbers is computed without a panic.
  -- The fastest mechanism is that of the last result with the greatest average throughput, and the one
  -- of the lowest latency that of the first result with the least average latency, or none when no
  -- result has one.
  pub calculate_overall_summary-Ranks :
      (r : BenchmarkResults num) (rs : List (BenchmarkResults num))
      → All HasNumbers (r ∷ rs)
      → (s : OverallSummary num partial_cmp) × (b : BenchmarkResults num)
        × (calculate_overall_summary num partial_cmp (r ∷ rs) ≡ some s)
        × (s.fastest_mechanism ≡ some (name b.mechanism))
        × IsLastMax order (throughput num partial_cmp) b (r ∷ rs)
        × Lowest s.lowest_latency_mechanism (with_latency num partial_cmp (r ∷ rs))
  unfolding find_fastest_mechanism find_lowest_latency_mechanism
  calculate_overall_summary-Ranks r rs h =
      let (b, e, last) =
        max_by-IsLastMax order (throughput num partial_cmp) r rs
          (All-map_rel (r ∷ rs) (λ x n. n.0) h) in
      let (o, e', low) =
        lowest-Lowest (with_latency num partial_cmp (r ∷ rs)) (with_latency-Measured (r ∷ rs) h) in
      (_, b, summary_lem (r ∷ rs) (rw e refl) e', refl, last, low)
