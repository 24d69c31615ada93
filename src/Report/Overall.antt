-- ===== src/Report/Overall.antt =====
-- `calculate_overall_summary` of src/results.rs and src/results_blocking.rs, which do the same, with the
-- two rankings. The map of mechanisms is an association list with the names as its keys.
use rusty_comms.Prelude.{ℕ, Option, none, some, List, [], ◌∷◌, map, if◌then◌else◌}
use rusty_comms.Metrics.{Numeric}
use rusty_comms.Metrics.Aggregate.{sum}
use rusty_comms.Results.Record.{IpcMechanism, name}
use rusty_comms.Text.{same_text}
use rusty_comms.Report.{BenchmarkResults}
use rusty_comms.Report.Ranking.{Ordering, less, equal, greater, max_by, min_by}

-- `Option::partial_cmp`: a missing value is below every other.
unfoldable pub option_cmp :
    {B : Type 0} → (B → B → Option Ordering) → Option B → Option B → Option Ordering
option_cmp cmp none none = some equal
option_cmp cmp none (some _) = some less
option_cmp cmp (some _) none = some greater
option_cmp cmp (some a) (some b) = cmp a b

module _ (num : Numeric) (partial_cmp : num.F64 → num.F64 → Option Ordering) where
  open num use {F64}

  pub record MechanismSummary : Type 0 where
    pub mechanism : IpcMechanism
    pub average_throughput_megabytes_per_sec : F64
    pub p95_latency_ns : Option ℕ
    pub p99_latency_ns : Option ℕ
    pub total_messages : ℕ

  abbrev pub Mechanisms : Type 0
  Mechanisms = List (List ℕ × MechanismSummary)

  pub record OverallSummary : Type 0 where
    pub total_messages : ℕ
    pub total_bytes : ℕ
    pub total_errors : ℕ
    pub mechanisms : Mechanisms
    pub fastest_mechanism : Option (List ℕ)
    pub lowest_latency_mechanism : Option (List ℕ)

  -- `HashMap::insert` and `get`
  unfoldable pub insert : List ℕ → MechanismSummary → Mechanisms → Mechanisms
  insert key value [] = (key, value) ∷ []
  insert key value ((k, v) ∷ rest) =
      let inserted = insert key value rest in
      if same_text k key then (k, value) ∷ rest else (k, v) ∷ inserted

  unfoldable pub lookup : List ℕ → Mechanisms → Option MechanismSummary
  lookup key [] = none
  lookup key ((k, v) ∷ rest) =
      let found = lookup key rest in if same_text k key then some v else found

  unfoldable pub mechanism_summary : BenchmarkResults num → MechanismSummary
  mechanism_summary r = record {
    mechanism = r.mechanism;
    average_throughput_megabytes_per_sec = r.summary.average_throughput_megabytes_per_sec;
    p95_latency_ns = r.summary.p95_latency_ns;
    p99_latency_ns = r.summary.p99_latency_ns;
    total_messages = r.summary.total_messages_sent;
  }

  unfoldable pub collect_mechanisms : Mechanisms → List (BenchmarkResults num) → Mechanisms
  collect_mechanisms ms [] = ms
  collect_mechanisms ms (r ∷ rs) =
      collect_mechanisms (insert (name r.mechanism) (mechanism_summary r) ms) rs

  abbrev pub name_of : Option (BenchmarkResults num) → Option (Option (List ℕ))
  name_of none = none
  name_of (some r) = some (some (name r.mechanism))

  abbrev pub throughput : BenchmarkResults num → F64
  throughput r = r.summary.average_throughput_megabytes_per_sec

  abbrev pub latency : BenchmarkResults num → Option F64
  latency r = r.summary.average_latency_ns

  -- The outer `none` is the panic of `unwrap` on values that cannot be compared.
  unfoldable pub find_fastest_mechanism : List (BenchmarkResults num) → Option (Option (List ℕ))
  find_fastest_mechanism [] = some none
  find_fastest_mechanism (r ∷ rs) = name_of (max_by partial_cmp throughput r rs)

  -- `filter(|r| r.summary.average_latency_ns.is_some())`
  unfoldable pub with_latency : List (BenchmarkResults num) → List (BenchmarkResults num)
  with_latency [] = []
  with_latency (r ∷ rs) = elim (latency r) [ none ↦ with_latency rs | some _ ↦ r ∷ with_latency rs ]

  abbrev pub lowest : List (BenchmarkResults num) → Option (Option (List ℕ))
  lowest [] = some none
  lowest (r ∷ rs) = name_of (min_by (option_cmp partial_cmp) latency r rs)

  unfoldable pub find_lowest_latency_mechanism :
      List (BenchmarkResults num) → Option (Option (List ℕ))
  find_lowest_latency_mechanism rs = lowest (with_latency rs)

  unfoldable pub calculate_overall_summary : List (BenchmarkResults num) → Option OverallSummary
  calculate_overall_summary rs = elim (find_fastest_mechanism rs) [
    | none ↦ none
    | some fastest ↦ elim (find_lowest_latency_mechanism rs) [
      | none ↦ none
      | some lowest_latency ↦ some (record {
        total_messages = sum (map (λ r. r.summary.total_messages_sent) rs) 0;
        total_bytes = sum (map (λ r. r.summary.total_bytes_transferred) rs) 0;
        total_errors = sum (map (λ r. r.summary.error_count) rs) 0;
        mechanisms = collect_mechanisms [] rs;
        fastest_mechanism = fastest;
        lowest_latency_mechanism = lowest_latency;
      })
    ]
  ]
