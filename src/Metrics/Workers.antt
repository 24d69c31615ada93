-- ===== src/Metrics/Workers.antt =====
-- Collectors against the lists of what they have recorded, and workers against one collector that
-- records everything.
use rusty_comms.Prelude.{
  ℕ, ◌+◌, ◌%◌, ◌^◌, ◌<◌, ◌≡◌, refl, sym, ap, ◌∙◌, subst, none, some, inl, inr, List, [], ◌∷◌, ◌++◌,
  map, min, max, length, length-append, append_assoc, append-nil, All, All-map_rel, add_usize,
  Result, Result-cases, ok, err, arith, Choice, best, least, greatest, IsBest, best-IsBest,
  IsBest-append,
}
use rusty_comms.Metrics.{Numeric, Fault, LatencyType, LatencyMetrics, LatencyCollector, updated}
use rusty_comms.Metrics.Latency.{new, record_latency, get_metrics}
use rusty_comms.Metrics.Aggregate.{sum, aggregate_latency_metrics}

abbrev pub low_64 : ℕ → ℕ
low_64 n = n % 2 ^ 64

ok-ne-err : {E A : Type 0} {a : A} {e : E} → Path (Result E A) (ok a) (err e) → ⊥
ok-ne-err h = cc

ok-injective : {E A : Type 0} {a b : A} → Path (Result E A) (ok a) (ok b) → a ≡ b
ok-injective h = cc

length-map : (f : ℕ → ℕ) (xs : List ℕ) → length (map f xs) ≡ length xs
length-map f [] = refl
length-map f (x ∷ xs) = ap ℕ.suc (length-map f xs)

module _ (num : Numeric) where
  open num use {F64}

  -- A collector that records the latencies one after the other.
  abbrev pub record_all : LatencyCollector num → List ℕ → Result Fault (LatencyCollector num)
  record_all c [] = ok c
  record_all c (x ∷ xs) = elim (record_latency num c x) [ ok c' ↦ record_all c' xs | err e ↦ err e ]

  record_latency-ok :
      (c : LatencyCollector num) (x : ℕ) {c' : LatencyCollector num}
      → record_latency num c x ≡ ok c'
      → (c'.observed_min_ns ≡ updated min c.observed_min_ns (low_64 x))
        × (c'.observed_max_ns ≡ updated max c.observed_max_ns (low_64 x))
        × (c'.sample_count ≡ add_usize c.sample_count 1)
  unfolding record_latency
  record_latency-ok c x {c'} e = ground arith

  -- What the metrics say of the latencies in the list.
  abbrev pub Measured : LatencyMetrics num → List ℕ → Type 0
  Measured m log =
      IsBest least m.min_ns log
      × IsBest greatest m.max_ns log
      × (m.total_samples ≡ length log % 2 ^ 64)

  -- A worker's metrics with the latencies that it has recorded.
  abbrev pub Worker : Type 0
  Worker = LatencyMetrics num × List ℕ

  abbrev pub all_logs : List Worker → List ℕ
  all_logs [] = []
  all_logs (w ∷ ws) = w.1 ++ all_logs ws

  IsBest-all_logs :
      (choice : Choice) (f : LatencyMetrics num → ℕ) (k : ℕ) (log : List ℕ) (ws : List Worker)
      → IsBest choice k log
      → All (λ w. IsBest choice (f w.0) w.1) ws
      → IsBest choice (best choice k (map f (map (λ w. w.0) ws))) (log ++ all_logs ws)
  IsBest-all_logs choice f k log [] h all = subst (IsBest choice k) (sym (append-nil log)) h
  IsBest-all_logs choice f k log (w ∷ ws) h (first, all) =
      subst (IsBest choice (best choice (choice.pick k (f w.0)) (map f (map (λ x. x.0) ws))))
        (append_assoc log w.1 (all_logs ws))
        (IsBest-all_logs choice f (choice.pick k (f w.0)) (log ++ w.1) ws
          (IsBest-append choice k (f w.0) log w.1 h first) all)

  record_all-step :
      (c : LatencyCollector num) (x : ℕ) (xs : List ℕ) {c' : LatencyCollector num}
      → record_all c (x ∷ xs) ≡ ok c'
      → (c1 : LatencyCollector num) × (record_latency num c x ≡ ok c1) × (record_all c1 xs ≡ ok c')
  record_all-step c x xs {c'} e = elim (Result-cases (record_latency num c x)) [
    | inr (f, bad) ↦ absurd (ok-ne-err {a = c'} {e = f} (sym e ∙ rw (bad, record_all) refl))
    | inl (c1, good) ↦ (c1, good, sym (rw (good, record_all) refl) ∙ e)
  ]

  record_all-best :
      (c : LatencyCollector num) (xs : List ℕ) (lo hi : ℕ) {c' : LatencyCollector num}
      → c.observed_min_ns ≡ some lo
      → c.observed_max_ns ≡ some hi
      → c.sample_count < 2 ^ 64
      → record_all c xs ≡ ok c'
      → (c'.observed_min_ns ≡ some (best least lo (map low_64 xs)))
        × (c'.observed_max_ns ≡ some (best greatest hi (map low_64 xs)))
        × (c'.sample_count ≡ (c.sample_count + length xs) % 2 ^ 64)
  record_all-best c [] lo hi {c'} l h small e =
      let same = ok-injective e in
      (
        ap (λ t. t.observed_min_ns) (sym same) ∙ l,
        ap (λ t. t.observed_max_ns) (sym same) ∙ h,
        ap (λ t. t.sample_count) (sym same) ∙ omega arith,
      )
  record_all-best c (x ∷ xs) lo hi {c'} l h small e =
      let (c1, good, rest) = record_all-step c x xs e in
      let (l1, h1, n1) = record_latency-ok c x good in
      let (l2, h2, n2) =
        record_all-best c1 xs (min lo (low_64 x)) (max hi (low_64 x))
          (l1 ∙ ap (λ o. updated min o (low_64 x)) l) (h1 ∙ ap (λ o. updated max o (low_64 x)) h)
          (omega (arith, n1)) rest in
      (l2, h2, omega (arith, n1, n2))

  fresh :
      (now : ℕ) (t : LatencyType) {c : LatencyCollector num}
      → new num now t ≡ ok c
      → (c.observed_min_ns ≡ none) × (c.observed_max_ns ≡ none) × (c.sample_count ≡ 0)
  unfolding new
  fresh now t {c} e = ground arith

  min-get_metrics :
      (c : LatencyCollector num) (percentiles : List F64) {k : ℕ}
      → c.observed_min_ns ≡ some k
      → (get_metrics num c percentiles).min_ns ≡ k
  unfolding get_metrics
  min-get_metrics c percentiles e = rw e refl

  max-get_metrics :
      (c : LatencyCollector num) (percentiles : List F64) {k : ℕ}
      → c.observed_max_ns ≡ some k
      → (get_metrics num c percentiles).max_ns ≡ k
  unfolding get_metrics
  max-get_metrics c percentiles e = rw e refl

  -- What a new collector reports once it has recorded one or more latencies: their exact least and
  -- greatest values, in 64 bits, whatever the histogram's precision, and their number.
  pub get_metrics-Measured :
      (now : ℕ) (t : LatencyType) (percentiles : List F64) (x : ℕ) (xs : List ℕ)
      {c c' : LatencyCollector num}
      → new num now t ≡ ok c
      → record_all c (x ∷ xs) ≡ ok c'
      → Measured (get_metrics num c' percentiles) (map low_64 (x ∷ xs))
  unfolding get_metrics
  get_metrics-Measured now t percentiles x xs {c} {c'} start e =
      let (c1, good, rest) = record_all-step c x xs e in
      let (none_lo, none_hi, zero_n) = fresh now t start in
      let (l1, h1, n1) = record_latency-ok c x good in
      let (l2, h2, n2) =
        record_all-best c1 xs (low_64 x) (low_64 x)
          (l1 ∙ ap (λ o. updated min o (low_64 x)) none_lo)
          (h1 ∙ ap (λ o. updated max o (low_64 x)) none_hi) (omega (arith, n1)) rest in
      (
        subst (λ k. IsBest least k (map low_64 (x ∷ xs))) (sym (min-get_metrics c' percentiles l2))
            (best-IsBest least (low_64 x) (map low_64 xs)),
        subst (λ k. IsBest greatest k (map low_64 (x ∷ xs)))
            (sym (max-get_metrics c' percentiles h2))
            (best-IsBest greatest (low_64 x) (map low_64 xs)),
        omega (arith, n1, n2, zero_n, length-map low_64 xs),
      )

  sum-length :
      (ws : List Worker) (acc : ℕ)
      → acc < 2 ^ 64
      → All (λ w. Measured w.0 w.1) ws
      → sum (map (λ m. m.total_samples) (map (λ w. w.0) ws)) acc
        ≡ (acc + length (all_logs ws)) % 2 ^ 64
  sum-length [] acc small all = omega arith
  sum-length (w ∷ ws) acc small (first, all) =
      sum-length ws (add_usize acc w.0.total_samples) (omega arith) all
      ∙ omega (arith, first.2, length-append w.1 (all_logs ws))

  -- The aggregate of one or more workers' metrics, each of which describes the latencies that its
  -- worker recorded, describes all these latencies together: their least and greatest values and
  -- their number, as if one collector had recorded them all.
  pub aggregate-Measured :
      (w : Worker) (ws : List Worker) (percentiles : List F64)
      → All (λ v. Measured v.0 v.1) (w ∷ ws)
      → (a : LatencyMetrics num) × (aggregate_latency_metrics num
            (map (λ v. v.0) (w ∷ ws))
            percentiles
          ≡ ok a)
        × Measured a (all_logs (w ∷ ws))
  unfolding aggregate_latency_metrics
  aggregate-Measured w ws percentiles (first, all) = (
    _,
    refl,
    (
      IsBest-all_logs least (λ m. m.min_ns) w.0.min_ns w.1 ws first.0
          (All-map_rel ws (λ v p. p.0) all),
      IsBest-all_logs greatest (λ m. m.max_ns) w.0.max_ns w.1 ws first.1
          (All-map_rel ws (λ v p. p.1) all),
      sum-length (w ∷ ws) 0 (omega arith) (first, all) ∙ omega arith,
    ),
  )
