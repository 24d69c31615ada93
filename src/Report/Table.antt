-- ===== src/Report/Table.antt =====
-- The map of mechanisms in the overall summary: one entry for a mechanism, of its last result.
use rusty_comms.Prelude.{
  ℕ, ◌≡◌, ◌≢◌, refl, sym, ap, ◌∙◌, false, Option, none, some, List, [], ◌∷◌, ◌++◌, All, ◌==◌, inl,
  inr, Bool-cases, arith, if◌then◌else◌,
}
use rusty_comms.Metrics.{Numeric}
use rusty_comms.Results.Record.{
  IpcMechanism, unix_domain_socket, shared_memory, tcp_socket, posix_message_queue, all, name,
}
use rusty_comms.Text.{same_text}
use rusty_comms.Text.Same.{same_text_refl, same_text-eq, same_text-false}
use rusty_comms.Report.{BenchmarkResults}
use rusty_comms.Report.Ranking.{Ordering}
use rusty_comms.Report.Overall.{
  MechanismSummary, Mechanisms, insert, lookup, mechanism_summary, collect_mechanisms,
}

-- The first letter of a name tells the mechanism.
abbrev code : IpcMechanism → ℕ
code unix_domain_socket = 0
code shared_memory = 1
code tcp_socket = 2
code posix_message_queue = 3
code all = 4

abbrev first_code : List ℕ → ℕ
first_code [] = 5
first_code (c ∷ _) =
    if c == 85 then 0 else if c == 83 then 1 else if c == 84 then 2 else if c == 80 then 3 else 4

code-name : (m : IpcMechanism) → first_code (name m) ≡ code m
unfolding name
code-name unix_domain_socket = refl
code-name shared_memory = refl
code-name tcp_socket = refl
code-name posix_message_queue = refl
code-name all = refl

of_code : (m m' : IpcMechanism) → code m ≡ code m' → m ≡ m'
of_code m m' e = ground arith

name-injective : (m m' : IpcMechanism) → name m ≡ name m' → m ≡ m'
name-injective m m' e = of_code m m' (sym (code-name m) ∙ ap first_code e ∙ code-name m')

module _ (num : Numeric) (partial_cmp : num.F64 → num.F64 → Option Ordering) where
  lookup-insert :
      (key : List ℕ) (v : MechanismSummary num partial_cmp) (ms : Mechanisms num partial_cmp)
      → lookup num partial_cmp key (insert num partial_cmp key v ms) ≡ some v
  unfolding lookup insert
  lookup-insert key v [] = rw (same_text_refl key) refl
  lookup-insert key v ((k, w) ∷ rest) = elim (Bool-cases (same_text k key)) [
    | inl e ↦ rw (e, lookup, insert, e) refl
    | inr e ↦ rw (e, lookup, insert, e) (lookup-insert key v rest)
  ]

  lookup-insert_other :
      (key key' : List ℕ) (v : MechanismSummary num partial_cmp) (ms : Mechanisms num partial_cmp)
      → same_text key key' ≡ false
      → lookup num partial_cmp key' (insert num partial_cmp key v ms)
        ≡ lookup num partial_cmp key' ms
  unfolding lookup insert
  lookup-insert_other key key' v [] ne = rw (ne, lookup, insert) refl
  lookup-insert_other key key' v ((k, w) ∷ rest) ne = elim (Bool-cases (same_text k key)) [
    | inl e ↦
        let other = ap (λ j. same_text j key') (same_text-eq k key e) ∙ ne in
        rw (e, lookup, insert, other) refl
    | inr e ↦
        rw (e, lookup, insert)
          (ap (λ found. if same_text k key' then some w else found)
            (lookup-insert_other key key' v rest ne))
  ]

  -- Results of other mechanisms leave a mechanism's entry.
  collect-other :
      (m : IpcMechanism) (rs : List (BenchmarkResults num)) (ms : Mechanisms num partial_cmp)
      → All (λ r. r.mechanism ≢ m) rs
      → lookup num partial_cmp (name m) (collect_mechanisms num partial_cmp ms rs)
        ≡ lookup num partial_cmp (name m) ms
  unfolding collect_mechanisms
  collect-other m [] ms h = refl
  collect-other m (r ∷ rs) ms (ne, h) =
      collect-other m rs
        (insert num partial_cmp (name r.mechanism) (mechanism_summary num partial_cmp r) ms) h
      ∙ lookup-insert_other (name r.mechanism) (name m) (mechanism_summary num partial_cmp r) ms
          (same_text-false (name r.mechanism) (name m) (λ e. ne (name-injective r.mechanism m e)))

  collect-append :
      (rs rs' : List (BenchmarkResults num)) (ms : Mechanisms num partial_cmp)
      → collect_mechanisms num partial_cmp ms (rs ++ rs')
        ≡ collect_mechanisms num partial_cmp (collect_mechanisms num partial_cmp ms rs) rs'
  unfolding collect_mechanisms
  collect-append [] rs' ms = refl
  collect-append (r ∷ rs) rs' ms =
      collect-append rs rs'
        (insert num partial_cmp (name r.mechanism) (mechanism_summary num partial_cmp r) ms)

  -- The table has the figures of a mechanism's last result only, whatever earlier results the same
  -- mechanism has, and no entry for a mechanism without a result.
  pub collect-last :
      (before after : List (BenchmarkResults num)) (r : BenchmarkResults num) (m : IpcMechanism)
      → All (λ x. x.mechanism ≢ r.mechanism) after
      → (lookup num partial_cmp
            (name r.mechanism)
            (collect_mechanisms num partial_cmp [] (before ++ (r ∷ after)))
          ≡ some (mechanism_summary num partial_cmp r))
        × (All (λ x. x.mechanism ≢ m) (before ++ (r ∷ after))
            → lookup num partial_cmp
                (name m)
                (collect_mechanisms num partial_cmp [] (before ++ (r ∷ after)))
              ≡ none)
  unfolding collect_mechanisms lookup
  collect-last before after r m others = (
    ap (lookup num partial_cmp (name r.mechanism)) (collect-append before (r ∷ after) [])
        ∙ collect-other r.mechanism after
            (insert num partial_cmp (name r.mechanism) (mechanism_summary num partial_cmp r)
              (collect_mechanisms num partial_cmp [] before))
            others
        ∙ lookup-insert (name r.mechanism) (mechanism_summary num partial_cmp r)
            (collect_mechanisms num partial_cmp [] before),
    λ absent. collect-other m (before ++ (r ∷ after)) [] absent,
  )
