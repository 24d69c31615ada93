-- ===== src/Results/Pairing.antt =====
-- How the two halves of a message's record are joined.
use rusty_comms.Prelude.{
  ℕ, suc, ◌+◌, ◌/◌, ◌≤◌, ◌≡◌, refl, ap, ◌∙◌, true, false, Bool-cases, inl, inr, Option, none, some,
  List, [], ◌∷◌, ◌++◌, map, min, ◌==◌, ltb, if◌then◌else◌, arith, All,
}
use rusty_comms.Metrics.{one_way, round_trip}
use rusty_comms.Results.Record.{
  IpcMechanism, MessageLatencyRecord, new, new_combined, merge, is_combined,
}
use rusty_comms.Results.{
  Json, BlockingResultsManager, Records, get, remove, insert, insert_by_key, sort_by_key, second,
  write_streaming_record_direct, finalize,
}
use rusty_comms.Results.Log.{Call, direct, pair, log_from, log, json_document, csv_document}
use rusty_comms.Results.Streaming.{enabled, perform_all, finalize-documents}

earlier_left : (s t : ℕ) → (if ltb t s then t else s) ≡ min s t
earlier_left s t = ground arith

earlier_right : (s t : ℕ) → (if ltb s t then s else t) ≡ min s t
earlier_right s t = ground arith

-- The one-way and the round-trip record of a message merge, in either order, to its combined record,
-- with the earlier of their timestamps.
pub merge-new :
    (message_id : ℕ) (mechanism : IpcMechanism) (message_size l k s t : ℕ)
    → let a = new message_id mechanism message_size one_way l s in
      let b = new message_id mechanism message_size round_trip k t in
      let c = new_combined message_id mechanism message_size l k (min s t) in
      (merge a b ≡ c)
      × (merge b a ≡ c)
      × (is_combined c ≡ true)
      × (is_combined a ≡ false)
      × (is_combined b ≡ false)
unfolding merge new new_combined is_combined
merge-new message_id mechanism message_size l k s t =
    (rw (earlier_left s t) refl, rw (earlier_right s t) refl, refl, refl, refl)

-- How many records a list has for the message `id`.
abbrev pub count : ℕ → List MessageLatencyRecord → ℕ
count id [] = 0
count id (r ∷ rs) = let n = count id rs in if r.message_id == id then suc n else n

abbrev waiting : ℕ → Records → ℕ
waiting id pending = count id (map second pending)

-- Every record waits under its own id, and under no id waits more than one.
abbrev IsKept : ℕ × MessageLatencyRecord → Type 0
IsKept (k, r) = k ≡ r.message_id

count-append :
    (id : ℕ) (rs qs : List MessageLatencyRecord) → count id (rs ++ qs) ≡ count id rs + count id qs
count-append id [] qs = omega arith
count-append id (r ∷ rs) qs = ground (arith, count-append id rs qs)

waiting-insert_by_key :
    (id k : ℕ) (r : MessageLatencyRecord) (p : Records)
    → waiting id (insert_by_key k r p) ≡ waiting id ((k, r) ∷ p)
waiting-insert_by_key id k r [] = refl
waiting-insert_by_key id k r ((j, q) ∷ p) = ground (arith, waiting-insert_by_key id k r p)

waiting-sort_by_key : (id : ℕ) (p : Records) → waiting id (sort_by_key p) ≡ waiting id p
waiting-sort_by_key id [] = refl
waiting-sort_by_key id ((k, r) ∷ p) =
    waiting-insert_by_key id k r (sort_by_key p)
    ∙ ap (λ n. if r.message_id == id then suc n else n) (waiting-sort_by_key id p)

waiting-remove :
    (id k : ℕ) (p : Records)
    → All IsKept p
    → waiting id (remove k p) ≡ (if k == id then 0 else waiting id p)
waiting-remove id k [] h = ground arith
waiting-remove id k ((j, r) ∷ p) (e, h) = ground (arith, waiting-remove id k p h)

IsKept-remove : (k : ℕ) (p : Records) → All IsKept p → All IsKept (remove k p)
IsKept-remove k [] h = h
IsKept-remove k ((j, r) ∷ p) (e, h) = elim (Bool-cases (j == k)) [
  | inl same ↦ rw (same) (IsKept-remove k p h)
  | inr other ↦ rw (other) (e, IsKept-remove k p h)
]

waiting-found :
    (k : ℕ) (p : Records) (r : MessageLatencyRecord)
    → All IsKept p
    → get k p ≡ some r
    → (r.message_id ≡ k) × (1 ≤ waiting k p)
waiting-found k [] r h e = ground arith
waiting-found k ((j, q) ∷ p) r (i, h) e = ground (arith, waiting-found k p r h)

waiting-not_found : (k : ℕ) (p : Records) → All IsKept p → get k p ≡ none → waiting k p ≡ 0
waiting-not_found k [] h e = refl
waiting-not_found k ((j, q) ∷ p) (e, h) f = ground (arith, waiting-not_found k p h)

abbrev IsSingle : Records → Type 0
IsSingle p = (id : ℕ) → waiting id p ≤ 1

IsSingle-remove : (k : ℕ) (p : Records) → All IsKept p → IsSingle p → IsSingle (remove k p)
IsSingle-remove k p h single id = ground (arith, waiting-remove id k p h, single id)

waiting-insert :
    (id : ℕ) (r : MessageLatencyRecord) (p : Records)
    → All IsKept p
    → get r.message_id p ≡ none
    → waiting id (insert r.message_id r p) ≡ waiting id p + count id (r ∷ [])
waiting-insert id r p h e =
    ground (arith, waiting-remove id r.message_id p h, waiting-not_found r.message_id p h e)

abbrev pub IsPartial : MessageLatencyRecord → Type 0
IsPartial r = is_combined r ≡ false

abbrev pub all_direct : List MessageLatencyRecord → List Call
all_direct [] = []
all_direct (r ∷ rs) = direct r ∷ all_direct rs

-- The records that a message gets for the `n` partial records of it.
abbrev pub half_up : ℕ → ℕ
half_up n = (n + 1) / 2

count-merge :
    (id : ℕ) (q r : MessageLatencyRecord) (rs : List MessageLatencyRecord)
    → count id (merge q r ∷ rs) ≡ count id (q ∷ rs)
unfolding merge
count-merge id q r rs = refl

-- What holds of the log of the later calls `cs`, whatever they find pending.
abbrev Halved : ℕ → List Call → ℕ → Type 0
Halved id cs n =
    (p : Records)
    → All IsKept p
    → IsSingle p
    → count id (log_from true p cs) ≡ half_up (waiting id p + n)

IsSingle-insert :
    (r : MessageLatencyRecord) (p : Records)
    → All IsKept p
    → IsSingle p
    → get r.message_id p ≡ none
    → IsSingle (insert r.message_id r p)
IsSingle-insert r p h single e id =
    ground (arith, waiting-insert id r p h e, waiting-not_found r.message_id p h e, single id)

count-paired :
    (found : Option MessageLatencyRecord) (id : ℕ) (r : MessageLatencyRecord) (p : Records)
    (cs : List Call) (n : ℕ)
    → get r.message_id p ≡ found
    → All IsKept p
    → IsSingle p
    → Halved id cs n
    → let (written, p') = pair found r p in
      count id (written ++ log_from true p' cs) ≡ half_up (waiting id p + (count id (r ∷ []) + n))
count-paired none id r p cs n e h single ih =
    ih (insert r.message_id r p) (refl, IsKept-remove r.message_id p h)
      (IsSingle-insert r p h single e)
    ∙ ap half_up (omega (arith, waiting-insert id r p h e))
count-paired (some q) id r p cs n e h single ih =
    let (i, one) = waiting-found r.message_id p q h e in
    let rest =
      ih (remove r.message_id p) (IsKept-remove r.message_id p h)
        (IsSingle-remove r.message_id p h single) in
    count-merge id q r (log_from true (remove r.message_id p) cs)
    ∙ ground (arith, rest, waiting-remove id r.message_id p h, single id)

count-log_from :
    (id : ℕ) (rs : List MessageLatencyRecord)
    → All IsPartial rs
    → Halved id (all_direct rs) (count id rs)
count-log_from id [] partial p h single = ground (arith, waiting-sort_by_key id p, single id)
count-log_from id (r ∷ rs) (e, partial) p h single = rw (e) (
    count-paired (get r.message_id p) id r p (all_direct rs) (count id rs) refl h single
      (count-log_from id rs partial)
    ∙ ground arith)

-- A message with n partial records has n / 2 records in the log, rounded up.
count-log :
    (id : ℕ) (rs : List MessageLatencyRecord)
    → All IsPartial rs
    → count id (log true (all_direct rs)) ≡ half_up (count id rs)
count-log id rs partial =
    count-log_from id rs partial [] tt (λ j. omega arith) ∙ ap half_up (omega arith)

module _ {R : Type 0} (json : Json R) where
  -- The partial records `rs` are streamed directly, one call for each.
  abbrev pub write_each :
      List MessageLatencyRecord → BlockingResultsManager R → BlockingResultsManager R
  write_each [] m = m
  write_each (r ∷ rs) m = write_each rs (write_streaming_record_direct json r m)

  write_each-eq :
      (rs : List MessageLatencyRecord) (m : BlockingResultsManager R)
      → write_each rs m ≡ perform_all json (all_direct rs) m
  write_each-eq [] m = refl
  write_each-eq (r ∷ rs) m = write_each-eq rs (write_streaming_record_direct json r m)

  -- When both tests are enabled and partial records are written by the direct call, in any order of
  -- the messages, then after finalize both files are the complete documents of the same records, and
  -- a message with n partial records has n / 2 records in them, rounded up: each two are written as
  -- one, and a single one when the stream ends.
  pub finalize_halves :
      (rs : List MessageLatencyRecord)
      → All IsPartial rs
      → let m = finalize json (write_each rs (enabled json true)) in
        (ws : List MessageLatencyRecord) × (m.streaming_file ≡ some (json_document json ws))
        × (m.streaming_csv_file ≡ some (csv_document ws))
        × ((id : ℕ) → count id ws ≡ half_up (count id rs))
  finalize_halves rs partial =
      let (files, lines) = finalize-documents json true (all_direct rs) in
      rw (write_each-eq rs (enabled json true))
        (log true (all_direct rs), files, lines, λ id. count-log id rs partial)
