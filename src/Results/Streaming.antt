-- ===== src/Results/Streaming.antt =====
-- The files that a manager streams to hold its log.
use rusty_comms.Prelude.{
  ◌≡◌, refl, sym, ap, ◌∙◌, Bool, true, false, Bool-cases, inl, inr, Option, none, some, List, [],
  ◌∷◌, ◌++◌, map, append-nil, append_assoc, if◌then◌else◌,
}
use rusty_comms.Text.{codes, is_nil}
use rusty_comms.Results.Record.{MessageLatencyRecord, merge, is_combined, to_csv_record}
use rusty_comms.Results.{
  Json, BlockingResultsManager, Records, get, remove, insert, sort_by_key, second, csv_header,
  json_header, new, enable_combined_streaming, enable_csv_streaming, write_streaming_record,
  write_streaming_record_direct, stream_latency_record, write_all, flush_pending_records,
  close_streaming_json, close_streaming_csv, finalize, separator,
}
use rusty_comms.Results.Log.{
  Call, stream, direct, pair, call, at_end, log_from, log, rows, json_rows, json_document, csv_rows,
  csv_document,
}

csv_rows-append :
    (rs : List MessageLatencyRecord) (r : MessageLatencyRecord)
    → csv_rows rs ++ (to_csv_record r ++ codes "\n") ≡ csv_rows (rs ++ (r ∷ []))
csv_rows-append [] r = ap (λ t. to_csv_record r ++ t) (sym (append-nil (codes "\n")))
csv_rows-append (q ∷ rs) r =
    append_assoc (to_csv_record q) (codes "\n" ++ csv_rows rs) (to_csv_record r ++ codes "\n")
    ∙ ap (λ t. to_csv_record q ++ (codes "\n" ++ t)) (csv_rows-append rs r)

module _ {R : Type 0} (json : Json R) where
  rows-append :
      (rs : List MessageLatencyRecord) (r : MessageLatencyRecord)
      → rows json rs ++ (codes ",\n    " ++ json.values r) ≡ rows json (rs ++ (r ∷ []))
  rows-append [] r = ap (λ t. codes ",\n    " ++ t) (sym (append-nil (json.values r)))
  rows-append (q ∷ rs) r =
      ap (λ t. codes ",\n    " ++ t)
        (append_assoc (json.values q) (rows json rs) (codes ",\n    " ++ json.values r)
          ∙ ap (λ t. json.values q ++ t) (rows-append rs r))

  json_rows-append :
      (rs : List MessageLatencyRecord) (r : MessageLatencyRecord)
      → json_rows json rs ++ (separator json (is_nil rs) ++ (codes "    " ++ json.values r))
        ≡ json_rows json (rs ++ (r ∷ []))
  json_rows-append [] r = ap (λ t. codes "\n    " ++ t) (sym (append-nil (json.values r)))
  json_rows-append (q ∷ rs) r =
      ap (λ t. codes "\n    " ++ t)
        (append_assoc (json.values q) (rows json rs) (codes ",\n    " ++ json.values r)
          ∙ ap (λ t. json.values q ++ t) (rows-append rs r))

  -- The manager that streams to both files and has written the records `rs`.
  abbrev state_at : Bool → Records → List MessageLatencyRecord → BlockingResultsManager R
  state_at both pending rs = record {
    streaming_file = some (json_header json ++ json_rows json rs);
    streaming_csv_file = some (csv_header ++ csv_rows rs);
    streaming_file_handle = true;
    streaming_csv_handle = true;
    results = [];
    streaming_enabled = true;
    csv_streaming_enabled = true;
    per_message_streaming = true;
    first_record_streamed = is_nil rs;
    both_tests_enabled = both;
    pending_records = pending;
  }

  is_nil-append :
      (rs : List MessageLatencyRecord) (r : MessageLatencyRecord) → is_nil (rs ++ (r ∷ [])) ≡ false
  is_nil-append [] r = refl
  is_nil-append (q ∷ rs) r = refl

  write-state_at :
      (r : MessageLatencyRecord) (both : Bool) (pending : Records) (rs : List MessageLatencyRecord)
      → write_streaming_record json r (state_at both pending rs)
        ≡ state_at both pending (rs ++ (r ∷ []))
  unfolding write_streaming_record
  write-state_at r both pending rs =
      rw
        (
          is_nil-append rs r,
          sym (json_rows-append rs r),
          sym (csv_rows-append rs r),
          append_assoc (json_header json) (json_rows json rs)
              (separator json (is_nil rs) ++ (codes "    " ++ json.values r)),
          append_assoc csv_header (csv_rows rs) (to_csv_record r ++ codes "\n"),
        )
        refl

  -- A new manager that streams to a JSON file and a CSV file.
  abbrev pub enabled : Bool → BlockingResultsManager R
  enabled both = enable_csv_streaming json (enable_combined_streaming json both (new json))

  abbrev pub perform : Call → BlockingResultsManager R → BlockingResultsManager R
  perform (stream r) = stream_latency_record json r
  perform (direct r) = write_streaming_record_direct json r

  abbrev pub perform_all : List Call → BlockingResultsManager R → BlockingResultsManager R
  perform_all [] m = m
  perform_all (c ∷ cs) m = perform_all cs (perform c m)

  enabled-state_at : (both : Bool) → enabled both ≡ state_at both [] []
  unfolding enable_csv_streaming enable_combined_streaming new
  enabled-state_at both = rw (append-nil (json_header json), append-nil csv_header) refl

  -- A step: the records written are added to the log, and the rest is pending.
  abbrev added :
      Bool
      → List MessageLatencyRecord
      → List MessageLatencyRecord × Records
      → BlockingResultsManager R
  added both rs (written, pending) = state_at both pending (rs ++ written)

  uncombined-state_at :
      (both : Bool) (found : Option MessageLatencyRecord) (r : MessageLatencyRecord)
      (pending : Records) (rs : List MessageLatencyRecord)
      → (if both
          then (elim found [
            | some existing ↦
                write_streaming_record json
                  (merge existing r)
                  (state_at both (remove r.message_id pending) rs)
            | none ↦ state_at both (insert r.message_id r pending) rs
          ])
          else write_streaming_record json r (state_at both pending rs))
        ≡ added both rs (if both then pair found r pending else (r ∷ [], pending))
  uncombined-state_at true (some existing) r pending rs =
      write-state_at (merge existing r) true (remove r.message_id pending) rs
  uncombined-state_at true none r pending rs =
      ap (state_at true (insert r.message_id r pending)) (sym (append-nil rs))
  uncombined-state_at false found r pending rs = write-state_at r false pending rs

  direct-state_at :
      (r : MessageLatencyRecord) (both : Bool) (pending : Records) (rs : List MessageLatencyRecord)
      → write_streaming_record_direct json r (state_at both pending rs)
        ≡ added both rs (call both (direct r) pending)
  unfolding write_streaming_record_direct
  direct-state_at r both pending rs = elim (Bool-cases (is_combined r)) [
    | inl e ↦ rw (e) (write-state_at r both pending rs)
    | inr e ↦ rw (e) (uncombined-state_at both (get r.message_id pending) r pending rs)
  ]

  stream-state_at :
      (r : MessageLatencyRecord) (both : Bool) (pending : Records) (rs : List MessageLatencyRecord)
      → stream_latency_record json r (state_at both pending rs)
        ≡ state_at both pending (rs ++ (r ∷ []))
  unfolding stream_latency_record
  stream-state_at r both pending rs = elim (Bool-cases (is_combined r)) [
    | inl e ↦ rw (e) (direct-state_at r both pending rs ∙ rw (e) refl)
    | inr e ↦ rw (e) (write-state_at r both pending rs)
  ]

  perform-state_at :
      (c : Call) (both : Bool) (pending : Records) (rs : List MessageLatencyRecord)
      → perform c (state_at both pending rs) ≡ added both rs (call both c pending)
  perform-state_at (stream r) both pending rs = stream-state_at r both pending rs
  perform-state_at (direct r) both pending rs = direct-state_at r both pending rs

  write_all-state_at :
      (qs : List MessageLatencyRecord) (both : Bool) (pending : Records)
      (rs : List MessageLatencyRecord)
      → write_all json qs (state_at both pending rs) ≡ state_at both pending (rs ++ qs)
  write_all-state_at [] both pending rs = rw (append-nil rs) refl
  write_all-state_at (q ∷ qs) both pending rs =
      ap (write_all json qs) (write-state_at q both pending rs)
      ∙ write_all-state_at qs both pending (rs ++ (q ∷ []))
      ∙ ap (state_at both pending) (append_assoc rs (q ∷ []) qs)

  flush-state_at :
      (both : Bool) (pending : Records) (rs : List MessageLatencyRecord)
      → flush_pending_records json (state_at both pending rs)
        ≡ state_at both (if both then [] else pending) (rs ++ at_end both pending)
  unfolding flush_pending_records
  flush-state_at false pending rs = rw (append-nil rs) refl
  flush-state_at true [] rs = rw (append-nil rs) refl
  flush-state_at true (p ∷ pending) rs =
      ap (λ (m : BlockingResultsManager R). record m { pending_records = [] })
        (write_all-state_at (map second (sort_by_key (p ∷ pending))) true (p ∷ pending) rs)

  close-state_at :
      (both : Bool) (pending : Records) (rs : List MessageLatencyRecord)
      → let m = close_streaming_csv json (close_streaming_json json (state_at both pending rs)) in
        (m.streaming_file ≡ some (json_document json rs))
        × (m.streaming_csv_file ≡ some (csv_document rs))
  unfolding close_streaming_json close_streaming_csv
  close-state_at both pending rs =
      (ap some (append_assoc (json_header json) (json_rows json rs) (codes "\n  ]\n}\n")), refl)

  log-state_at :
      (cs : List Call) (both : Bool) (pending : Records) (rs : List MessageLatencyRecord)
      → (rest : Records) × (flush_pending_records json (perform_all cs (state_at both pending rs))
          ≡ state_at both rest (rs ++ log_from both pending cs))
  log-state_at [] both pending rs = (_, flush-state_at both pending rs)
  log-state_at (c ∷ cs) both pending rs =
      let (written, pending') = call both c pending in
      let (rest, e) = log-state_at cs both pending' (rs ++ written) in
      (
        rest,
        ap (λ m. flush_pending_records json (perform_all cs m)) (perform-state_at c both pending rs)
            ∙ e
            ∙ ap (state_at both rest) (append_assoc rs written (log_from both pending' cs)),
      )

  -- Whatever records are streamed, by either call and with both tests or one, the finished JSON file
  -- holds the log's records as rows with a comma between them, closed by the end of the document, and
  -- the CSV file holds a line for each of the same records in the same order.
  pub finalize-documents :
      (both : Bool) (cs : List Call)
      → let m = finalize json (perform_all cs (enabled both)) in
        (m.streaming_file ≡ some (json_document json (log both cs)))
        × (m.streaming_csv_file ≡ some (csv_document (log both cs)))
  unfolding finalize
  finalize-documents both cs =
      let (rest, e) = log-state_at cs both [] [] in
      rw (enabled-state_at both, e) (close-state_at both rest (log both cs))
