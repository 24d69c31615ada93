-- ===== src/Results/Log.antt =====
-- What a streaming manager is to write, as a log of records, and the documents that hold a log.
use rusty_comms.Prelude.{ℕ, Bool, Option, none, some, List, [], ◌∷◌, ◌++◌, map, if◌then◌else◌}
use rusty_comms.Text.{codes}
use rusty_comms.Results.Record.{MessageLatencyRecord, merge, is_combined, to_csv_record}
use rusty_comms.Results.{
  Json, Records, get, remove, insert, sort_by_key, second, csv_header, json_header,
}

-- The two calls that stream a record.
pub data Call : Type 0 where
  stream direct : MessageLatencyRecord → Call

-- What a call writes, and the records that it leaves pending: two partial records of a message that
-- are streamed directly are paired when both tests are enabled.
abbrev pub pair :
    Option MessageLatencyRecord
    → MessageLatencyRecord
    → Records
    → List MessageLatencyRecord × Records
pair none r pending = ([], insert r.message_id r pending)
pair (some existing) r pending = (merge existing r ∷ [], remove r.message_id pending)

abbrev pub call : Bool → Call → Records → List MessageLatencyRecord × Records
call both (stream r) pending = (r ∷ [], pending)
call both (direct r) pending =
    if is_combined r
    then (r ∷ [], pending)
    else if both
    then pair (get r.message_id pending) r pending
    else (r ∷ [], pending)

abbrev pub at_end : Bool → Records → List MessageLatencyRecord
at_end both pending = if both then map second (sort_by_key pending) else []

abbrev pub log_from : Bool → Records → List Call → List MessageLatencyRecord
log_from both pending [] = at_end both pending
log_from both pending (c ∷ cs) =
    let (written, pending') = call both c pending in written ++ log_from both pending' cs

abbrev pub log : Bool → List Call → List MessageLatencyRecord
log both cs = log_from both [] cs

module _ {R : Type 0} (json : Json R) where
  abbrev pub rows : List MessageLatencyRecord → List ℕ
  rows [] = []
  rows (r ∷ rs) = codes ",\n    " ++ (json.values r ++ rows rs)

  -- The rows of a JSON array, with a comma between them.
  abbrev pub json_rows : List MessageLatencyRecord → List ℕ
  json_rows [] = []
  json_rows (r ∷ rs) = codes "\n    " ++ (json.values r ++ rows rs)

  abbrev pub json_document : List MessageLatencyRecord → List ℕ
  json_document rs = json_header json ++ (json_rows rs ++ codes "\n  ]\n}\n")

abbrev pub csv_rows : List MessageLatencyRecord → List ℕ
csv_rows [] = []
csv_rows (r ∷ rs) = to_csv_record r ++ (codes "\n" ++ csv_rows rs)

abbrev pub csv_document : List MessageLatencyRecord → List ℕ
csv_document rs = csv_header ++ csv_rows rs
