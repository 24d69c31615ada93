-- ===== src/Results.antt =====
-- Per-message latency records and their streaming: `MessageLatencyRecord` of src/results.rs and
-- `BlockingResultsManager` of src/results_blocking.rs. A file is the text in it, a handle is whether the
-- file is kept open, and the writes succeed; an open handle's writes go to the end of its file. The
-- manager has no output file, so that `finalize` ends after the streams.
pub mod Record
pub mod Log
pub mod Streaming
pub mod Pairing
mod Tests
use rusty_comms.Prelude.{
  ℕ, Bool, true, false, not, ◌&&◌, Option, none, some, List, [], ◌∷◌, ◌++◌, map, ◌==◌, leb,
  if◌then◌else◌,
}
use rusty_comms.Text.{codes, is_nil}
use rusty_comms.Results.Record.{MessageLatencyRecord, merge, is_combined, is_some, to_csv_record}

-- What the code uses of `serde_json`: the texts of the headings, of the array that `to_value_array`
-- makes of a record, and of a benchmark's results.
pub record Json (R : Type 0) : Type 0 where
  pub headings : List ℕ
  pub values : MessageLatencyRecord → List ℕ
  pub results : R → List ℕ

abbrev pub Records : Type 0
Records = List (ℕ × MessageLatencyRecord)

pub record BlockingResultsManager (R : Type 0) : Type 0 where
  pub streaming_file : Option (List ℕ)
  pub streaming_csv_file : Option (List ℕ)
  pub streaming_file_handle : Bool
  pub streaming_csv_handle : Bool
  pub results : List R
  pub streaming_enabled : Bool
  pub csv_streaming_enabled : Bool
  pub per_message_streaming : Bool
  pub first_record_streamed : Bool
  pub both_tests_enabled : Bool
  pub pending_records : Records

-- The hash map of pending records.
abbrev pub get : ℕ → Records → Option MessageLatencyRecord
get id [] = none
get id ((k, r) ∷ rs) = if k == id then some r else get id rs

abbrev pub remove : ℕ → Records → Records
remove id [] = []
remove id ((k, r) ∷ rs) = let rest = remove id rs in if k == id then rest else (k, r) ∷ rest

abbrev pub insert : ℕ → MessageLatencyRecord → Records → Records
insert id r rs = (id, r) ∷ remove id rs

abbrev pub insert_by_key : ℕ → MessageLatencyRecord → Records → Records
insert_by_key id r [] = (id, r) ∷ []
insert_by_key id r ((k, s) ∷ rs) =
    let rest = insert_by_key id r rs in if leb id k then (id, r) ∷ ((k, s) ∷ rs) else (k, s) ∷ rest

abbrev pub sort_by_key : Records → Records
sort_by_key [] = []
sort_by_key ((k, r) ∷ rs) = insert_by_key k r (sort_by_key rs)

abbrev pub second : ℕ × MessageLatencyRecord → MessageLatencyRecord
second (k, r) = r

-- `open` with `append`, and a write
abbrev pub append : List ℕ → Option (List ℕ) → Option (List ℕ)
append s none = none
append s (some file) = some (file ++ s)

abbrev pub csv_header : List ℕ
csv_header =
    codes
      "timestamp_ns,message_id,mechanism,message_size,one_way_latency_ns,round_trip_latency_ns\n"

module _ {R : Type 0} (json : Json R) where
  abbrev pub Manager : Type 0
  Manager = BlockingResultsManager R

  unfoldable pub new : Manager
  new = record {
    streaming_file = none;
    streaming_csv_file = none;
    streaming_file_handle = false;
    streaming_csv_handle = false;
    results = [];
    streaming_enabled = false;
    csv_streaming_enabled = false;
    per_message_streaming = false;
    first_record_streamed = true;
    both_tests_enabled = false;
    pending_records = [];
  }

  unfoldable pub enable_streaming : Manager → Manager
  enable_streaming m = record m { streaming_file = some (codes "["); streaming_enabled = true }

  abbrev pub json_header : List ℕ
  json_header = codes "{\n  \"headings\": " ++ (json.headings ++ codes ",\n  \"data\": [")

  unfoldable pub enable_per_message_streaming : Manager → Manager
  enable_per_message_streaming m = record m {
    streaming_file = some json_header;
    streaming_enabled = true;
    per_message_streaming = true;
    first_record_streamed = true;
    streaming_file_handle = true;
  }

  unfoldable pub enable_combined_streaming : Bool → Manager → Manager
  unfolding enable_per_message_streaming
  enable_combined_streaming both_tests_enabled m =
      let m' = enable_per_message_streaming m in
      record m' { both_tests_enabled = both_tests_enabled }

  unfoldable pub enable_csv_streaming : Manager → Manager
  enable_csv_streaming m = record m {
    streaming_csv_file = some csv_header;
    csv_streaming_enabled = true;
    per_message_streaming = true;
    streaming_enabled = true;
    streaming_csv_handle = true;
  }

  abbrev pub separator : Bool → List ℕ
  separator first = if first then codes "\n" else codes ",\n"

  abbrev pub write_json : MessageLatencyRecord → Manager → Manager
  write_json r m = record m {
    streaming_file =
        append (separator m.first_record_streamed ++ (codes "    " ++ json.values r))
          m.streaming_file;
    first_record_streamed = false;
  }

  abbrev pub write_csv : MessageLatencyRecord → Manager → Manager
  write_csv r m = record m {
    streaming_csv_file = append (to_csv_record r ++ codes "\n") m.streaming_csv_file;
  }

  unfoldable pub write_streaming_record : MessageLatencyRecord → Manager → Manager
  write_streaming_record r m =
      let m' =
        if m.streaming_file_handle
        then write_json r m
        else (if is_some m.streaming_file then write_json r m else m) in
      if m'.csv_streaming_enabled
      then (if m'.streaming_csv_handle
          then write_csv r m'
          else if is_some m'.streaming_csv_file
          then write_csv r m'
          else m')
      else m'

  unfoldable pub write_streaming_record_direct : MessageLatencyRecord → Manager → Manager
  write_streaming_record_direct r m =
      if not (m.streaming_enabled && m.per_message_streaming)
      then m
      else if is_combined r
      then write_streaming_record r m
      else if m.both_tests_enabled
      then (elim (get r.message_id m.pending_records) [
        | some existing ↦
            write_streaming_record (merge existing r)
              (record m { pending_records = remove r.message_id m.pending_records })
        | none ↦ record m { pending_records = insert r.message_id r m.pending_records }
      ])
      else write_streaming_record r m

  unfoldable pub stream_latency_record : MessageLatencyRecord → Manager → Manager
  stream_latency_record r m =
      if m.per_message_streaming
      then (if is_combined r then write_streaming_record_direct r m else write_streaming_record r m)
      else if m.both_tests_enabled
      then (elim (get r.message_id m.pending_records) [
        | some existing ↦ record m {
          pending_records = insert r.message_id (merge existing r) m.pending_records;
        }
        | none ↦ record m { pending_records = insert r.message_id r m.pending_records }
      ])
      else record m { pending_records = insert r.message_id r m.pending_records }

  unfoldable pub stream_results : R → Manager → Manager
  stream_results results m =
      let comma = if is_nil m.results then [] else codes ",\n" in
      record m { streaming_file = append (comma ++ json.results results) m.streaming_file }

  unfoldable pub add_results : R → Manager → Manager
  add_results results m =
      let m' =
        if m.streaming_enabled && not m.per_message_streaming
        then stream_results results m
        else m in
      record m' { results = m'.results ++ (results ∷ []) }

  abbrev pub write_all : List MessageLatencyRecord → Manager → Manager
  write_all [] m = m
  write_all (r ∷ rs) m = write_all rs (write_streaming_record r m)

  unfoldable pub flush_pending_records : Manager → Manager
  flush_pending_records m =
      if m.both_tests_enabled && not (is_nil m.pending_records)
      then (let m' = write_all (map second (sort_by_key m.pending_records)) m in
          record m' { pending_records = [] })
      else m

  unfoldable pub close_streaming_json : Manager → Manager
  close_streaming_json m =
      if m.per_message_streaming
      then record m {
        streaming_file = append (codes "\n  ]\n}\n") m.streaming_file;
        streaming_file_handle = false;
      }
      else if m.streaming_enabled
      then (if is_some m.streaming_file
          then record m {
            streaming_file = append (codes "\n]\n") m.streaming_file;
            streaming_file_handle = false;
          }
          else m)
      else m

  unfoldable pub close_streaming_csv : Manager → Manager
  close_streaming_csv m =
      if m.csv_streaming_enabled && is_some m.streaming_csv_file
      then record m { streaming_csv_handle = false }
      else m

  unfoldable pub finalize : Manager → Manager
  finalize m = close_streaming_csv (close_streaming_json (flush_pending_records m))
