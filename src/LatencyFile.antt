-- ===== src/LatencyFile.antt =====
-- The file by which the server process hands its latencies to the client: `write_latency_buffer` of
-- src/main.rs, and `parse_latency_file_line` of src/benchmark.rs under the readers' loop over lines.
pub mod RoundTrip
mod Tests
use rusty_comms.Prelude.{ℕ, Option, none, some, List, [], ◌∷◌, ◌++◌, Result, ok, err}
use rusty_comms.Text.{decimal, parse_u64, trim, split_comma, lines}

pub data Fault : Type 0 where
  missing_comma bad_wall_send_ns bad_latency_ns : Fault

-- `writeln!(file, "{},{}", wall_send_ns, latency_ns)`, without the line feed.
unfoldable pub latency_line : ℕ → ℕ → List ℕ
latency_line wall_send_ns latency_ns = decimal wall_send_ns ++ (b',' ∷ decimal latency_ns)

-- What a created file holds after the writes.
unfoldable pub write_latency_buffer : List (ℕ × ℕ) → List ℕ
write_latency_buffer [] = []
write_latency_buffer ((wall_send_ns, latency_ns) ∷ buffer) =
    latency_line wall_send_ns latency_ns ++ (10 ∷ write_latency_buffer buffer)

abbrev pub numbers : List ℕ → List ℕ → Result Fault (ℕ × ℕ)
numbers first second = elim (parse_u64 first) [
  | none ↦ err bad_wall_send_ns
  | some wall_send_ns ↦ elim (parse_u64 second) [
    | none ↦ err bad_latency_ns
    | some latency_ns ↦ ok (wall_send_ns, latency_ns)
  ]
]

abbrev pub two_parts : List ℕ × Option (List ℕ) → Result Fault (ℕ × ℕ)
two_parts (first, none) = err missing_comma
two_parts (first, some second) = numbers first second

unfoldable pub parse_latency_file_line : List ℕ → Result Fault (ℕ × ℕ)
parse_latency_file_line line = two_parts (split_comma (trim line))

-- The first bad line ends the reading with its error.
abbrev pub parse_lines : List (List ℕ) → Result Fault (List (ℕ × ℕ))
parse_lines [] = ok []
parse_lines (l ∷ ls) = elim (parse_latency_file_line l) [
  | err e ↦ err e
  | ok pair ↦ elim (parse_lines ls) [ err e ↦ err e | ok pairs ↦ ok (pair ∷ pairs) ]
]

unfoldable pub read_latency_file : List ℕ → Result Fault (List (ℕ × ℕ))
read_latency_file file = parse_lines (lines file)
