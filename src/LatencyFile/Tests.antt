-- ===== src/LatencyFile/Tests.antt =====
-- A file of two lines.
use rusty_comms.Prelude.{ℕ, ◌^◌, ◌-◌, ◌≡◌, refl, List, [], ◌∷◌, ok, arith}
use rusty_comms.Text.{codes, decimal, push_digits}
use rusty_comms.LatencyFile.{latency_line, write_latency_buffer, read_latency_file}
use rusty_comms.LatencyFile.RoundTrip.{read-write_latency_buffer}

abbrev pairs : List (ℕ × ℕ)
pairs = (1000, 25) ∷ (2 ^ 64 - 1, 0) ∷ []

written : write_latency_buffer pairs ≡ codes "1000,25\n18446744073709551615,0\n"
unfolding write_latency_buffer latency_line decimal push_digits
written = refl

read-write_latency_buffer_example : read_latency_file (write_latency_buffer pairs) ≡ ok pairs
read-write_latency_buffer_example =
    read-write_latency_buffer pairs ((omega arith, omega arith), ((omega arith, omega arith), tt))
