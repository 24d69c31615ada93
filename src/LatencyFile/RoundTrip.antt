-- ===== src/LatencyFile/RoundTrip.antt =====
-- What the server has buffered is what the client reads.
use rusty_comms.Prelude.{
  ℕ, ◌≡◌, inl, inr, refl, ap, ◌∙◌, some, List, [], ◌∷◌, ◌++◌, All, All-append, All-map_rel, IsU64,
  ok, arith,
}
use rusty_comms.Text.{decimal, parse_u64, split_comma, lines, lines_from}
use rusty_comms.Text.Decimal.{All-decimal, parse_u64-decimal}
use rusty_comms.Text.Lines.{IsPlain, trim_plain, split_comma-append, lines-cons}
use rusty_comms.LatencyFile.{
  latency_line, write_latency_buffer, numbers, two_parts, parse_latency_file_line, parse_lines,
  read_latency_file,
}

abbrev pub IsPair : ℕ × ℕ → Type 0
IsPair (a, b) = IsU64 a × IsU64 b

IsPlain-decimal : (n : ℕ) → All IsPlain (decimal n)
IsPlain-decimal n = All-map_rel (decimal n) (λ c h. inl h) (All-decimal n)

IsPlain-latency_line : (a b : ℕ) → All IsPlain (latency_line a b)
unfolding latency_line
IsPlain-latency_line a b =
    All-append (b',' ∷ decimal b) (decimal a) IsPlain (inr refl, IsPlain-decimal b)
      (IsPlain-decimal a)

numbers-ok :
    (s t : List ℕ) {a b : ℕ} → parse_u64 s ≡ some a → parse_u64 t ≡ some b → numbers s t ≡ ok (a, b)
numbers-ok s t ea eb = ground arith

parse-latency_line :
    (a b : ℕ) → IsU64 a → IsU64 b → parse_latency_file_line (latency_line a b) ≡ ok (a, b)
unfolding parse_latency_file_line latency_line
parse-latency_line a b ha hb =
    ap (λ t. two_parts (split_comma t))
      (trim_plain (decimal a ++ (b',' ∷ decimal b)) (IsPlain-latency_line a b))
    ∙ ap two_parts (split_comma-append (decimal a) (decimal b) (All-decimal a))
    ∙ numbers-ok (decimal a) (decimal b) (parse_u64-decimal a ha) (parse_u64-decimal b hb)

-- Whatever pairs of 64-bit numbers the server writes, the client reads the same pairs in order.
pub read-write_latency_buffer :
    (buffer : List (ℕ × ℕ))
    → All IsPair buffer
    → read_latency_file (write_latency_buffer buffer) ≡ ok buffer
unfolding read_latency_file write_latency_buffer
read-write_latency_buffer [] h = unfold lines in unfold lines_from in refl
read-write_latency_buffer ((a, b) ∷ buffer) ((ha, hb), h) =
    rw
      (
        lines-cons (latency_line a b) (write_latency_buffer buffer) (IsPlain-latency_line a b),
        parse-latency_line a b ha hb,
        read-write_latency_buffer buffer h,
        parse_lines,
      )
      refl
