-- ===== src/Durations/Tests.antt =====
-- Durations with a parser of whole numbers.
use rusty_comms.Prelude.{
  ◌*◌, ◌≡◌, refl, inl, arith, some, none, ◌++◌, ok, returned, crashed, ltb, if◌then◌else◌,
}
use rusty_comms.Text.{codes, parse_u64, read_digits}
use rusty_comms.Metrics.Tests.{whole}
use rusty_comms.Durations.{Floats, or_panic, parse_duration, parse_duration_micros}
use rusty_comms.Durations.Units.{parse_duration-units}

-- Numbers above 1000 stand for those that the conversion does not take.
abbrev floats : Floats whole
floats = record {
  parse_f64 = parse_u64;
  from_secs_f64 = λ n. if ltb 1000 n then none else some (n * 1_000_000_000);
  to_u64 = λ n. n;
}

parse_duration-units_example :
    (parse_duration floats (codes "20" ++ codes "s") ≡ or_panic floats (some 20_000_000_000))
    × (parse_duration floats (codes "20") ≡ or_panic floats (some 20_000_000_000))
    × (parse_duration floats (codes "20" ++ codes "ms") ≡ or_panic floats (some 0))
    × (parse_duration floats (codes "20" ++ codes "m") ≡ crashed)
    × (parse_duration floats (codes "20" ++ codes "h") ≡ crashed)
    × (parse_duration_micros floats (codes "20" ++ codes "us") ≡ returned (ok (20 * 1000)))
    × (parse_duration_micros floats (codes "20" ++ codes "ms") ≡ returned (ok (20 * 1_000_000)))
unfolding parse_u64 read_digits
parse_duration-units_example =
    parse_duration-units floats (codes "20") 20
      (inl (omega arith, omega arith), (inl (omega arith, omega arith), tt)) (omega arith) refl refl
