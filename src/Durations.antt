-- ===== src/Durations.antt =====
-- `parse_duration` and `parse_duration_micros` of src/cli.rs. The number parser and the conversions are
-- the standard library's: parameters. Durations are nanoseconds.
pub mod Units
mod Tests
use rusty_comms.Prelude.{
  ℕ, ◌*◌, Bool, true, false, Option, none, some, List, [], ◌∷◌, if◌then◌else◌, Result, ok, err, Run,
  crashed, returned,
}
use rusty_comms.Text.{codes, trim, is_nil, same_text}
use rusty_comms.Metrics.{Numeric}

pub data Fault : Type 0 where
  no_text invalid_number negative : Fault

pub data TimeUnit : Type 0 where
  micros millis seconds minutes hours : TimeUnit

-- `strip_suffix`
unfoldable pub strip_suffix : List ℕ → List ℕ → Option (List ℕ)
strip_suffix suffix [] = if same_text [] suffix then some [] else none
strip_suffix suffix (c ∷ cs) =
    let rest = strip_suffix suffix cs in
    if same_text (c ∷ cs) suffix
    then some []
    else (elim rest [ none ↦ none | some s ↦ some (c ∷ s) ])

-- `parse_f64` is `str::parse`, `from_secs_f64` panics where it gives `none`, and `to_u64` is `as u64`.
pub record Floats (num : Numeric) : Type 0 where
  pub parse_f64 : List ℕ → Option num.F64
  pub from_secs_f64 : num.F64 → Option ℕ
  pub to_u64 : num.F64 → ℕ

-- The first suffix that the text has, from these; without one it is in seconds.
abbrev pub split_unit : List (List ℕ × TimeUnit) → List ℕ → List ℕ × TimeUnit
split_unit [] s = (s, seconds)
split_unit ((suffix, unit) ∷ more) s =
    let rest = split_unit more s in
    elim (strip_suffix suffix s) [ some stripped ↦ (stripped, unit) | none ↦ rest ]

-- The suffixes in the order in which they are tried, from one on.
abbrev pub from_h : List (List ℕ × TimeUnit)
from_h = (codes "h", hours) ∷ []

abbrev pub from_m : List (List ℕ × TimeUnit)
from_m = (codes "m", minutes) ∷ from_h

abbrev pub from_s : List (List ℕ × TimeUnit)
from_s = (codes "s", seconds) ∷ from_m

abbrev pub units : List (List ℕ × TimeUnit)
units = (codes "ms", millis) ∷ from_s

module _ {num : Numeric} (floats : Floats num) where
  open num use {F64, decimal, times, divide, below}
  open floats use {parse_f64, from_secs_f64, to_u64}

  abbrev pub Parsed : Type 0
  Parsed = Run Fault ℕ

  abbrev pub or_panic : Option ℕ → Parsed
  or_panic none = crashed
  or_panic (some d) = returned (ok d)

  abbrev pub convert : TimeUnit → F64 → Parsed
  convert micros x = returned (ok (to_u64 x * 1000))
  convert millis x = or_panic (from_secs_f64 (divide x (decimal 1000 1)))
  convert seconds x = or_panic (from_secs_f64 x)
  convert minutes x = or_panic (from_secs_f64 (times x (decimal 60 1)))
  convert hours x = or_panic (from_secs_f64 (times x (decimal 3600 1)))

  -- Milliseconds of `parse_duration_micros` are whole.
  abbrev pub convert_micros : TimeUnit → F64 → Parsed
  convert_micros millis x = returned (ok (to_u64 x * 1_000_000))
  convert_micros unit x = convert unit x

  -- What follows the split of the text, which is empty or not.
  abbrev pub parse_number : (TimeUnit → F64 → Parsed) → List ℕ × TimeUnit → Bool → Parsed
  parse_number conversion split true = returned (err no_text)
  parse_number conversion (number, unit) false = elim (parse_f64 number) [
    | none ↦ returned (err invalid_number)
    | some x ↦ if below x (decimal 0 1) then returned (err negative) else conversion unit x
  ]

  abbrev pub parse_with : (TimeUnit → F64 → Parsed) → List (List ℕ × TimeUnit) → List ℕ → Parsed
  parse_with conversion suffixes text =
      parse_number conversion (split_unit suffixes (trim text)) (is_nil (trim text))

  unfoldable pub parse_duration : List ℕ → Parsed
  parse_duration text = parse_with convert units text

  unfoldable pub parse_duration_micros : List ℕ → Parsed
  parse_duration_micros text = parse_with convert_micros ((codes "us", micros) ∷ units) text
