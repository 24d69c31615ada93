-- ===== src/Durations/Units.antt =====
-- A number with each of the units.
use rusty_comms.Prelude.{
  ℕ, ◌*◌, ◌≤◌, ◌<◌, ◌≡◌, ◌≢◌, ◌⊎◌, inl, inr, refl, sym, ap, ap₂, subst, ◌∙◌, Bool, true, false,
  Option, none, some, List, [], ◌∷◌, ◌++◌, length, length-append, All, All-append, All-map_rel,
  Among, arith, if◌then◌else◌, ok,
}
use rusty_comms.Text.{codes, is_nil, is_whitespace, same_text}
use rusty_comms.Text.Decimal.{IsDigit}
use rusty_comms.Text.Lines.{IsBlack, trim_black}
use rusty_comms.Text.Same.{same_text_refl, same_text-false}
use rusty_comms.Metrics.{Numeric}
use rusty_comms.Durations.{
  TimeUnit, micros, millis, seconds, minutes, hours, strip_suffix, Floats, split_unit, units,
  from_s, from_m, from_h, Parsed, or_panic, convert, convert_micros, parse_number, parse_with,
  parse_duration, parse_duration_micros, returned,
}

-- The characters of a plain number.
abbrev pub IsNumeric : ℕ → Type 0
IsNumeric c = IsDigit c ⊎ (c ≡ b'.')

numeric-IsBlack : (c : ℕ) → IsNumeric c → IsBlack c
unfolding is_whitespace
numeric-IsBlack c (inl h) = ground arith
numeric-IsBlack c (inr h) = ground arith

abbrev IsLetter : ℕ → Type 0
IsLetter l = b'h' ≤ l

numeric-letter : (l c : ℕ) → IsLetter l → IsNumeric c → c ≢ l
numeric-letter l c h (inl d) e = omega arith
numeric-letter l c h (inr d) e = omega arith

absent : (c : ℕ) (xs : List ℕ) → Among c xs → All (λ x. x ≢ c) xs → ⊥
absent c [] h none' = h
absent c (x ∷ xs) (inl e) (ne, _) = ne (sym e)
absent c (x ∷ xs) (inr h) (_, rest) = absent c xs h rest

-- A text without one of the suffix's characters does not end in it.
strip_suffix-misses :
    (suffix s : List ℕ) (c : ℕ) → Among c suffix → All (λ x. x ≢ c) s → strip_suffix suffix s ≡ none
unfolding strip_suffix
strip_suffix-misses [] [] c h free = absurd h
strip_suffix-misses (x ∷ xs) [] c h free = refl
strip_suffix-misses suffix (y ∷ ys) c h (ne, free) =
    rw
      (
        same_text-false (y ∷ ys) suffix
            (λ e. absent c suffix h (subst (All (λ x. x ≢ c)) e (ne, free))),
        strip_suffix-misses suffix ys c h free,
      )
      refl

longer : (x : ℕ) (d suffix : List ℕ) → x ∷ (d ++ suffix) ≢ suffix
longer x d suffix e = omega (arith, ap length e, length-append d suffix)

taken : (b : Bool) (y : Option (List ℕ)) → b ≡ true → (if b then some [] else y) ≡ some []
taken b y h = ap (λ c. if c then some [] else y) h

strip_suffix-append : (suffix d : List ℕ) → strip_suffix suffix (d ++ suffix) ≡ some d
unfolding strip_suffix
strip_suffix-append [] [] = refl
strip_suffix-append (x ∷ xs) [] = taken (same_text (x ∷ xs) (x ∷ xs)) _ (same_text_refl (x ∷ xs))
strip_suffix-append suffix (x ∷ d) =
    rw
      (same_text-false (x ∷ (d ++ suffix)) suffix (longer x d suffix), strip_suffix-append suffix d)
      refl

free :
    (l : ℕ) (d u : List ℕ)
    → IsLetter l
    → All IsNumeric d
    → All (λ x. x ≢ l) u
    → All (λ x. x ≢ l) (d ++ u)
free l d u h numeric rest =
    All-append u d (λ x. x ≢ l) rest (All-map_rel d (λ c. numeric-letter l c h) numeric)

nonempty : (d u : List ℕ) → 0 < length d → is_nil (d ++ u) ≡ false
nonempty [] u h = absurd (omega arith)
nonempty (x ∷ d) u h = refl

full : (d : List ℕ) → 0 < length d → is_nil d ≡ false
full [] h = absurd (omega arith)
full (x ∷ d) h = refl

black : (d u : List ℕ) → All IsNumeric d → All IsBlack u → All IsBlack (d ++ u)
black d u h rest = All-append u d IsBlack rest (All-map_rel d numeric-IsBlack h)

split-hit :
    (suffix : List ℕ) (unit : TimeUnit) (more : List (List ℕ × TimeUnit)) (s n : List ℕ)
    → strip_suffix suffix s ≡ some n
    → split_unit ((suffix, unit) ∷ more) s ≡ (n, unit)
split-hit suffix unit more s n e = rw (e, split_unit) refl

split-miss :
    (suffix : List ℕ) (unit : TimeUnit) (more : List (List ℕ × TimeUnit)) (s : List ℕ)
    → strip_suffix suffix s ≡ none
    → split_unit ((suffix, unit) ∷ more) s ≡ split_unit more s
split-miss suffix unit more s e = rw (e, split_unit) refl

module _ (d : List ℕ) (numeric : All IsNumeric d) where
  misses :
      (suffix u : List ℕ) (l : ℕ)
      → IsLetter l
      → Among l suffix
      → All (λ x. x ≢ l) u
      → strip_suffix suffix (d ++ u) ≡ none
  misses suffix u l letter there rest =
      strip_suffix-misses suffix (d ++ u) l there (free l d u letter numeric rest)

  misses_alone :
      (suffix : List ℕ) (l : ℕ) → IsLetter l → Among l suffix → strip_suffix suffix d ≡ none
  misses_alone suffix l letter there =
      strip_suffix-misses suffix d l there (All-map_rel d (λ c. numeric-letter l c letter) numeric)

  split_unit-alone : split_unit units d ≡ (d, seconds)
  split_unit-alone =
      split-miss (codes "ms") millis from_s d
        (misses_alone (codes "ms") b's' (omega arith) (inr (inl refl)))
      ∙ split-miss (codes "s") seconds from_m d
          (misses_alone (codes "s") b's' (omega arith) (inl refl))
      ∙ split-miss (codes "m") minutes from_h d
          (misses_alone (codes "m") b'm' (omega arith) (inl refl))
      ∙ split-miss (codes "h") hours [] d (misses_alone (codes "h") b'h' (omega arith) (inl refl))

  split_unit-s : split_unit units (d ++ codes "s") ≡ (d, seconds)
  split_unit-s =
      split-miss (codes "ms") millis from_s (d ++ codes "s")
        (misses (codes "ms") (codes "s") b'm' (omega arith) (inl refl) ((λ e. omega arith), tt))
      ∙ split-hit (codes "s") seconds from_m (d ++ codes "s") d (strip_suffix-append (codes "s") d)

  split_unit-ms : split_unit units (d ++ codes "ms") ≡ (d, millis)
  split_unit-ms =
      split-hit (codes "ms") millis from_s (d ++ codes "ms") d (strip_suffix-append (codes "ms") d)

  split_unit-m : split_unit units (d ++ codes "m") ≡ (d, minutes)
  split_unit-m =
      split-miss (codes "ms") millis from_s (d ++ codes "m") (
        misses (codes "ms") (codes "m") b's' (omega arith) (inr (inl refl))
          ((λ e. omega arith), tt))
      ∙ split-miss (codes "s") seconds from_m (d ++ codes "m")
          (misses (codes "s") (codes "m") b's' (omega arith) (inl refl) ((λ e. omega arith), tt))
      ∙ split-hit (codes "m") minutes from_h (d ++ codes "m") d (strip_suffix-append (codes "m") d)

  split_unit-h : split_unit units (d ++ codes "h") ≡ (d, hours)
  split_unit-h =
      split-miss (codes "ms") millis from_s (d ++ codes "h") (
        misses (codes "ms") (codes "h") b's' (omega arith) (inr (inl refl))
          ((λ e. omega arith), tt))
      ∙ split-miss (codes "s") seconds from_m (d ++ codes "h")
          (misses (codes "s") (codes "h") b's' (omega arith) (inl refl) ((λ e. omega arith), tt))
      ∙ split-miss (codes "m") minutes from_h (d ++ codes "h")
          (misses (codes "m") (codes "h") b'm' (omega arith) (inl refl) ((λ e. omega arith), tt))
      ∙ split-hit (codes "h") hours [] (d ++ codes "h") d (strip_suffix-append (codes "h") d)

  split_micros-us : split_unit ((codes "us", micros) ∷ units) (d ++ codes "us") ≡ (d, micros)
  split_micros-us =
      split-hit (codes "us") micros units (d ++ codes "us") d (strip_suffix-append (codes "us") d)

  split_micros-ms : split_unit ((codes "us", micros) ∷ units) (d ++ codes "ms") ≡ (d, millis)
  split_micros-ms =
      split-miss (codes "us") micros units (d ++ codes "ms") (
        misses (codes "us") (codes "ms") b'u' (omega arith) (inl refl)
          ((λ e. omega arith), ((λ e. omega arith), tt)))
      ∙ split-hit (codes "ms") millis from_s (d ++ codes "ms") d
          (strip_suffix-append (codes "ms") d)

module _ {num : Numeric} (floats : Floats num) where
  parse-known :
      (conversion : TimeUnit → num.F64 → Parsed floats) (suffixes : List (List ℕ × TimeUnit))
      (text number : List ℕ) (unit : TimeUnit) (x : num.F64)
      → All IsBlack text
      → is_nil text ≡ false
      → split_unit suffixes text ≡ (number, unit)
      → floats.parse_f64 number ≡ some x
      → num.below x (num.decimal 0 1) ≡ false
      → parse_with floats conversion suffixes text ≡ conversion unit x
  parse-known conversion suffixes text number unit x visible some_text split parsed positive =
      ap (λ t. parse_number floats conversion (split_unit suffixes t) (is_nil t))
        (trim_black text visible)
      ∙ ap₂ (parse_number floats conversion) split some_text
      ∙ rw (parsed, parse_number) (rw positive refl)

  -- A number that the parser reads and that is not negative: `parse_duration` takes it for seconds
  -- without a unit and with `s`, and scales it for `ms`, `m` and `h`; the conversion's panic is the
  -- function's. `parse_duration_micros` cuts `us` and `ms` to whole numbers.
  pub parse_duration-units :
      (d : List ℕ) (x : num.F64)
      → All IsNumeric d
      → 0 < length d
      → floats.parse_f64 d ≡ some x
      → num.below x (num.decimal 0 1) ≡ false
      → (parse_duration floats (d ++ codes "s") ≡ or_panic floats (floats.from_secs_f64 x))
        × (parse_duration floats d ≡ or_panic floats (floats.from_secs_f64 x))
        × (parse_duration floats (d ++ codes "ms")
            ≡ or_panic floats (floats.from_secs_f64 (num.divide x (num.decimal 1000 1))))
        × (parse_duration floats (d ++ codes "m")
            ≡ or_panic floats (floats.from_secs_f64 (num.times x (num.decimal 60 1))))
        × (parse_duration floats (d ++ codes "h")
            ≡ or_panic floats (floats.from_secs_f64 (num.times x (num.decimal 3600 1))))
        × (parse_duration_micros floats (d ++ codes "us") ≡ returned (ok (floats.to_u64 x * 1000)))
        × (parse_duration_micros floats (d ++ codes "ms")
            ≡ returned (ok (floats.to_u64 x * 1_000_000)))
  unfolding parse_duration parse_duration_micros is_whitespace
  parse_duration-units d x numeric some_digit parsed positive =
      let known =
        λ (conversion : TimeUnit → num.F64 → Parsed floats) (suffixes : List (List ℕ × TimeUnit))
            (u : List ℕ) (unit : TimeUnit) (visible : All IsBlack u)
            (split : split_unit suffixes (d ++ u) ≡ (d, unit)).
          parse-known conversion suffixes (d ++ u) d unit x (black d u numeric visible)
            (nonempty d u some_digit) split parsed positive in
      (
        known (convert floats) units (codes "s") seconds (refl, tt) (split_unit-s d numeric),
        parse-known (convert floats) units d d seconds x (All-map_rel d numeric-IsBlack numeric)
            (full d some_digit) (split_unit-alone d numeric) parsed positive,
        known (convert floats) units (codes "ms") millis (refl, (refl, tt))
            (split_unit-ms d numeric),
        known (convert floats) units (codes "m") minutes (refl, tt) (split_unit-m d numeric),
        known (convert floats) units (codes "h") hours (refl, tt) (split_unit-h d numeric),
        known (convert_micros floats) ((codes "us", micros) ∷ units) (codes "us") micros
            (refl, (refl, tt)) (split_micros-us d numeric),
        known (convert_micros floats) ((codes "us", micros) ∷ units) (codes "ms") millis
            (refl, (refl, tt)) (split_micros-ms d numeric),
      )
