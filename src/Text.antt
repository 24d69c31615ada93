-- ===== src/Text.antt =====
-- What the program uses of Rust's text functions: printing and parsing of `u64`, `trim`, `splitn` at
-- the first comma, and `BufRead::lines`. A text is the list of its code points.
pub mod Decimal
pub mod Lines
pub mod Same
use Prim.Native.Char.{code}
use Prim.Native.String.{String}
use rusty_comms.Prelude.{
  ℕ, zero, suc, ◌+◌, ◌-◌, ◌*◌, ◌/◌, ◌%◌, ◌^◌, Bool, true, false, ◌&&◌, ◌||◌, Option, none, some,
  List, [], ◌∷◌, ◌++◌, ltb, leb, ◌==◌, if◌then◌else◌,
}

-- The text that a literal stands for.
abbrev pub codes : String → List ℕ
codes String.[] = []
codes (String.◌∷◌ c s) = code c ∷ codes s

-- The last digit first; 20 rounds print every `u64`.
unfoldable pub push_digits : ℕ → ℕ → List ℕ → List ℕ
push_digits zero n out = out
push_digits (suc rounds) n out =
    let longer = push_digits rounds (n / 10) ((b'0' + n % 10) ∷ out) in
    if ltb n 10 then (b'0' + n % 10) ∷ out else longer

-- `to_string`
unfoldable pub decimal : ℕ → List ℕ
decimal n = push_digits 20 n []

abbrev pub is_digit : ℕ → Bool
is_digit c = leb b'0' c && leb c b'9'

-- `checked_mul` and `checked_add` in `u64`.
unfoldable pub read_digits : List ℕ → ℕ → Option ℕ
read_digits [] n = some n
read_digits (c ∷ s) n =
    let next = n * 10 + (c - b'0') in
    let rest = read_digits s next in
    if is_digit c then (if ltb next (2 ^ 64) then rest else none) else none

-- `parse::<u64>`: a leading plus is allowed, an empty number is not.
unfoldable pub parse_u64 : List ℕ → Option ℕ
parse_u64 [] = none
parse_u64 (c ∷ []) = if c == b'+' then none else read_digits (c ∷ []) 0
parse_u64 (c ∷ d ∷ s) = if c == b'+' then read_digits (d ∷ s) 0 else read_digits (c ∷ d ∷ s) 0

-- `char::is_whitespace`
unfoldable pub is_whitespace : ℕ → Bool
is_whitespace c =
    (leb 9 c && leb c 13)
    || (c == 32
        || (c == 0x85
            || (c == 0xA0
                || (c == 0x1680
                    || ((leb 0x2000 c && leb c 0x200A)
                        || (c == 0x2028
                            || (c == 0x2029 || (c == 0x202F || (c == 0x205F || c == 0x3000)))))))))

unfoldable pub trim_start : List ℕ → List ℕ
trim_start [] = []
trim_start (c ∷ s) = let rest = trim_start s in if is_whitespace c then rest else c ∷ s

abbrev pub is_nil {ℓ} : {A : Type ℓ} → List A → Bool
is_nil [] = true
is_nil (_ ∷ _) = false

unfoldable pub trim_end : List ℕ → List ℕ
trim_end [] = []
trim_end (c ∷ s) = let rest = trim_end s in if is_nil rest && is_whitespace c then [] else c ∷ rest

unfoldable pub trim : List ℕ → List ℕ
trim s = trim_end (trim_start s)

-- `splitn(2, ',')`: the text, or its parts before and after the first comma.
unfoldable pub split_comma : List ℕ → List ℕ × Option (List ℕ)
split_comma [] = ([], none)
split_comma (c ∷ s) =
    let (before, after) = split_comma s in if c == b',' then ([], some s) else (c ∷ before, after)

-- A carriage return before the line feed goes with it.
unfoldable pub strip_cr : List ℕ → List ℕ
strip_cr [] = []
strip_cr (c ∷ []) = if c == 13 then [] else c ∷ []
strip_cr (c ∷ d ∷ s) = c ∷ strip_cr (d ∷ s)

-- `line` is what has been read of the current line.
unfoldable pub lines_from : List ℕ → List ℕ → List (List ℕ)
lines_from line [] = if is_nil line then [] else line ∷ []
lines_from line (c ∷ s) =
    let fresh = lines_from [] s in
    let same = lines_from (line ++ (c ∷ [])) s in if c == 10 then strip_cr line ∷ fresh else same

-- `BufRead::lines`
unfoldable pub lines : List ℕ → List (List ℕ)
lines s = lines_from [] s

-- `==` on texts.
abbrev pub same_text : List ℕ → List ℕ → Bool
same_text [] [] = true
same_text [] (_ ∷ _) = false
same_text (_ ∷ _) [] = false
same_text (c ∷ cs) (d ∷ ds) = c == d && same_text cs ds
