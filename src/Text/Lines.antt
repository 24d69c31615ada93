-- ===== src/Text/Lines.antt =====
-- Trimming, splitting and cutting into lines leave printed numbers as they are.
use rusty_comms.Prelude.{
  ℕ, ◌≡◌, ◌⊎◌, inl, inr, refl, sym, ap, ◌∙◌, false, Bool-cases, some, List, [], ◌∷◌, ◌++◌,
  append_assoc, append-nil, arith, ◌==◌, All, All-map_rel,
}
use rusty_comms.Text.{
  is_whitespace, trim_start, trim_end, trim, is_nil, split_comma, strip_cr, lines_from, lines,
}
use rusty_comms.Text.Decimal.{IsDigit}

-- The characters of a line of numbers.
abbrev pub IsPlain : ℕ → Type 0
IsPlain c = IsDigit c ⊎ (c ≡ b',')

plain-IsBlack : (c : ℕ) → IsPlain c → is_whitespace c ≡ false
unfolding is_whitespace
plain-IsBlack c (inl h) = ground arith
plain-IsBlack c (inr h) = ground arith

abbrev pub IsBlack : ℕ → Type 0
IsBlack c = is_whitespace c ≡ false

trim_start_lem : (s : List ℕ) → All IsBlack s → trim_start s ≡ s
unfolding trim_start
trim_start_lem [] h = refl
trim_start_lem (c ∷ s) (p, h) = rw p refl

trim_end_lem : (s : List ℕ) → All IsBlack s → trim_end s ≡ s
unfolding trim_end
trim_end_lem [] h = refl
trim_end_lem (c ∷ s) (p, h) = elim (Bool-cases (is_nil s)) [
  | inl e ↦ rw (trim_end_lem s h, p, e) refl
  | inr e ↦ rw (trim_end_lem s h, p, e) refl
]

pub trim_black : (s : List ℕ) → All IsBlack s → trim s ≡ s
unfolding trim
trim_black s h = ap trim_end (trim_start_lem s h) ∙ trim_end_lem s h

pub trim_plain : (s : List ℕ) → All IsPlain s → trim s ≡ s
trim_plain s h = trim_black s (All-map_rel s plain-IsBlack h)

pub split_comma-append :
    (s t : List ℕ) → All IsDigit s → split_comma (s ++ (b',' ∷ t)) ≡ (s, some t)
unfolding split_comma
split_comma-append [] t h = refl
split_comma-append (c ∷ s) t (p, h) = rw (split_comma-append s t h) (ground arith)

strip_cr_lem : (s : List ℕ) → All IsPlain s → strip_cr s ≡ s
unfolding strip_cr
strip_cr_lem [] h = refl
strip_cr_lem (c ∷ []) (inl p, h) = ground arith
strip_cr_lem (c ∷ []) (inr p, h) = ground arith
strip_cr_lem (c ∷ d ∷ s) (p, h) = ap (λ t. c ∷ t) (strip_cr_lem (d ∷ s) h)

plain-ne-feed : (c : ℕ) → IsPlain c → (c == 10) ≡ false
plain-ne-feed c (inl p) = ground arith
plain-ne-feed c (inr p) = ground arith

lines_from-line :
    (line xs rest : List ℕ)
    → All IsPlain xs
    → lines_from line (xs ++ (10 ∷ rest)) ≡ strip_cr (line ++ xs) ∷ lines_from [] rest
unfolding lines_from
lines_from-line line [] rest h = ap (λ t. strip_cr t ∷ lines_from [] rest) (sym (append-nil line))
lines_from-line line (c ∷ xs) rest (p, h) = rw (plain-ne-feed c p) (
    lines_from-line (line ++ (c ∷ [])) xs rest h
    ∙ ap (λ t. strip_cr t ∷ lines_from [] rest) (append_assoc line (c ∷ []) xs))

-- The first line of a text of numbers.
pub lines-cons : (xs rest : List ℕ) → All IsPlain xs → lines (xs ++ (10 ∷ rest)) ≡ xs ∷ lines rest
unfolding lines
lines-cons xs rest h =
    lines_from-line [] xs rest h ∙ ap (λ t. t ∷ lines_from [] rest) (strip_cr_lem xs h)
