-- ===== src/Text/Decimal.antt =====
-- Numbers printed and read back.
use rusty_comms.Prelude.{
  ℕ, zero, suc, ◌+◌, ◌*◌, ◌/◌, ◌%◌, ◌^◌, ◌≤◌, ◌<◌, ◌≡◌, ◌⊎◌, inl, inr, refl, sym, ap, subst, ◌∙◌,
  false, Bool-cases, some, List, [], ◌∷◌, arith, ltb, ltb→le, ltb→lt, All, IsU64,
}
use native.Mathlib.Nat.{pow-suc}
use rusty_comms.Text.{push_digits, decimal, read_digits, parse_u64}

abbrev pub IsDigit : ℕ → Type 0
IsDigit c = (b'0' ≤ c) × (c ≤ b'9')

-- As many rounds as the number has digits.
abbrev Enough : ℕ → ℕ → Type 0
Enough zero n = ⊥
Enough (suc rounds) n = (n < 10) ⊎ Enough rounds (n / 10)

ten_pow : (n : ℕ) → 10 ^ suc n ≡ 10 * 10 ^ n
ten_pow n = omega (arith, pow-suc 10 n)

Enough-pow : (rounds n : ℕ) → n < 10 ^ suc rounds → Enough (suc rounds) n
Enough-pow zero n h = inl (omega arith)
Enough-pow (suc rounds) n h = inr (Enough-pow rounds (n / 10) (omega (arith, ten_pow (suc rounds))))

read_digits-cons :
    (d n m : ℕ) (s : List ℕ)
    → d < 10
    → n * 10 + d ≡ m
    → m < 2 ^ 64
    → read_digits ((b'0' + d) ∷ s) n ≡ read_digits s m
unfolding read_digits
read_digits-cons d n m s h e small = ground arith

-- Reading the printed number up to `out` reads `out` after the number.
read_digits-push_digits :
    (rounds n : ℕ) (out : List ℕ)
    → Enough rounds n
    → IsU64 n
    → read_digits (push_digits rounds n out) 0 ≡ read_digits out n
unfolding push_digits
read_digits-push_digits zero n out h small = absurd h
read_digits-push_digits (suc rounds) n out h small = elim (Bool-cases (ltb n 10)) [
  | inl last ↦
      rw last
        (read_digits-cons (n % 10) 0 n out (omega arith) (omega (arith, ltb→lt n 10 last)) small)
  | inr more ↦ rw more (
      read_digits-push_digits rounds (n / 10) ((b'0' + n % 10) ∷ out) (others h more) (omega arith)
      ∙ read_digits-cons (n % 10) (n / 10) n out (omega arith) (omega arith) small)
]
  where
    others : Enough (suc rounds) n → ltb n 10 ≡ false → Enough rounds (n / 10)
    others (inl lt) e = absurd (omega (arith, ltb→le n 10 e))
    others (inr k) e = k

All-push_digits :
    (rounds n : ℕ) (out : List ℕ) → All IsDigit out → All IsDigit (push_digits rounds n out)
unfolding push_digits
All-push_digits zero n out h = h
All-push_digits (suc rounds) n out h = elim (Bool-cases (ltb n 10)) [
  | inl last ↦ rw last ((omega arith, omega arith), h)
  | inr more ↦
      rw more
        (All-push_digits rounds (n / 10) ((b'0' + n % 10) ∷ out) ((omega arith, omega arith), h))
]

pub All-decimal : (n : ℕ) → All IsDigit (decimal n)
unfolding decimal
All-decimal n = All-push_digits 20 n [] tt

push_digits-ne-nil :
    (rounds n c : ℕ) (s : List ℕ) → (d : ℕ) × (t : List ℕ) × (push_digits rounds n (c ∷ s) ≡ d ∷ t)
unfolding push_digits
push_digits-ne-nil zero n c s = (c, s, refl)
push_digits-ne-nil (suc rounds) n c s = elim (Bool-cases (ltb n 10)) [
  | inl last ↦ (b'0' + n % 10, c ∷ s, rw last refl)
  | inr more ↦ rw more (push_digits-ne-nil rounds (n / 10) (b'0' + n % 10) (c ∷ s))
]

pub decimal-cons : (n : ℕ) → (d : ℕ) × (t : List ℕ) × (decimal n ≡ d ∷ t)
unfolding decimal push_digits
decimal-cons n = elim (Bool-cases (ltb n 10)) [
  | inl last ↦ (b'0' + n % 10, [], rw last refl)
  | inr more ↦ rw more (push_digits-ne-nil 19 (n / 10) (b'0' + n % 10) [])
]

parse_u64-digits :
    (c : ℕ) (s : List ℕ) → All IsDigit (c ∷ s) → parse_u64 (c ∷ s) ≡ read_digits (c ∷ s) 0
unfolding parse_u64
parse_u64-digits c [] h = ground arith
parse_u64-digits c (d ∷ s) h = ground arith

-- Every `u64` is read back from its print.
pub parse_u64-decimal : (n : ℕ) → IsU64 n → parse_u64 (decimal n) ≡ some n
unfolding decimal read_digits
parse_u64-decimal n small =
    let (c, s, e) = decimal-cons n in
    ap parse_u64 e
    ∙ parse_u64-digits c s (subst (All IsDigit) e (All-decimal n))
    ∙ ap (λ t. read_digits t 0) (sym e)
    ∙ read_digits-push_digits 20 n [] (Enough-pow 19 n (omega arith)) small
