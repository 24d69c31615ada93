-- ===== src/Text/Same.antt =====
-- The comparison of texts decides their equality.
use rusty_comms.Prelude.{
  ℕ, ◌≡◌, ◌≢◌, refl, ap₂, Bool, true, false, ◌&&◌, List, [], ◌∷◌, ◌==◌, inl, inr, Bool-cases, arith,
}
use rusty_comms.Text.{same_text}

pub same_text_refl : (k : List ℕ) → same_text k k ≡ true
same_text_refl [] = refl
same_text_refl (c ∷ cs) = rw (same_text_refl cs) (ground arith)

both : (a b : Bool) → a && b ≡ true → (a ≡ true) × (b ≡ true)
both a b h = ground arith

eq-of : (c d : ℕ) → c == d ≡ true → c ≡ d
eq-of c d h = ground arith

pub same_text-eq : (j k : List ℕ) → same_text j k ≡ true → j ≡ k
same_text-eq [] [] h = refl
same_text-eq [] (_ ∷ _) h = absurd (ground arith)
same_text-eq (_ ∷ _) [] h = absurd (ground arith)
same_text-eq (c ∷ cs) (d ∷ ds) h =
    let (e, rest) = both (c == d) (same_text cs ds) h in
    ap₂ (λ x xs. x ∷ xs) (eq-of c d e) (same_text-eq cs ds rest)

pub same_text-false : (j k : List ℕ) → j ≢ k → same_text j k ≡ false
same_text-false j k ne = elim (Bool-cases (same_text j k)) [
  | inl e ↦ absurd (ne (same_text-eq j k e))
  | inr e ↦ e
]
