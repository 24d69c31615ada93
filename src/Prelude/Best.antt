-- ===== src/Prelude/Best.antt =====
-- The least or the greatest of a list of numbers: `pick` chooses one of two, which is then `Over` both.
use Prim.Native.Nat.{ℕ, ◌≤◌, min, max}
use mathlib.Core.Path.{◌≡◌, refl, sym, ◌∙◌, subst}
use mathlib.Core.Logic.{◌⊎◌, inl, inr}
use mathlib.Core.List.{List, [], ◌∷◌, ◌++◌}
use native.Mathlib.Omega.{arith}
use rusty_comms.Prelude.Lists.{All, All-append, All-map_rel}

abbrev pub Among : ℕ → List ℕ → Type 0
Among k [] = ⊥
Among k (x ∷ xs) = (k ≡ x) ⊎ Among k xs

pub Among-append_left : (k : ℕ) (xs ys : List ℕ) → Among k xs → Among k (xs ++ ys)
Among-append_left k [] ys h = absurd h
Among-append_left k (x ∷ xs) ys (inl e) = inl e
Among-append_left k (x ∷ xs) ys (inr h) = inr (Among-append_left k xs ys h)

pub Among-append_right : (k : ℕ) (xs ys : List ℕ) → Among k ys → Among k (xs ++ ys)
Among-append_right k [] ys h = h
Among-append_right k (x ∷ xs) ys h = inr (Among-append_right k xs ys h)

pub record Choice : Type 1 where
  pub pick : ℕ → ℕ → ℕ
  pub Over : ℕ → ℕ → Type 0
  pub over_self : (a : ℕ) → Over a a
  pub over_left : (a b : ℕ) → Over (pick a b) a
  pub over_right : (a b : ℕ) → Over (pick a b) b
  pub over_trans : {a b c : ℕ} → Over a b → Over b c → Over a c
  pub picks : (a b : ℕ) → (pick a b ≡ a) ⊎ (pick a b ≡ b)

pub min_picks : (a b : ℕ) → (min a b ≡ a) ⊎ (min a b ≡ b)
min_picks a b = ground arith

pub max_picks : (a b : ℕ) → (max a b ≡ a) ⊎ (max a b ≡ b)
max_picks a b = ground arith

abbrev pub least : Choice
least = record {
  pick = min;
  Over = λ a b. a ≤ b;
  over_self = λ a. omega arith;
  over_left = λ a b. omega arith;
  over_right = λ a b. omega arith;
  over_trans = λ p q. omega arith;
  picks = min_picks;
}

abbrev pub greatest : Choice
greatest = record {
  pick = max;
  Over = λ a b. b ≤ a;
  over_self = λ a. omega arith;
  over_left = λ a b. omega arith;
  over_right = λ a b. omega arith;
  over_trans = λ p q. omega arith;
  picks = max_picks;
}

module _ (choice : Choice) where
  open choice use {pick, Over, over_self, over_left, over_right, over_trans, picks}

  -- `iter().min()`, or `max()`, from a first element.
  abbrev pub best : ℕ → List ℕ → ℕ
  best m [] = m
  best m (x ∷ xs) = best (pick m x) xs

  -- The extreme element of the list.
  abbrev pub IsBest : ℕ → List ℕ → Type 0
  IsBest k xs = All (Over k) xs × Among k xs

  pub best-IsBest : (m : ℕ) (xs : List ℕ) → IsBest (best m xs) (m ∷ xs)
  best-IsBest m [] = ((over_self m, tt), inl refl)
  best-IsBest m (x ∷ xs) =
      let ((over, rest), among) = best-IsBest (pick m x) xs in
      ((over_trans over (over_left m x), (over_trans over (over_right m x), rest)), found among)
    where
      found : Among (best (pick m x) xs) (pick m x ∷ xs) → Among (best (pick m x) xs) (m ∷ x ∷ xs)
      found (inl e) = elim (picks m x) [ inl l ↦ inl (e ∙ l) | inr r ↦ inr (inl (e ∙ r)) ]
      found (inr h) = inr (inr h)

  -- Two extremes combine to that of the concatenation.
  pub IsBest-append :
      (a b : ℕ) (xs ys : List ℕ) → IsBest a xs → IsBest b ys → IsBest (pick a b) (xs ++ ys)
  IsBest-append a b xs ys (over_xs, in_xs) (over_ys, in_ys) = (
    All-append ys xs (Over (pick a b))
        (All-map_rel ys (λ x h. over_trans (over_right a b) h) over_ys)
        (All-map_rel xs (λ x h. over_trans (over_left a b) h) over_xs),
    elim (picks a b) [
      | inl l ↦ subst (λ k. Among k (xs ++ ys)) (sym l) (Among-append_left a xs ys in_xs)
      | inr r ↦ subst (λ k. Among k (xs ++ ys)) (sym r) (Among-append_right b xs ys in_ys)
    ],
  )
