-- ===== src/Report/Ranking.antt =====
-- `max_by` and `min_by` of an iterator, over an order that is partial, like that of `f64`: a pair that
-- cannot be compared makes the call panic, which is `none`.
use rusty_comms.Prelude.{
  ◌≡◌, refl, sym, subst, ◌∙◌, Bool, true, false, Option, none, some, List, [], ◌∷◌, All, ◌⊎◌, inl,
  inr, arith,
}

pub data Ordering : Type 0 where
  less equal greater : Ordering

module _ {A B : Type 0} (partial_cmp : B → B → Option Ordering) (key : A → B) where
  -- Of two equal elements the later one is kept.
  unfoldable pub max_by : A → List A → Option A
  max_by m [] = some m
  max_by m (x ∷ xs) =
      let keep = max_by m xs in
      let take = max_by x xs in
      elim (partial_cmp (key m) (key x)) [
        | none ↦ none
        | some greater ↦ keep
        | some less ↦ take
        | some equal ↦ take
      ]

  -- Of two equal elements the earlier one is kept.
  unfoldable pub min_by : A → List A → Option A
  min_by m [] = some m
  min_by m (x ∷ xs) =
      let keep = min_by m xs in
      let take = min_by x xs in
      elim (partial_cmp (key m) (key x)) [
        | none ↦ none
        | some greater ↦ take
        | some less ↦ keep
        | some equal ↦ keep
      ]

abbrev pub at_most : Option Ordering → Bool
at_most none = false
at_most (some less) = true
at_most (some equal) = true
at_most (some greater) = false

-- What a comparison that is a total order of the values in `Number` satisfies, as that of floating-point
-- numbers does on all but NaN.
pub record Order (B : Type 0) : Type 1 where
  pub partial_cmp : B → B → Option Ordering
  pub Number : B → Type 0
  pub total :
      (a b : B)
      → Number a
      → Number b
      → (at_most (partial_cmp a b) ≡ true) ⊎ (partial_cmp a b ≡ some greater)
  pub flip : (a b : B) → partial_cmp a b ≡ some greater → at_most (partial_cmp b a) ≡ true
  pub at_most_trans :
      (a b c : B)
      → at_most (partial_cmp a b) ≡ true
      → at_most (partial_cmp b c) ≡ true
      → at_most (partial_cmp a c) ≡ true
  pub at_most_greater :
      (a b c : B)
      → at_most (partial_cmp a b) ≡ true
      → partial_cmp a c ≡ some greater
      → partial_cmp b c ≡ some greater

module _ {A B : Type 0} (order : Order B) (key : A → B) where
  open order use {partial_cmp, Number, total, flip, at_most_trans, at_most_greater}

  -- `a` is at most `b`, or greater.
  abbrev pub AtMost : A → A → Type 0
  AtMost a b = at_most (partial_cmp (key a) (key b)) ≡ true

  abbrev pub Greater : A → A → Type 0
  Greater a b = partial_cmp (key a) (key b) ≡ some greater

  -- The last element that none is greater than, and the first one that is greater than none.
  abbrev pub IsLastMax : A → List A → Type 0
  IsLastMax b [] = ⊥
  IsLastMax b (x ∷ xs) = ((b ≡ x) × All (Greater b) xs) ⊎ (AtMost x b × IsLastMax b xs)

  abbrev pub IsFirstMin : A → List A → Type 0
  IsFirstMin b [] = ⊥
  IsFirstMin b (x ∷ xs) = ((b ≡ x) × All (AtMost b) xs) ⊎ (Greater x b × IsFirstMin b xs)

  -- What a comparison of two numbers makes of the two continuations.
  max_by-keep :
      (m x : A) (xs : List A)
      → Greater m x
      → max_by partial_cmp key m (x ∷ xs) ≡ max_by partial_cmp key m xs
  unfolding max_by
  max_by-keep m x xs e = rw (e, max_by) refl

  max_by-take :
      (m x : A) (xs : List A)
      → AtMost m x
      → max_by partial_cmp key m (x ∷ xs) ≡ max_by partial_cmp key x xs
  unfolding max_by
  max_by-take m x xs e = ground arith

  min_by-take :
      (m x : A) (xs : List A)
      → Greater m x
      → min_by partial_cmp key m (x ∷ xs) ≡ min_by partial_cmp key x xs
  unfolding min_by
  min_by-take m x xs e = rw (e, min_by) refl

  min_by-keep :
      (m x : A) (xs : List A)
      → AtMost m x
      → min_by partial_cmp key m (x ∷ xs) ≡ min_by partial_cmp key m xs
  unfolding min_by
  min_by-keep m x xs e = ground arith

  abbrev Numbers : List A → Type 0
  Numbers xs = All (λ x. Number (key x)) xs

  -- `max_by` of numbers returns, and gives the last of the greatest.
  pub max_by-IsLastMax :
      (m : A) (xs : List A)
      → All (λ x. Number (key x)) (m ∷ xs)
      → (b : A) × (max_by partial_cmp key m xs ≡ some b) × IsLastMax b (m ∷ xs)
  unfolding max_by
  max_by-IsLastMax m [] h = (m, refl, inl (refl, tt))
  max_by-IsLastMax m (x ∷ xs) (hm, (hx, h)) = elim (total (key m) (key x) hm hx) [
    | inl le ↦
        let (b, e, best) = max_by-IsLastMax x xs (hx, h) in
        (b, max_by-take m x xs le ∙ e, inr (under b le best, best))
    | inr gt ↦
        let (b, e, best) = max_by-IsLastMax m xs (hm, h) in
        (b, max_by-keep m x xs gt ∙ e, passed b gt best)
  ]
    where
      under : (b : A) → AtMost m x → IsLastMax b (x ∷ xs) → AtMost m b
      under b le (inl (e, _)) = subst (AtMost m) (sym e) le
      under b le (inr (xb, _)) = at_most_trans (key m) (key x) (key b) le xb

      passed : (b : A) → Greater m x → IsLastMax b (m ∷ xs) → IsLastMax b (m ∷ x ∷ xs)
      passed b gt (inl (e, rest)) = inl (e, (subst (λ c. Greater c x) (sym e) gt, rest))
      passed b gt (inr (mb, rest)) =
          inr (mb, inr (at_most_trans (key x) (key m) (key b) (flip (key m) (key x) gt) mb, rest))

  -- `min_by` of numbers returns, and gives the first of the least.
  pub min_by-IsFirstMin :
      (m : A) (xs : List A)
      → All (λ x. Number (key x)) (m ∷ xs)
      → (b : A) × (min_by partial_cmp key m xs ≡ some b) × IsFirstMin b (m ∷ xs)
  unfolding min_by
  min_by-IsFirstMin m [] h = (m, refl, inl (refl, tt))
  min_by-IsFirstMin m (x ∷ xs) (hm, (hx, h)) = elim (total (key m) (key x) hm hx) [
    | inl le ↦
        let (b, e, best) = min_by-IsFirstMin m xs (hm, h) in
        (b, min_by-keep m x xs le ∙ e, passed b le best)
    | inr gt ↦
        let (b, e, best) = min_by-IsFirstMin x xs (hx, h) in
        (b, min_by-take m x xs gt ∙ e, inr (over b gt best, best))
  ]
    where
      over : (b : A) → Greater m x → IsFirstMin b (x ∷ xs) → Greater m b
      over b gt (inl (e, _)) = subst (Greater m) (sym e) gt
      over b gt (inr (xb, _)) = at_most_greater (key x) (key m) (key b) (flip (key m) (key x) gt) xb

      passed : (b : A) → AtMost m x → IsFirstMin b (m ∷ xs) → IsFirstMin b (m ∷ x ∷ xs)
      passed b le (inl (e, rest)) = inl (e, (subst (λ c. AtMost c x) (sym e) le, rest))
      passed b le (inr (mb, rest)) =
          inr (mb, inr (at_most_greater (key m) (key x) (key b) le mb, rest))
