-- ===== src/Bytes/Copy.antt =====
-- `std::ptr::copy_nonoverlapping` and `copy_from_slice`, byte by byte.
use rusty_comms.Prelude.{
  ℕ, zero, suc, ◌+◌, ◌≡◌, refl, ap, ◌∙◌, arith, List, [], ◌∷◌, ◌++◌, length, get_or, set,
  length-set,
}

-- Writes `bytes` to `buf` from index `start` on.
unfoldable pub copy_in : List ℕ → ℕ → List ℕ → List ℕ
copy_in buf start [] = buf
copy_in buf start (b ∷ bs) = copy_in (set buf start b) (start + 1) bs

-- Reads `n` bytes of `buf` from index `start` on.
unfoldable pub copy_out : List ℕ → ℕ → ℕ → List ℕ
copy_out buf start zero = []
copy_out buf start (suc n) = get_or buf start 0 ∷ copy_out buf (start + 1) n

pub length-copy_in :
    (buf : List ℕ) (start : ℕ) (bs : List ℕ) → length (copy_in buf start bs) ≡ length buf
unfolding copy_in
length-copy_in buf start [] = refl
length-copy_in buf start (b ∷ bs) =
    length-copy_in (set buf start b) (start + 1) bs ∙ length-set buf start b

pub length-copy_out : (buf : List ℕ) (start n : ℕ) → length (copy_out buf start n) ≡ n
unfolding copy_out
length-copy_out buf start zero = refl
length-copy_out buf start (suc n) = ap suc (length-copy_out buf (start + 1) n)

pub copy_in-cons :
    (x : ℕ) (buf : List ℕ) (start : ℕ) (bs : List ℕ)
    → copy_in (x ∷ buf) (suc start) bs ≡ x ∷ copy_in buf start bs
unfolding copy_in
copy_in-cons x buf start [] = refl
copy_in-cons x buf start (b ∷ bs) =
    let e : suc start + 1 ≡ suc (start + 1) = omega arith in
    rw e (copy_in-cons x (set buf start b) (start + 1) bs)

-- Overwriting a middle part of the same length replaces exactly it.
pub copy_in-append :
    (front old back new : List ℕ) (start : ℕ)
    → start ≡ length front
    → length old ≡ length new
    → copy_in (front ++ (old ++ back)) start new ≡ front ++ (new ++ back)
copy_in-append [] [] back [] start e h = unfold copy_in in refl
copy_in-append [] [] back (n ∷ new) start e h = absurd (omega arith)
copy_in-append [] (o ∷ old) back [] start e h = absurd (omega arith)
copy_in-append [] (o ∷ old) back (n ∷ new) start e h =
    rw e (step ∙ ap (λ t. n ∷ t) (copy_in-append [] old back new 0 refl (omega arith)))
  where
    step : copy_in (o ∷ (old ++ back)) 0 (n ∷ new) ≡ n ∷ copy_in (old ++ back) 0 new
    step =
        unfold copy_in in
        let one : 0 + 1 ≡ suc 0 = refl in rw one (copy_in-cons n (old ++ back) 0 new)
copy_in-append (x ∷ front) old back new zero e h = absurd (omega arith)
copy_in-append (x ∷ front) old back new (suc start) e h =
    copy_in-cons x (front ++ (old ++ back)) start new
    ∙ ap (λ t. x ∷ t) (copy_in-append front old back new start (omega arith) h)
