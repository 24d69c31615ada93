-- ===== src/Bytes/Circular.antt =====
-- A buffer of `cap` bytes used round its end: position `p` stands for index `p % cap`.
-- `window` and `put` are the reference definitions of reading and writing a run of positions.
use rusty_comms.Prelude.{
  ℕ, zero, suc, ◌+◌, ◌-◌, ◌%◌, ◌≤◌, ◌<◌, ◌≡◌, ◌≢◌, refl, sym, ap, ap₂, ◌∙◌, arith, List, [], ◌∷◌,
  ◌++◌, length, get_or, set, length-set, get_or-set_self, get_or-set_ne, mod-add-mod, mod-eq_of_lt,
  mod-eq-sub-mod, dec_lt,
}
use rusty_comms.Bytes.Copy.{copy_in, copy_out}

unfoldable pub window : List ℕ → ℕ → ℕ → ℕ → List ℕ
window buf cap h zero = []
window buf cap h (suc n) = get_or buf (h % cap) 0 ∷ window buf cap (h + 1) n

unfoldable pub put : List ℕ → ℕ → ℕ → List ℕ → List ℕ
put buf cap h [] = buf
put buf cap h (b ∷ bs) = put (set buf (h % cap) b) cap (h + 1) bs

pub length-window : (buf : List ℕ) (cap h n : ℕ) → length (window buf cap h n) ≡ n
unfolding window
length-window buf cap h zero = refl
length-window buf cap h (suc n) = ap suc (length-window buf cap (h + 1) n)

pub length-put : (buf : List ℕ) (cap h : ℕ) (bs : List ℕ) → length (put buf cap h bs) ≡ length buf
unfolding put
length-put buf cap h [] = refl
length-put buf cap h (b ∷ bs) =
    length-put (set buf (h % cap) b) cap (h + 1) bs ∙ length-set buf (h % cap) b

-- Two positions less than `cap` apart have different indices.
near-ne : (cap r k : ℕ) → r < cap → 0 < k → k < cap → (r + k) % cap ≢ r
near-ne cap r k hr hk hc = elim (dec_lt (r + k) cap) [
  | yes p ↦ omega (arith, mod-eq_of_lt p)
  | no p ↦ omega (
    arith,
    mod-eq-sub-mod {n = r + k} {m = cap} (omega arith),
    mod-eq_of_lt {n = r + k - cap} {m = cap} (omega arith),
  )
]

pub mod-ne : (cap i j : ℕ) → i < j → j < i + cap → j % cap ≢ i % cap
mod-ne cap i j hij hji e =
    near-ne cap (i % cap) (j - i) (omega arith) (omega arith) (omega arith) step
  where
    step : (i % cap + (j - i)) % cap ≡ i % cap
    step =
        mod-add-mod i cap (j - i)
        ∙ ap (λ t. t % cap) (let q : i + (j - i) ≡ j = omega arith in q)
        ∙ e

-- A write behind a run of positions leaves the run alone.
pub window-set :
    (buf : List ℕ) (cap h n j v : ℕ)
    → h + n ≤ j
    → j < h + cap
    → window (set buf (j % cap) v) cap h n ≡ window buf cap h n
unfolding window
window-set buf cap h zero j v lo hi = refl
window-set buf cap h (suc n) j v lo hi =
    ap₂ ◌∷◌ (get_or-set_ne buf (j % cap) (h % cap) v 0 (mod-ne cap h j (omega arith) hi))
      (window-set buf cap (h + 1) n j v (omega arith) (omega arith))

pub window-put :
    (buf : List ℕ) (cap h n j : ℕ) (bs : List ℕ)
    → h + n ≤ j
    → j + length bs ≤ h + cap
    → window (put buf cap j bs) cap h n ≡ window buf cap h n
unfolding put
window-put buf cap h n j [] lo hi = refl
window-put buf cap h n j (b ∷ bs) lo hi =
    window-put (set buf (j % cap) b) cap h n (j + 1) bs (omega arith) (omega arith)
    ∙ window-set buf cap h n j b lo (omega arith)

window-one : (buf : List ℕ) (cap h : ℕ) → window buf cap h 1 ≡ get_or buf (h % cap) 0 ∷ []
unfolding window
window-one buf cap h = refl

head-eq : {a b : ℕ} → ◌≡◌ {A = List ℕ} (a ∷ []) (b ∷ []) → a ≡ b
head-eq e = cc

-- What was put is read back.
pub window-put_self :
    (buf : List ℕ) (cap h : ℕ) (bs : List ℕ)
    → 0 < cap
    → cap ≤ length buf
    → length bs ≤ cap
    → window (put buf cap h bs) cap h (length bs) ≡ bs
unfolding window put
window-put_self buf cap h [] pos fits hb = refl
window-put_self buf cap h (b ∷ bs) pos fits hb =
    ap₂ ◌∷◌ (first ∙ get_or-set_self buf (h % cap) b 0 (omega arith)) (
      window-put_self (set buf (h % cap) b) cap (h + 1) bs pos
        (omega (arith, length-set buf (h % cap) b)) (omega arith))
  where
    first :
        get_or (put (set buf (h % cap) b) cap (h + 1) bs) (h % cap) 0
        ≡ get_or (set buf (h % cap) b) (h % cap) 0
    first =
        head-eq (window-put (set buf (h % cap) b) cap h 1 (h + 1) bs (omega arith) (omega arith))

pub window-append :
    (buf : List ℕ) (cap h m n : ℕ)
    → window buf cap h (m + n) ≡ window buf cap h m ++ window buf cap (h + m) n
unfolding window
window-append buf cap h zero n =
    let e : 0 + n ≡ n = omega arith in let f : h + 0 ≡ h = omega arith in rw (e, f) refl
window-append buf cap h (suc m) n =
    ap (window buf cap h) (let e : suc m + n ≡ suc (m + n) = omega arith in e)
    ∙ ap (λ t. get_or buf (h % cap) 0 ∷ t) (window-append buf cap (h + 1) m n)
    ∙ ap (λ t. get_or buf (h % cap) 0 ∷ (window buf cap (h + 1) m ++ window buf cap t n))
        (let f : h + 1 + m ≡ h + suc m = omega arith in f)

-- Positions matter only modulo the capacity.
pub window-mod :
    (buf : List ℕ) (cap h k n : ℕ) → h % cap ≡ k % cap → window buf cap h n ≡ window buf cap k n
unfolding window
window-mod buf cap h k zero e = refl
window-mod buf cap h k (suc n) e =
    ap₂ ◌∷◌ (ap (λ t. get_or buf t 0) e) (window-mod buf cap (h + 1) (k + 1) n next)
  where
    next : (h + 1) % cap ≡ (k + 1) % cap
    next = sym (mod-add-mod h cap 1) ∙ ap (λ t. (t + 1) % cap) e ∙ mod-add-mod k cap 1

pub put-mod :
    (buf : List ℕ) (cap h k : ℕ) (bs : List ℕ)
    → h % cap ≡ k % cap
    → put buf cap h bs ≡ put buf cap k bs
unfolding put
put-mod buf cap h k [] e = refl
put-mod buf cap h k (b ∷ bs) e =
    ap (λ t. put (set buf t b) cap (h + 1) bs) e
    ∙ put-mod (set buf (k % cap) b) cap (h + 1) (k + 1) bs next
  where
    next : (h + 1) % cap ≡ (k + 1) % cap
    next = sym (mod-add-mod h cap 1) ∙ ap (λ t. (t + 1) % cap) e ∙ mod-add-mod k cap 1

pub put-append :
    (buf : List ℕ) (cap h k : ℕ) (xs ys : List ℕ)
    → k ≡ h + length xs
    → put buf cap h (xs ++ ys) ≡ put (put buf cap h xs) cap k ys
unfolding put
put-append buf cap h k [] ys e = ap (λ t. put buf cap t ys) (omega arith)
put-append buf cap h k (x ∷ xs) ys e =
    put-append (set buf (h % cap) x) cap (h + 1) k xs ys (omega arith)

-- Below the end of the buffer a run of positions is a run of indices.
pub copy_in-eq-put :
    (buf : List ℕ) (cap start : ℕ) (bs : List ℕ)
    → start + length bs ≤ cap
    → copy_in buf start bs ≡ put buf cap start bs
unfolding copy_in put
copy_in-eq-put buf cap start [] h = refl
copy_in-eq-put buf cap start (b ∷ bs) h =
    rw (mod-eq_of_lt {n = start} {m = cap} (omega arith))
      (copy_in-eq-put (set buf start b) cap (start + 1) bs (omega arith))

pub copy_out-eq-window :
    (buf : List ℕ) (cap start n : ℕ)
    → start + n ≤ cap
    → copy_out buf start n ≡ window buf cap start n
unfolding copy_out window
copy_out-eq-window buf cap start zero h = refl
copy_out-eq-window buf cap start (suc n) h =
    ap₂ ◌∷◌ (ap (λ t. get_or buf t 0) (sym (mod-eq_of_lt {n = start} {m = cap} (omega arith))))
      (copy_out-eq-window buf cap (start + 1) n (omega arith))
