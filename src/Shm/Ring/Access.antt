-- ===== src/Shm/Ring/Access.antt =====
-- The byte loops and the bulk copies of the ring buffer against `put` and `window`.
use rusty_comms.Prelude.{
  ℕ, zero, suc, ◌+◌, ◌-◌, ◌%◌, ◌^◌, ◌≤◌, ◌<◌, ◌≡◌, inl, inr, refl, sym, ap, ap₂, ◌∙◌, Bool-cases,
  List, [], ◌∷◌, ◌++◌, length, set, get_or, take, drop, arith, leb, leb→le, add_usize, sub_usize,
  length-take, length-drop, take-append-drop, false,
}
use rusty_comms.Bytes.Copy.{copy_in}
use rusty_comms.Bytes.Circular.{
  window, put, put-mod, put-append, window-mod, window-append, copy_in-eq-put, copy_out-eq-window,
}
use rusty_comms.Shm.Ring.{write_bytes, read_bytes, write_bulk, read_bulk}

-- Below 2 ^ 64 no index of the loop wraps.
pub write_bytes-eq-put :
    (buf : List ℕ) (cap pos i : ℕ) (bs : List ℕ)
    → pos + i + length bs ≤ 2 ^ 64
    → write_bytes buf cap pos i bs ≡ put buf cap (pos + i) bs
unfolding write_bytes put
write_bytes-eq-put buf cap pos i [] h = refl
write_bytes-eq-put buf cap pos i (b ∷ bs) h =
    ap (λ t. write_bytes (set buf (t % cap) b) cap pos (i + 1) bs) no_wrap
    ∙ write_bytes-eq-put (set buf ((pos + i) % cap) b) cap pos (i + 1) bs (omega arith)
    ∙ ap (λ t. put (set buf ((pos + i) % cap) b) cap t bs)
        (let e : pos + (i + 1) ≡ pos + i + 1 = omega arith in e)
  where
    no_wrap : add_usize pos i ≡ pos + i
    no_wrap = omega arith

pub read_bytes-eq-window :
    (buf : List ℕ) (cap pos i n : ℕ)
    → pos + i + n ≤ 2 ^ 64
    → read_bytes buf cap pos i n ≡ window buf cap (pos + i) n
unfolding read_bytes window
read_bytes-eq-window buf cap pos i zero h = refl
read_bytes-eq-window buf cap pos i (suc n) h = ap₂ ◌∷◌ (ap (λ t. get_or buf (t % cap) 0) no_wrap) (
    read_bytes-eq-window buf cap pos (i + 1) n (omega arith)
    ∙ ap (λ t. window buf cap t n) (let e : pos + (i + 1) ≡ pos + i + 1 = omega arith in e))
  where
    no_wrap : add_usize pos i ≡ pos + i
    no_wrap = omega arith

-- The end of the buffer is its start.
wraps-to-zero : (cap start m : ℕ) → start + m ≡ cap → 0 < cap → (start + m) % cap ≡ 0 % cap
wraps-to-zero cap start m e h = grind arith

pub write_bulk-eq-put :
    (buf : List ℕ) (cap start : ℕ) (bs : List ℕ)
    → start < cap
    → cap ≤ 2 ^ 62
    → length bs ≤ cap
    → write_bulk buf cap start bs ≡ put buf cap start bs
unfolding write_bulk
write_bulk-eq-put buf cap start bs hs hc hb =
    elim (Bool-cases (leb (add_usize start (length bs)) cap)) [
      | inl fits ↦ rw fits (copy_in-eq-put buf cap start bs (omega (arith, leb→le _ _ fits)))
      | inr round ↦
          rw (round, first_lem)
            (ap (λ t. copy_in t 0 (drop (cap - start) bs))
                (copy_in-eq-put buf cap start (take (cap - start) bs) (ground (arith, taken)))
              ∙ copy_in-eq-put (put buf cap start (take (cap - start) bs)) cap 0
                  (drop (cap - start) bs) (ground (arith, length-drop (cap - start) bs))
              ∙ put-mod (put buf cap start (take (cap - start) bs)) cap 0 (start + (cap - start))
                  (drop (cap - start) bs)
                  (sym (wraps-to-zero cap start (cap - start) (omega arith) (omega arith)))
              ∙ sym (
                  put-append buf cap start (start + (cap - start)) (take (cap - start) bs)
                    (drop (cap - start) bs) (ground (arith, taken)))
              ∙ ap (put buf cap start) (take-append-drop (cap - start) bs))
    ]
  where
    first_lem : sub_usize cap start ≡ cap - start
    first_lem = omega arith

    taken :
        (leb (add_usize start (length bs)) cap ≡ false)
        → length (take (cap - start) bs) ≡ cap - start
    taken e = length-take (cap - start) bs (ground arith)

pub read_bulk-eq-window :
    (buf : List ℕ) (cap start n : ℕ)
    → start < cap
    → cap ≤ 2 ^ 62
    → n ≤ cap
    → read_bulk buf cap start n ≡ window buf cap start n
unfolding read_bulk
read_bulk-eq-window buf cap start n hs hc hn = elim (Bool-cases (leb (add_usize start n) cap)) [
  | inl fits ↦ rw fits (copy_out-eq-window buf cap start n (omega (arith, leb→le _ _ fits)))
  | inr round ↦
      rw (round, first_lem, second_lem round)
        (ap₂ ◌++◌ (copy_out-eq-window buf cap start (cap - start) (omega arith)) (
            copy_out-eq-window buf cap 0 (n - (cap - start)) (omega arith)
            ∙ window-mod buf cap 0 (start + (cap - start)) (n - (cap - start))
                (sym (wraps-to-zero cap start (cap - start) (omega arith) (omega arith))))
          ∙ sym (window-append buf cap start (cap - start) (n - (cap - start)))
          ∙ ap (window buf cap start) (ground arith))
]
  where
    first_lem : sub_usize cap start ≡ cap - start
    first_lem = omega arith

    second_lem : leb (add_usize start n) cap ≡ false → sub_usize n (cap - start) ≡ n - (cap - start)
    second_lem e = ground arith
