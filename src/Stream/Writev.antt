-- ===== src/Stream/Writev.antt =====
-- The vectored write of the Unix domain socket, src/ipc/unix_domain_socket_blocking.rs.
use rusty_comms.Prelude.{
  take-all, ℕ, suc, ◌+◌, ◌-◌, ◌≤◌, ◌<◌, ◌≡◌, sym, ap, ◌∙◌, false, some, List, [], ◌∷◌, ◌++◌, length,
  take, drop, append_assoc, length-append, length-take, length-drop, take-append-drop, arith, ltb,
  lt→ltb, le→ltb, ok, Bool-cases, inl, inr,
}
use rusty_comms.Ipc.Message.{Message}
use rusty_comms.Ipc.Bincode.{Bincode, wire}
use rusty_comms.Stream.{Conn, lift, prefix, writev, send_uds, send_tcp, prepare}
use rusty_comms.Stream.Framing.{
  frame, bind-ok, length-prefix, write_all-ok, prepare-wire, send_tcp-frame,
}

take-beyond : (xs ys : List ℕ) (k : ℕ) → take (length xs + k) (xs ++ ys) ≡ xs ++ take k ys
take-beyond [] ys k = ap (λ n. take n ys) (omega arith)
take-beyond (x ∷ xs) ys k =
    ap (λ n. take n ((x ∷ xs) ++ ys))
      (let e : length (x ∷ xs) + k ≡ suc (length xs + k) = omega arith in e)
    ∙ ap (λ t. x ∷ t) (take-beyond xs ys k)

-- The first part of the frame that the kernel took, and the rest that is written after it.
two_parts :
    (written : ℕ) (bs : List ℕ)
    → 4 ≤ written
    → take written (frame bs) ++ drop (written - 4) bs ≡ frame bs
two_parts written bs h =
    ap (λ n. take n (frame bs) ++ drop (written - 4) bs) split
    ∙ ap (λ t. t ++ drop (written - 4) bs) (take-beyond (prefix bs) bs (written - 4))
    ∙ append_assoc (prefix bs) (take (written - 4) bs) (drop (written - 4) bs)
    ∙ ap (λ t. prefix bs ++ t) (take-append-drop (written - 4) bs)
  where
    split : written ≡ length (prefix bs) + (written - 4)
    split = omega (arith, length-prefix bs)

length-frame : (bs : List ℕ) → length (frame bs) ≡ 4 + length bs
length-frame bs = omega (arith, length-append (prefix bs) bs, length-prefix bs)

writev-partial :
    (written : ℕ) (bs : List ℕ) (c : Conn)
    → c.broken ≡ false
    → written < 4 + length bs
    → writev (some written) bs c ≡ (
      ok tt,
      record c { outgoing = c.outgoing ++ (take written (frame bs) ++ drop (written - 4) bs) },
    )
unfolding writev
writev-partial written bs c e h = rw (lt→ltb written (4 + length bs) h) (
    write_all-ok (drop (written - 4) bs)
      (record c { outgoing = c.outgoing ++ take written (frame bs) }) e
    ∙ ap (λ t. (ok tt, record c { outgoing = t }))
        (append_assoc c.outgoing (take written (frame bs)) (drop (written - 4) bs)))

writev-whole :
    (written : ℕ) (bs : List ℕ) (c : Conn)
    → written ≡ 4 + length bs
    → writev (some written) bs c ≡ (ok tt, record c { outgoing = c.outgoing ++ frame bs })
unfolding writev
writev-whole written bs c h = rw (
  le→ltb written (4 + length bs) (omega arith),
  take-all written (frame bs) (omega (arith, length-frame bs)),
)

writev-frame :
    (written : ℕ) (bs : List ℕ) (c : Conn)
    → c.broken ≡ false
    → 4 ≤ written
    → written ≤ 4 + length bs
    → writev (some written) bs c ≡ (ok tt, record c { outgoing = c.outgoing ++ frame bs })
writev-frame written bs c e lo hi = elim (Bool-cases (ltb written (4 + length bs))) [
  | inl less ↦
      writev-partial written bs c e (ground arith)
      ∙ ap (λ t. (ok tt, record c { outgoing = c.outgoing ++ t })) (two_parts written bs lo)
  | inr all ↦ writev-whole written bs c (ground arith)
]

module _ (codec : Bincode) where
  -- When the vectored write of `send_blocking` takes at least the four bytes of the prefix, the Unix
  -- socket is left as the TCP one: the whole frame is written, however much of it the first call took.
  pub send_uds-eq-tcp :
      (written now : ℕ) (m : Message) (c : Conn)
      → c.broken ≡ false
      → 4 ≤ written
      → written ≤ 4 + length (wire codec (record m { timestamp = now }))
      → send_uds codec (some written) now m c ≡ send_tcp codec now m c
  unfolding send_uds
  send_uds-eq-tcp written now m c e lo hi =
      bind-ok (lift (prepare codec now m)) (writev (some written))
        (ap (λ r. (r, c)) (prepare-wire codec now m))
      ∙ writev-frame written (wire codec (record m { timestamp = now })) c e lo hi
      ∙ sym (send_tcp-frame codec now m c e)

  -- When the vectored write takes fewer than four bytes, `send_blocking` reports success, but the
  -- stream lacks the bytes of the prefix that the kernel did not take.
  pub send_uds_short :
      (written now : ℕ) (m : Message) (c : Conn)
      → c.broken ≡ false
      → written < 4
      → ((send_uds codec (some written) now m c).0 ≡ ok tt)
        × (length (send_uds codec (some written) now m c).1.outgoing + (4 - written)
            ≡ length (send_tcp codec now m c).1.outgoing)
  unfolding send_uds
  send_uds_short written now m c e h = (
    ap (λ p. p.0) sent,
    ap (λ p. length p.1.outgoing + (4 - written)) sent
        ∙ count
        ∙ sym (ap (λ p. length p.1.outgoing) (send_tcp-frame codec now m c e)),
  )
    where
      bs : List ℕ
      bs = wire codec (record m { timestamp = now })

      sent : send_uds codec (some written) now m c ≡ (
        ok tt,
        record c { outgoing = c.outgoing ++ (take written (frame bs) ++ drop (written - 4) bs) },
      )
      sent =
          bind-ok (lift (prepare codec now m)) (writev (some written))
            (ap (λ r. (r, c)) (prepare-wire codec now m))
          ∙ writev-partial written bs c e (omega arith)

      count :
          length (c.outgoing ++ (take written (frame bs) ++ drop (written - 4) bs)) + (4 - written)
          ≡ length (c.outgoing ++ frame bs)
      count = omega (
        arith,
        length-append c.outgoing (take written (frame bs) ++ drop (written - 4) bs),
        length-append (take written (frame bs)) (drop (written - 4) bs),
        length-take written (frame bs) (omega (arith, length-frame bs)),
        length-drop (written - 4) bs,
        length-append c.outgoing (frame bs),
        length-frame bs,
      )
