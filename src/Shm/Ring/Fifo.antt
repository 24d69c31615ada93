-- ===== src/Shm/Ring/Fifo.antt =====
-- The ring buffer refines a queue of byte strings: `Holds r q` says that the stored bytes of `r`
-- are the framed messages of `q`, oldest first.
use rusty_comms.Prelude.{
  ℕ, ◌+◌, ◌%◌, ◌^◌, ◌≤◌, ◌≡◌, refl, sym, ap, ap₂, ◌∙◌, List, [], ◌∷◌, ◌++◌, length, All, arith, ltb,
  mod-eq_of_lt, mod-mod, false, length-append, append_assoc, append-nil, append_cancel, All-append,
  IsU32,
}
use rusty_comms.Bytes.Endian.{length-to_le_bytes, from_le_bytes, u32_round_trip}
use rusty_comms.Bytes.Circular.{
  window, put, put-mod, window-mod, window-append, window-put, window-put_self, length-put,
  length-window,
}
use rusty_comms.Shm.Ring.{
  SharedMemoryRingBuffer, store_bulk, required_space, publish, consume, available_write_space,
  available_read_data, peek_len, len_bytes, payload_bulk,
}
use rusty_comms.Shm.Ring.Space.{
  IsValid, space_lem, write_pos_lem, read_data-publish, read_data-consume, read_data-lt-capacity,
}
use rusty_comms.Shm.Ring.Equiv.{
  frame, store_bulk-put, fits_lem, peek_len-bytes, payload_bulk-window,
}

abbrev pub frames : List (List ℕ) → List ℕ
frames [] = []
frames (d ∷ ds) = frame d ++ frames ds

-- The bytes that a queue needs: each message and a prefix of four bytes.
abbrev pub size : List (List ℕ) → ℕ
size [] = 0
size (d ∷ ds) = length d + 4 + size ds

pub record Holds (r : SharedMemoryRingBuffer) (q : List (List ℕ)) : Type 0 where
  pub valid : IsValid r
  pub bytes : window r.buf r.capacity r.read_pos (available_read_data r) ≡ frames q
  pub sized : All (λ d. IsU32 (length d)) q

pub length-frame : (d : List ℕ) → length (frame d) ≡ length d + 4
length-frame d =
    omega (arith, length-append (len_bytes d) d, length-to_le_bytes 4 (length d % 2 ^ 32))

pub length-frames : (q : List (List ℕ)) → length (frames q) ≡ size q
length-frames [] = refl
length-frames (d ∷ q) =
    omega (arith, length-append (frame d) (frames q), length-frame d, length-frames q)

frames-append : (q : List (List ℕ)) (d : List ℕ) → frames (q ++ (d ∷ [])) ≡ frames q ++ frame d
frames-append [] d = append-nil (frame d)
frames-append (c ∷ q) d =
    ap (λ t. frame c ++ t) (frames-append q d) ∙ sym (append_assoc (frame c) (frames q) (frame d))

-- The stored bytes are as many as the queue needs.
pub available_read_data-size :
    {r : SharedMemoryRingBuffer} {q : List (List ℕ)} → Holds r q → available_read_data r ≡ size q
available_read_data-size {r} {q} h =
    sym (length-window r.buf r.capacity r.read_pos (available_read_data r))
    ∙ ap length h.bytes
    ∙ length-frames q

module _ {r : SharedMemoryRingBuffer} {q : List (List ℕ)} (h : Holds r q) where
  -- Writing a frame behind the stored bytes.
  window-write :
      (d : List ℕ)
      → length d + 4 ≤ available_write_space r
      → window
          (put r.buf r.capacity r.write_pos (frame d))
          r.capacity
          r.read_pos
          (available_read_data r + (length d + 4))
        ≡ frames (q ++ (d ∷ []))
  window-write d fits =
      rw (put-mod r.buf r.capacity r.write_pos (r.read_pos + available_read_data r) (frame d) same)
        (window-append _ r.capacity r.read_pos (available_read_data r) (length d + 4)
          ∙ ap₂ ◌++◌
              (window-put r.buf r.capacity r.read_pos (available_read_data r)
                  (r.read_pos + available_read_data r) (frame d) (omega arith)
                  (omega (arith, space_lem h.valid, length-frame d))
                ∙ h.bytes)
              (ap
                  (window (put r.buf r.capacity (r.read_pos + available_read_data r) (frame d))
                    r.capacity (r.read_pos + available_read_data r))
                  (sym (length-frame d))
                ∙ window-put_self r.buf r.capacity (r.read_pos + available_read_data r) (frame d)
                    h.valid.nonempty (omega (arith, h.valid.storage))
                    (omega (arith, space_lem h.valid, length-frame d)))
          ∙ sym (frames-append q d))
    where
      same : r.write_pos % r.capacity ≡ (r.read_pos + available_read_data r) % r.capacity
      same = mod-eq_of_lt h.valid.write_in ∙ sym (write_pos_lem h.valid)

  pub store_bulk-Holds :
      (d : List ℕ)
      → IsU32 (length d)
      → ltb (available_write_space r) (required_space d) ≡ false
      → Holds (store_bulk r d) (q ++ (d ∷ []))
  unfolding publish
  store_bulk-Holds d small fits =
      let (short, req, space) = fits_lem h.valid d (omega arith) fits in
      let buf' = put r.buf r.capacity r.write_pos (frame d) in
      let (valid', used') =
        read_data-publish r buf' (length d + 4) h.valid
          (length-put r.buf r.capacity r.write_pos (frame d) ∙ h.valid.storage) space in
      rw (store_bulk-put h.valid d short, req)
        (record {
          valid = valid';
          bytes = ap (window buf' r.capacity r.read_pos) used' ∙ window-write d space;
          sized = All-append (d ∷ []) q _ (small, tt) h.sized;
        })

module _ {r : SharedMemoryRingBuffer} {d : List ℕ} {q : List (List ℕ)} (h : Holds r (d ∷ q)) where
  -- The stored bytes in three runs: the prefix, the oldest message, the rest.
  three_runs :
      (window r.buf r.capacity r.read_pos 4 ≡ len_bytes d)
      × (window r.buf r.capacity (r.read_pos + 4) (length d) ≡ d)
      × (window r.buf r.capacity (r.read_pos + 4 + length d) (size q) ≡ frames q)
  three_runs =
      let (a, rest) =
        append_cancel (window r.buf r.capacity r.read_pos 4) (len_bytes d)
          (length-window r.buf r.capacity r.read_pos 4
            ∙ sym (length-to_le_bytes 4 (length d % 2 ^ 32)))
          whole in
      let (b, c) =
        append_cancel (window r.buf r.capacity (r.read_pos + 4) (length d)) d
          (length-window r.buf r.capacity (r.read_pos + 4) (length d)) rest in
      (a, b, c)
    where
      whole :
          window r.buf r.capacity r.read_pos 4
            ++ (window r.buf r.capacity (r.read_pos + 4) (length d)
                ++ window r.buf r.capacity (r.read_pos + 4 + length d) (size q))
          ≡ len_bytes d ++ (d ++ frames q)
      whole =
          sym (
            ap (λ t. window r.buf r.capacity r.read_pos 4 ++ t)
              (window-append r.buf r.capacity (r.read_pos + 4) (length d) (size q)))
          ∙ sym (window-append r.buf r.capacity r.read_pos 4 (length d + size q))
          ∙ ap (window r.buf r.capacity r.read_pos) (omega (arith, available_read_data-size h))
          ∙ h.bytes
          ∙ append_assoc (len_bytes d) d (frames q)

  pub peek_len-head : peek_len r ≡ length d
  unfolding peek_len
  peek_len-head =
      ap from_le_bytes (peek_len-bytes h.valid ∙ three_runs.0) ∙ u32_round_trip (length d) h.sized.0

  pub enough : length d + 4 ≤ available_read_data r
  enough = omega (arith, available_read_data-size h)

  pub short : length d ≤ r.capacity
  short = omega (arith, enough, read_data-lt-capacity h.valid)

  pub payload-head : payload_bulk r (length d) ≡ d
  payload-head = payload_bulk-window h.valid (length d) short ∙ three_runs.1

  pub consume-Holds : Holds (consume r (length d)) q
  unfolding consume
  consume-Holds =
      let (valid', used', pos') = read_data-consume r (length d) h.valid enough in
      record {
        valid = valid';
        bytes =
            ap (window r.buf r.capacity (consume r (length d)).read_pos)
              (omega (arith, used', available_read_data-size h))
            ∙ window-mod r.buf r.capacity (consume r (length d)).read_pos
                (r.read_pos + 4 + length d) (size q)
                (ap (λ t. t % r.capacity) pos'
                  ∙ mod-mod (r.read_pos + (length d + 4)) r.capacity
                  ∙ ap (λ t. t % r.capacity) (omega arith))
            ∙ three_runs.2;
        sized = h.sized.1;
      }
