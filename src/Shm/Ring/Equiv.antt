-- ===== src/Shm/Ring/Equiv.antt =====
-- The bulk copies of src/ipc/shared_memory.rs do what the byte loops of
-- src/ipc/shared_memory_blocking.rs do.
use rusty_comms.Prelude.{
  ℕ, ◌+◌, ◌%◌, ◌^◌, ◌≤◌, ◌<◌, ◌≡◌, sym, ap, ◌∙◌, Bool-cases, inl, inr, List, ◌++◌, length, arith,
  ltb, add_usize, mod-mod, false, ok,
}
use rusty_comms.Bytes.Endian.{length-to_le_bytes}
use rusty_comms.Bytes.Circular.{window, put, put-mod, put-append, window-mod}
use rusty_comms.Shm.Ring.{
  SharedMemoryRingBuffer, write_bytes, read_bytes, store_bulk, store_loop, len_bytes, payload_bulk,
  payload_loop, write_data, write_data_loop, read_data, read_data_loop, required_space, publish,
  available_write_space, peek_len,
}
use rusty_comms.Shm.Ring.Space.{IsValid, space_lem}
use rusty_comms.Shm.Ring.Access.{
  write_bytes-eq-put, read_bytes-eq-window, write_bulk-eq-put, read_bulk-eq-window,
}

-- What a message occupies in the buffer: its length in four bytes, then itself.
abbrev pub frame : List ℕ → List ℕ
frame bs = len_bytes bs ++ bs

module _ {r : SharedMemoryRingBuffer} (v : IsValid r) where
  prefix_lem :
      (bs : List ℕ)
      → write_bytes r.buf r.capacity r.write_pos 0 (len_bytes bs)
        ≡ put r.buf r.capacity r.write_pos (len_bytes bs)
  prefix_lem bs =
      write_bytes-eq-put r.buf r.capacity r.write_pos 0 (len_bytes bs)
        (omega (arith, length-to_le_bytes 4 (length bs % 2 ^ 32), v.small, v.write_in))
      ∙ ap (λ t. put r.buf r.capacity t (len_bytes bs))
          (let e : r.write_pos + 0 ≡ r.write_pos = omega arith in e)

  put-frame :
      (bs : List ℕ)
      → put (put r.buf r.capacity r.write_pos (len_bytes bs)) r.capacity (r.write_pos + 4) bs
        ≡ put r.buf r.capacity r.write_pos (frame bs)
  put-frame bs = sym (
      put-append r.buf r.capacity r.write_pos (r.write_pos + 4) (len_bytes bs) bs
        (omega (arith, length-to_le_bytes 4 (length bs % 2 ^ 32))))

  no_wrap : add_usize r.write_pos 4 ≡ r.write_pos + 4
  no_wrap = omega (arith, v.small, v.write_in)

  no_wrap_read : add_usize r.read_pos 4 ≡ r.read_pos + 4
  no_wrap_read = omega (arith, v.small, v.read_in)

  pub store_loop-put :
      (bs : List ℕ)
      → length bs ≤ r.capacity
      → store_loop r bs
        ≡ publish r (put r.buf r.capacity r.write_pos (frame bs)) (required_space bs)
  unfolding store_loop
  store_loop-put bs h =
      ap (λ t. publish r t (required_space bs))
        (rw (prefix_lem bs, no_wrap)
          (write_bytes-eq-put (put r.buf r.capacity r.write_pos (len_bytes bs)) r.capacity
              (r.write_pos + 4) 0 bs (omega (arith, v.small, v.write_in))
            ∙ ap (λ t. put (put r.buf r.capacity r.write_pos (len_bytes bs)) r.capacity t bs)
                (let e : r.write_pos + 4 + 0 ≡ r.write_pos + 4 = omega arith in e)
            ∙ put-frame bs))

  pub store_bulk-put :
      (bs : List ℕ)
      → length bs ≤ r.capacity
      → store_bulk r bs
        ≡ publish r (put r.buf r.capacity r.write_pos (frame bs)) (required_space bs)
  unfolding store_bulk
  store_bulk-put bs h =
      ap (λ t. publish r t (required_space bs))
        (rw (prefix_lem bs, no_wrap)
          (write_bulk-eq-put (put r.buf r.capacity r.write_pos (len_bytes bs)) r.capacity
              ((r.write_pos + 4) % r.capacity) bs (omega (arith, v.nonempty)) v.small h
            ∙ put-mod (put r.buf r.capacity r.write_pos (len_bytes bs)) r.capacity
                ((r.write_pos + 4) % r.capacity) (r.write_pos + 4) bs
                (mod-mod (r.write_pos + 4) r.capacity)
            ∙ put-frame bs))

  pub peek_len-bytes :
      read_bytes r.buf r.capacity r.read_pos 0 4 ≡ window r.buf r.capacity r.read_pos 4
  peek_len-bytes =
      read_bytes-eq-window r.buf r.capacity r.read_pos 0 4 (omega (arith, v.small, v.read_in))
      ∙ ap (λ t. window r.buf r.capacity t 4)
          (let e : r.read_pos + 0 ≡ r.read_pos = omega arith in e)

  pub payload_loop-window :
      (n : ℕ) → n ≤ r.capacity → payload_loop r n ≡ window r.buf r.capacity (r.read_pos + 4) n
  payload_loop-window n h = rw no_wrap_read (
      read_bytes-eq-window r.buf r.capacity (r.read_pos + 4) 0 n (omega (arith, v.small, v.read_in))
      ∙ ap (λ t. window r.buf r.capacity t n)
          (let e : r.read_pos + 4 + 0 ≡ r.read_pos + 4 = omega arith in e))

  pub payload_bulk-window :
      (n : ℕ) → n ≤ r.capacity → payload_bulk r n ≡ window r.buf r.capacity (r.read_pos + 4) n
  payload_bulk-window n h = rw no_wrap_read (
      read_bulk-eq-window r.buf r.capacity ((r.read_pos + 4) % r.capacity) n
        (omega (arith, v.nonempty)) v.small h
      ∙ window-mod r.buf r.capacity ((r.read_pos + 4) % r.capacity) (r.read_pos + 4) n
          (mod-mod (r.read_pos + 4) r.capacity))

  -- A payload that passes the writer's space test is shorter than the buffer.
  pub fits_lem :
      (bs : List ℕ)
      → length bs < 2 ^ 63
      → ltb (available_write_space r) (required_space bs) ≡ false
      → (length bs ≤ r.capacity)
        × (required_space bs ≡ length bs + 4)
        × (length bs + 4 ≤ available_write_space r)
  fits_lem bs h e = ground (arith, space_lem v)

  -- The two writers return the same buffer, or the same error, on a valid buffer and any slice
  -- (a Rust slice has fewer than 2^63 bytes).
  pub write_data-eq-loop :
      (bs : List ℕ) → length bs < 2 ^ 63 → write_data r bs ≡ write_data_loop r bs
  unfolding write_data write_data_loop
  write_data-eq-loop bs h = elim (Bool-cases (ltb (available_write_space r) (required_space bs))) [
    | inl full ↦ rw full
    | inr fits ↦
        let (short, _, _) = fits_lem bs h fits in
        rw fits (ap ok (store_bulk-put bs short ∙ sym (store_loop-put bs short)))
  ]

  -- The two readers return the same message and buffer, or the same error, on a valid buffer.
  pub read_data-eq-loop : read_data r ≡ read_data_loop r
  unfolding read_data read_data_loop
  read_data-eq-loop =
      ground (arith, payload_bulk-window (peek_len r), payload_loop-window (peek_len r))
