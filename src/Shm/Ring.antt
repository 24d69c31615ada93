-- ===== src/Shm/Ring.antt =====
-- `SharedMemoryRingBuffer` and its methods, of src/ipc/shared_memory.rs and
-- src/ipc/shared_memory_blocking.rs. The first file copies a payload in bulk; `write_data` and
-- `read_data` of the second one copy byte by byte (`*_loop` here). The buffer's atomics are read
-- and written by one call at a time: a call is one step.
pub mod Space
pub mod Access
pub mod Equiv
pub mod Fifo
pub mod Refine
use rusty_comms.Prelude.{
  ℕ, zero, suc, ◌+◌, ◌%◌, ◌^◌, Bool, true, false, ◌||◌, Option, none, some, List, [], ◌∷◌, ◌++◌,
  ltb, leb, ◌==◌, if◌then◌else◌, length, get_or, set, take, drop, replicate, add_usize, sub_usize,
  Result, ok, err,
}
use rusty_comms.Bytes.Endian.{to_le_bytes, from_le_bytes}
use rusty_comms.Bytes.Copy.{copy_in, copy_out}

-- The errors that the methods return, one for each text.
pub data Fault : Type 0 where
  not_enough_space no_data_available invalid_message_length incomplete_message : Fault
  connection_closed : Fault

-- `buf` is the data area behind the header, of `capacity` bytes.
pub record SharedMemoryRingBuffer : Type 0 where
  pub buf : List ℕ
  pub capacity : ℕ
  pub read_pos : ℕ
  pub write_pos : ℕ
  pub server_ready : Bool
  pub client_ready : Bool
  pub shutdown : Bool
  pub message_count : ℕ

-- `SharedMemoryRingBuffer::new` in a fresh segment, whose data area is all zero.
unfoldable pub new : ℕ → SharedMemoryRingBuffer
new capacity = record {
  buf = replicate capacity 0;
  capacity = capacity;
  read_pos = 0;
  write_pos = 0;
  server_ready = false;
  client_ready = false;
  shutdown = false;
  message_count = 0;
}

unfoldable pub available_write_space : SharedMemoryRingBuffer → ℕ
available_write_space r =
    if leb r.read_pos r.write_pos
    then sub_usize (sub_usize r.capacity (sub_usize r.write_pos r.read_pos)) 1
    else sub_usize (sub_usize r.read_pos r.write_pos) 1

unfoldable pub available_read_data : SharedMemoryRingBuffer → ℕ
available_read_data r =
    if leb r.read_pos r.write_pos
    then sub_usize r.write_pos r.read_pos
    else sub_usize r.capacity (sub_usize r.read_pos r.write_pos)

-- `for (i, &byte) in bytes.iter().enumerate() { *data_ptr.add((pos + i) % capacity) = byte; }`
unfoldable pub write_bytes : List ℕ → ℕ → ℕ → ℕ → List ℕ → List ℕ
write_bytes buf cap pos i [] = buf
write_bytes buf cap pos i (b ∷ bs) =
    write_bytes (set buf (add_usize pos i % cap) b) cap pos (i + 1) bs

-- The same loop over the bytes of an array of `n` bytes that it fills from the buffer.
unfoldable pub read_bytes : List ℕ → ℕ → ℕ → ℕ → ℕ → List ℕ
read_bytes buf cap pos i zero = []
read_bytes buf cap pos i (suc n) =
    get_or buf (add_usize pos i % cap) 0 ∷ read_bytes buf cap pos (i + 1) n

-- One memcpy, or two where the payload goes round the end.
unfoldable pub write_bulk : List ℕ → ℕ → ℕ → List ℕ → List ℕ
write_bulk buf cap data_start bs =
    let first_part = sub_usize cap data_start in
    if leb (add_usize data_start (length bs)) cap
    then copy_in buf data_start bs
    else copy_in (copy_in buf data_start (take first_part bs)) 0 (drop first_part bs)

unfoldable pub read_bulk : List ℕ → ℕ → ℕ → ℕ → List ℕ
read_bulk buf cap data_start data_len =
    let first_part = sub_usize cap data_start in
    if leb (add_usize data_start data_len) cap
    then copy_out buf data_start data_len
    else copy_out buf data_start first_part ++ copy_out buf 0 (sub_usize data_len first_part)

-- `(data_len as u32).to_le_bytes()`
abbrev pub len_bytes : List ℕ → List ℕ
len_bytes bs = to_le_bytes 4 (length bs % 2 ^ 32)

abbrev pub required_space : List ℕ → ℕ
required_space bs = add_usize (length bs) 4

-- The writer's stores after the copy: the new position and the count.
unfoldable pub publish : SharedMemoryRingBuffer → List ℕ → ℕ → SharedMemoryRingBuffer
publish r buf required = record r {
  buf = buf;
  write_pos = add_usize r.write_pos required % r.capacity;
  message_count = add_usize r.message_count 1;
}

-- The body of a write, once there is space: prefix, payload, position.
unfoldable pub store_bulk : SharedMemoryRingBuffer → List ℕ → SharedMemoryRingBuffer
store_bulk r bs =
    publish r
      (write_bulk (write_bytes r.buf r.capacity r.write_pos 0 (len_bytes bs)) r.capacity
        (add_usize r.write_pos 4 % r.capacity) bs)
      (required_space bs)

unfoldable pub store_loop : SharedMemoryRingBuffer → List ℕ → SharedMemoryRingBuffer
store_loop r bs =
    publish r
      (write_bytes (write_bytes r.buf r.capacity r.write_pos 0 (len_bytes bs)) r.capacity
        (add_usize r.write_pos 4) 0 bs)
      (required_space bs)

-- `write_data` of shared_memory.rs.
unfoldable pub write_data : SharedMemoryRingBuffer → List ℕ → Result Fault SharedMemoryRingBuffer
write_data r bs =
    if ltb (available_write_space r) (required_space bs)
    then err not_enough_space
    else ok (store_bulk r bs)

-- `write_data` of shared_memory_blocking.rs.
unfoldable pub write_data_loop :
    SharedMemoryRingBuffer → List ℕ → Result Fault SharedMemoryRingBuffer
write_data_loop r bs =
    if ltb (available_write_space r) (required_space bs)
    then err not_enough_space
    else ok (store_loop r bs)

-- The length prefix at the read position.
unfoldable pub peek_len : SharedMemoryRingBuffer → ℕ
peek_len r = from_le_bytes (read_bytes r.buf r.capacity r.read_pos 0 4)

-- The reader's store after the copy.
unfoldable pub consume : SharedMemoryRingBuffer → ℕ → SharedMemoryRingBuffer
consume r data_len = record r {
  read_pos = add_usize (add_usize r.read_pos data_len) 4 % r.capacity;
}

abbrev pub payload_bulk : SharedMemoryRingBuffer → ℕ → List ℕ
payload_bulk r n = read_bulk r.buf r.capacity (add_usize r.read_pos 4 % r.capacity) n

abbrev pub payload_loop : SharedMemoryRingBuffer → ℕ → List ℕ
payload_loop r n = read_bytes r.buf r.capacity (add_usize r.read_pos 4) 0 n

-- `read_data` of shared_memory.rs.
unfoldable pub read_data : SharedMemoryRingBuffer → Result Fault (List ℕ × SharedMemoryRingBuffer)
read_data r =
    if ltb (available_read_data r) 4
    then err no_data_available
    else if peek_len r == 0 || ltb r.capacity (peek_len r)
    then err invalid_message_length
    else if ltb (available_read_data r) (add_usize (peek_len r) 4)
    then err incomplete_message
    else ok (payload_bulk r (peek_len r), consume r (peek_len r))

-- `read_data` of shared_memory_blocking.rs.
unfoldable pub read_data_loop :
    SharedMemoryRingBuffer → Result Fault (List ℕ × SharedMemoryRingBuffer)
read_data_loop r =
    if ltb (available_read_data r) 4
    then err no_data_available
    else if peek_len r == 0 || ltb r.capacity (peek_len r)
    then err invalid_message_length
    else if ltb (available_read_data r) (add_usize (peek_len r) 4)
    then err incomplete_message
    else ok (payload_loop r (peek_len r), consume r (peek_len r))
