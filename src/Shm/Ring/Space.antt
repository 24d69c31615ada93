-- ===== src/Shm/Ring/Space.antt =====
-- The positions of the ring buffer: their invariant, and the space that they leave.
use rusty_comms.Prelude.{
  ℕ, ◌+◌, ◌-◌, ◌%◌, ◌^◌, ◌≤◌, ◌<◌, ◌≡◌, ◌⊎◌, inl, inr, List, length, arith, dec_lt, mod-eq_of_lt,
  mod-eq-sub-mod,
}
use rusty_comms.Shm.Ring.{
  SharedMemoryRingBuffer, available_write_space, available_read_data, publish, consume,
}

pub record IsValid (r : SharedMemoryRingBuffer) : Type 0 where
  pub storage : length r.buf ≡ r.capacity
  pub nonempty : 0 < r.capacity
  pub small : r.capacity ≤ 2 ^ 62
  pub read_in : r.read_pos < r.capacity
  pub write_in : r.write_pos < r.capacity

-- Less than twice round: the remainder by one subtraction.
pub mod_cases :
    (x cap : ℕ) → x < cap + cap → ((x < cap) × (x % cap ≡ x)) ⊎ ((cap ≤ x) × (x % cap ≡ x - cap))
mod_cases x cap h = elim (dec_lt x cap) [
  | yes p ↦ inl (p, mod-eq_of_lt p)
  | no p ↦ inr (
    omega arith,
    omega (
      arith,
      mod-eq-sub-mod {n = x} {m = cap} (omega arith),
      mod-eq_of_lt {n = x - cap} {m = cap} (omega arith),
    ),
  )
]

-- Free space and stored bytes make up all the capacity but one byte, and neither subtraction wraps.
pub space_lem :
    {r : SharedMemoryRingBuffer}
    → IsValid r
    → available_write_space r + available_read_data r + 1 ≡ r.capacity
unfolding available_write_space available_read_data
space_lem v = ground arith

pub read_data-lt-capacity :
    {r : SharedMemoryRingBuffer} → IsValid r → available_read_data r < r.capacity
read_data-lt-capacity v = omega (arith, space_lem v)

-- The stored bytes lie between the read and the write position, round the end.
pub write_pos_lem :
    {r : SharedMemoryRingBuffer}
    → IsValid r
    → (r.read_pos + available_read_data r) % r.capacity ≡ r.write_pos
unfolding available_read_data
write_pos_lem {r} v = ground (arith, mod_cases (r.read_pos + available_read_data r) r.capacity)

-- A write of `n` bytes into free space moves the write position past them.
pub read_data-publish :
    (r : SharedMemoryRingBuffer) (buf : List ℕ) (n : ℕ)
    → IsValid r
    → length buf ≡ r.capacity
    → n ≤ available_write_space r
    → IsValid (publish r buf n)
      × (available_read_data (publish r buf n) ≡ available_read_data r + n)
unfolding available_write_space available_read_data publish
read_data-publish r buf n v e h = ground (arith, mod_cases (r.write_pos + n) r.capacity)

-- A read of a message of `n` bytes and its prefix moves the read position past them.
pub read_data-consume :
    (r : SharedMemoryRingBuffer) (n : ℕ)
    → IsValid r
    → n + 4 ≤ available_read_data r
    → IsValid (consume r n)
      × (available_read_data r ≡ available_read_data (consume r n) + (n + 4))
      × ((consume r n).read_pos ≡ (r.read_pos + (n + 4)) % r.capacity)
unfolding available_read_data consume
read_data-consume r n v h = ground (arith, mod_cases (r.read_pos + (n + 4)) r.capacity)
