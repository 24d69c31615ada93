-- ===== src/Runner/Measured.antt =====
-- Which messages the server measures of those that the client sends.
use rusty_comms.Prelude.{
  ℕ, zero, suc, ◌+◌, ◌^◌, ◌<◌, ◌≡◌, refl, true, false, Bool-cases, inl, inr, List, [], ◌∷◌, ◌++◌,
  map, ◌==◌, if◌then◌else◌, All, IsU64, arith,
}
use rusty_comms.Ipc.Message.{Message, new}
use rusty_comms.LatencyFile.RoundTrip.{IsPair}
use rusty_comms.Server.{Arrival, canary_id, is_shutdown, latency_of, wall_send_of}
use rusty_comms.Server.Buffering.{until_shutdown, entry, entries}
use rusty_comms.Runner.{BenchmarkConfig, counted, needs_shutdown, shutdowns, one_way_messages}

-- The arrivals carry the messages, in order.
abbrev pub Carries : List Message → List Arrival → Type 0
Carries [] [] = Unit
Carries [] (a ∷ xs) = true ≡ false
Carries (m ∷ ms) [] = true ≡ false
Carries (m ∷ ms) (a ∷ xs) =
    (a.message.id ≡ m.id) × (a.message.message_type ≡ m.message_type) × Carries ms xs

abbrev pub IsTimed : Arrival → Type 0
IsTimed a = IsU64 a.monotonic × IsU64 a.wall × IsU64 a.message.receive_time_ns

-- The arrivals but canaries.
abbrev pub kept : List Arrival → List Arrival
kept [] = []
kept (a ∷ xs) = if a.message.id == canary_id then kept xs else a ∷ kept xs

abbrev pub id_of : Arrival → ℕ
id_of a = a.message.id

abbrev pub from : ℕ → ℕ → List ℕ
from i zero = []
from i (suc n) = i ∷ from (suc i) n

-- The ids that are measured of a list of messages.
abbrev pub ids_of : List Message → List ℕ
ids_of [] = []
ids_of (m ∷ ms) =
    let front = if m.id == canary_id then [] else m.id ∷ [] in
    if is_shutdown m.message_type then front else front ++ ids_of ms

pub entries-kept : (xs : List Arrival) → entries xs ≡ map entry (kept xs)
entries-kept [] = refl
entries-kept (a ∷ xs) = ground (arith, entries-kept xs)

pub ids-kept :
    (ms : List Message) (xs : List Arrival)
    → Carries ms xs
    → map id_of (kept (until_shutdown xs)) ≡ ids_of ms
ids-kept [] [] h = refl
ids-kept [] (a ∷ xs) h = ground arith
ids-kept (m ∷ ms) [] h = ground arith
ids-kept (m ∷ ms) (a ∷ xs) (i, t, h) = ground (arith, ids-kept ms xs h)

pub ids_of-counted :
    (config : BenchmarkConfig) (clock : ℕ → ℕ) (k i n : ℕ) (ms : List Message)
    → i + n < 2 ^ 64
    → ids_of ms ≡ []
    → ids_of (counted config clock k i n ++ ms) ≡ from i n
unfolding new
ids_of-counted config clock k i zero ms h e = e
ids_of-counted config clock k i (suc n) ms h e =
    ground (arith, ids_of-counted config clock (suc k) (suc i) n ms (omega arith) e)

ids_of-shutdowns : (config : BenchmarkConfig) (clock : ℕ → ℕ) → ids_of (shutdowns config clock) ≡ []
unfolding new
ids_of-shutdowns config clock = elim (Bool-cases (needs_shutdown config.mechanism)) [
  | inl e ↦ rw (e) refl
  | inr e ↦ rw (e) refl
]

pub ids_of-one_way_messages :
    (config : BenchmarkConfig) (clock : ℕ → ℕ)
    → config.msg_count < 2 ^ 64
    → ids_of (one_way_messages config clock) ≡ from 0 config.msg_count
unfolding one_way_messages new
ids_of-one_way_messages config clock h =
    let e =
      ids_of-counted config clock 1 0 config.msg_count (shutdowns config clock) (omega arith)
        (ids_of-shutdowns config clock) in
    elim (Bool-cases config.include_first_message) [ inl i ↦ rw (i) e | inr i ↦ rw (i) e ]

IsPair-entry : (a : Arrival) → IsTimed a → IsPair (entry a)
unfolding wall_send_of latency_of
IsPair-entry a (m, w, r) = (ground arith, ground arith)

pub IsPair-entries : (xs : List Arrival) → All IsTimed xs → All IsPair (entries xs)
IsPair-entries [] h = tt
IsPair-entries (a ∷ xs) (t, h) = elim (Bool-cases (a.message.id == canary_id)) [
  | inl e ↦ rw (e) (IsPair-entries xs h)
  | inr e ↦ rw (e) (IsPair-entry a t, IsPair-entries xs h)
]

pub IsTimed-until_shutdown : (xs : List Arrival) → All IsTimed xs → All IsTimed (until_shutdown xs)
IsTimed-until_shutdown [] h = tt
IsTimed-until_shutdown (a ∷ xs) (t, h) = elim (Bool-cases (is_shutdown a.message.message_type)) [
  | inl e ↦ rw (e) (t, tt)
  | inr e ↦ rw (e) (t, IsTimed-until_shutdown xs h)
]
