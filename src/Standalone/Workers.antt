-- ===== src/Standalone/Workers.antt =====
-- The workers of a concurrent client share out the messages.
use native.Mathlib.Nat.{div-add-mod, suc-mul, mul-le-mul_right}
use rusty_comms.Prelude.{
  ℕ, zero, suc, ◌+◌, ◌*◌, ◌/◌, ◌%◌, ◌^◌, ◌≤◌, ◌<◌, ◌≡◌, refl, sym, ap, ap₂, ◌∙◌, List, [], ◌∷◌,
  ◌++◌, append-nil, if◌then◌else◌, IsU64, arith,
}
use rusty_comms.Ipc.Message.{Message, new}
use rusty_comms.Runner.{BenchmarkConfig}
use rusty_comms.Runner.Measured.{from, ids_of, ids_of-counted}
use rusty_comms.Standalone.Client.{worker_msg_count, first_id, warmups, one_way_worker}

-- The lists of `n` workers from the worker `w` on, one behind the other.
abbrev pub over {ℓ} : {A : Type ℓ} → (ℕ → List A) → ℕ → ℕ → List A
over f w zero = []
over f w (suc n) = f w ++ over f (suc w) n

suc-add : (a b : ℕ) → suc a + b ≡ suc (a + b)
suc-add a b = omega arith

from-append : (i a b : ℕ) → from i (a + b) ≡ from i a ++ from (i + a) b
from-append i zero b = ap₂ from (omega arith) (omega arith)
from-append i (suc a) b =
    ap (from i) (suc-add a b)
    ∙ ap (λ l. i ∷ l) (from-append (suc i) a b ∙ ap (λ j. from (suc i) a ++ from j b) (omega arith))

abbrev pub share : ℕ → ℕ → ℕ → List ℕ
share m c w = from (first_id m c w) (worker_msg_count m c w)

share-other : (m c w : ℕ) → suc w < c → share m c w ≡ from (w * (m / c)) (m / c)
unfolding first_id worker_msg_count
share-other m c w h = ap (from (w * (m / c))) (ground arith)

share-last : (m c w : ℕ) → suc w ≡ c → share m c w ≡ from (w * (m / c)) (m / c + m % c)
unfolding first_id worker_msg_count
share-last m c w h = ap (from (w * (m / c))) (ground arith)

shares_from :
    (m c w n : ℕ)
    → w + suc n ≡ c
    → over (share m c) w (suc n) ≡ from (w * (m / c)) (suc n * (m / c) + m % c)
shares_from m c w zero h =
    append-nil (share m c w)
    ∙ share-last m c w (omega arith)
    ∙ ap (from (w * (m / c))) (omega arith)
shares_from m c w (suc n) h =
    ap₂ (λ a b. a ++ b) (share-other m c w (omega arith))
      (shares_from m c (suc w) n (omega arith)
        ∙ ap (λ j. from j (suc n * (m / c) + m % c)) (suc-mul w (m / c)))
    ∙ sym (from-append (w * (m / c)) (m / c) (suc n * (m / c) + m % c))
    ∙ ap (from (w * (m / c))) (omega (arith, suc-mul (suc n) (m / c)))

pub shares : (m c : ℕ) → 1 ≤ c → over (share m c) 0 c ≡ from 0 m
shares m zero h = absurd (omega arith)
shares m (suc c) h =
    shares_from m (suc c) 0 c (omega arith) ∙ ap₂ from (omega arith) (div-add-mod m (suc c))

ids_of-warmups :
    (config : BenchmarkConfig) (clock : ℕ → ℕ) (k n : ℕ) (ms : List Message)
    → ids_of (warmups config clock k n ++ ms) ≡ ids_of ms
unfolding new
ids_of-warmups config clock k zero ms = refl
ids_of-warmups config clock k (suc n) ms = ids_of-warmups config clock (suc k) n ms

ids_of-one_way_worker :
    (config : BenchmarkConfig) (warmup c : ℕ) (clock : ℕ → ℕ) (w : ℕ)
    → first_id config.msg_count c w + worker_msg_count config.msg_count c w < 2 ^ 64
    → ids_of (one_way_worker config warmup c clock w) ≡ share config.msg_count c w
unfolding one_way_worker new
ids_of-one_way_worker config warmup c clock w h =
    ids_of-warmups config clock 0 (warmup + (if config.include_first_message then 0 else 1)) _
    ∙ ids_of-counted config clock _ (first_id config.msg_count c w)
        (worker_msg_count config.msg_count c w) _ h refl

share-bound : (m c w : ℕ) → w < c → first_id m c w + worker_msg_count m c w ≤ m
unfolding first_id worker_msg_count
share-bound m c w h = ground (arith, suc-mul w (m / c), mul-le-mul_right (m / c) h, div-add-mod m c)

over-cong :
    (f g : ℕ → List ℕ) (c w n : ℕ)
    → w + n ≤ c
    → ((k : ℕ) → k < c → f k ≡ g k)
    → over f w n ≡ over g w n
over-cong f g c w zero h e = refl
over-cong f g c w (suc n) h e =
    ap₂ (λ a b. a ++ b) (e w (omega arith)) (over-cong f g c (suc w) n (omega arith) e)

-- The one-way workers together send the messages 0, 1, … below the message count, each once: in the
-- order of the workers, these are the ids that the server measures of their messages.
pub one_way_worker-ids :
    (config : BenchmarkConfig) (warmup_iterations concurrency : ℕ) (clocks : ℕ → ℕ → ℕ)
    → IsU64 config.msg_count
    → 1 ≤ concurrency
    → over
        (λ w. ids_of (one_way_worker config warmup_iterations concurrency (clocks w) w))
        0
        concurrency
      ≡ from 0 config.msg_count
one_way_worker-ids config warmup c clocks small h =
    over-cong (λ w. ids_of (one_way_worker config warmup c (clocks w) w)) (share config.msg_count c)
      c 0 c (omega arith)
      (λ w k.
        ids_of-one_way_worker config warmup c (clocks w) w
          (omega (arith, share-bound config.msg_count c w k)))
    ∙ shares config.msg_count c h
