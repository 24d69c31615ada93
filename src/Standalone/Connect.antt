-- ===== src/Standalone/Connect.antt =====
-- The retries end.
use rusty_comms.Prelude.{
  ℕ, zero, suc, ◌+◌, ◌*◌, ◌≤◌, ◌<◌, ◌≡◌, ◌⊎◌, refl, inl, inr, ap, subst, Bool-cases, ltb, ltb→lt,
  ltb→le, le→ltb, lt→ltb, ◌∙◌, Result, Result-cases, ok, err, returned, arith,
}
use rusty_comms.Standalone.{
  connect_retry_timeout, connect_retry_interval, connect_blocking_with_retry,
}

module _ {T E : Type 0} (start_client_blocking : T → Result E (Unit {0}) × T)
    (elapsed : ℕ → ℕ) where
  -- The outcome of the attempt `k` of those from the transport on.
  abbrev pub attempt : ℕ → T → Result E (Unit {0})
  attempt zero t = (start_client_blocking t).0
  attempt (suc k) t = attempt k (start_client_blocking t).1

  -- The clock's reading behind the attempt `k` of those from the attempt `n` on.
  abbrev reading : ℕ → ℕ → ℕ
  reading n zero = elapsed n
  reading n (suc k) = reading (suc n) k

  -- The attempt `k` failed, in time for another one.
  abbrev Failed : ℕ → ℕ → T → Type 0
  Failed n k t = ((e : E) × (attempt k t ≡ err e)) × (reading n k ≤ connect_retry_timeout)

  -- The result is that of the attempt `m`, which succeeded or failed too late for another one.
  abbrev Decides : ℕ → ℕ → T → Result E (Unit {0}) → Type 0
  Decides n m t r =
      (attempt m t ≡ r)
      × ((r ≡ ok tt) ⊎ (((e : E) × (r ≡ err e)) × (connect_retry_timeout < reading n m)))

  abbrev Ends : ℕ → ℕ → T → Type 0
  Ends rounds n t =
      (m : ℕ) × (r : Result E (Unit {0})) × (m ≤ rounds)
      × ((connect_blocking_with_retry start_client_blocking elapsed (suc rounds) n t).0
          ≡ returned r)
      × ((k : ℕ) → k < m → Failed n k t)
      × Decides n m t r

  verdict : (n : ℕ) (t : T) → ((r : Result E (Unit {0})) × Decides n 0 t r) ⊎ Failed n 0 t
  verdict n t = elim (Result-cases (start_client_blocking t).0) [
    | inl (u, h) ↦ inl (ok tt, (h, inl refl))
    | inr (e, h) ↦ elim (Bool-cases (ltb connect_retry_timeout (elapsed n))) [
      | inl late ↦ inl (err e, (h, inr ((e, refl), ltb→lt connect_retry_timeout (elapsed n) late)))
      | inr early ↦ inr ((e, h), ltb→le connect_retry_timeout (elapsed n) early)
    ]
  ]

  connect-now :
      (rounds n : ℕ) (t : T) (r : Result E (Unit {0}))
      → Decides n 0 t r
      → (connect_blocking_with_retry start_client_blocking elapsed (suc rounds) n t).0 ≡ returned r
  unfolding connect_blocking_with_retry
  connect-now rounds n t r (h, inl good) = rw (h ∙ good, good, connect_blocking_with_retry) refl
  connect-now rounds n t r (h, inr ((e, bad), late)) =
      rw (h ∙ bad, bad, lt→ltb connect_retry_timeout (elapsed n) late, connect_blocking_with_retry)
        refl

  connect-again :
      (rounds n : ℕ) (t : T)
      → Failed n 0 t
      → connect_blocking_with_retry start_client_blocking elapsed (suc rounds) n t
        ≡ connect_blocking_with_retry start_client_blocking elapsed rounds
            (suc n)
            (start_client_blocking t).1
  unfolding connect_blocking_with_retry
  connect-again rounds n t ((e, h), early) =
      rw (h, le→ltb connect_retry_timeout (elapsed n) early, connect_blocking_with_retry) refl

  Failed-suc :
      (n m : ℕ) (t : T)
      → Failed n 0 t
      → ((k : ℕ) → k < m → Failed (suc n) k (start_client_blocking t).1)
      → (k : ℕ) → k < suc m
      → Failed n k t
  Failed-suc n m t first later zero h = first
  Failed-suc n m t first later (suc k) h = later k (omega arith)

  retry-Ends :
      (rounds n : ℕ) (t : T)
      → ((k : ℕ) → elapsed k + connect_retry_interval ≤ elapsed (suc k))
      → connect_retry_timeout < rounds * connect_retry_interval + elapsed n
      → Ends rounds n t
  retry-Ends zero n t pace enough = elim (verdict n t) [
    | inl (r, d) ↦ (0, r, omega arith, connect-now 0 n t r d, λ k h. absurd (omega arith), d)
    | inr (e, early) ↦ absurd (omega arith)
  ]
  retry-Ends (suc rounds) n t pace enough = elim (verdict n t) [
    | inl (r, d) ↦
        (0, r, omega arith, connect-now (suc rounds) n t r d, λ k h. absurd (omega arith), d)
    | inr failed ↦
        let (m, r, few, run, earlier, d) =
          retry-Ends rounds (suc n) (start_client_blocking t).1 pace
            (omega (arith, pace n, failed.1)) in
        (
          suc m,
          r,
          omega arith,
          ap (λ x. x.0) (connect-again (suc rounds) n t failed) ∙ run,
          Failed-suc n m t failed earlier,
          d,
        )
  ]

  reading-elapsed : (n k : ℕ) → reading n k ≡ elapsed (n + k)
  reading-elapsed n zero = ap elapsed (omega arith)
  reading-elapsed n (suc k) = reading-elapsed (suc n) k ∙ ap elapsed (omega arith)

  reading_zero : (k : ℕ) → reading 0 k ≡ elapsed k
  reading_zero k = reading-elapsed 0 k ∙ ap elapsed (omega arith)

  -- The connection attempts end within 302 rounds when at least the retry interval passes between two
  -- attempts. The result is the outcome of the last attempt, which succeeded, or failed later than the
  -- timeout; every attempt before it failed within the timeout.
  pub connect_blocking_with_retry-ends :
      (t : T)
      → ((k : ℕ) → elapsed k + connect_retry_interval ≤ elapsed (suc k))
      → (m : ℕ) × (r : Result E (Unit {0})) × (m < 302)
        × ((connect_blocking_with_retry start_client_blocking elapsed 302 0 t).0 ≡ returned r)
        × ((k : ℕ)
            → k < m
            → ((e : E) × (attempt k t ≡ err e)) × (elapsed k ≤ connect_retry_timeout))
        × (attempt m t ≡ r)
        × ((r ≡ ok tt) ⊎ (((e : E) × (r ≡ err e)) × (connect_retry_timeout < elapsed m)))
  connect_blocking_with_retry-ends t pace =
      let (m, r, few, run, earlier, (same, how)) = retry-Ends 301 0 t pace (omega arith) in
      (
        m,
        r,
        omega arith,
        run,
        (λ k h. (
          (earlier k h).0,
          subst (λ x. x ≤ connect_retry_timeout) (reading_zero k) (earlier k h).1,
        )),
        same,
        subst (λ x. (r ≡ ok tt) ⊎ (((e : E) × (r ≡ err e)) × (connect_retry_timeout < x)))
            (reading_zero m) how,
      )
