-- ===== src/Biometric/Service/Capture.antt =====
-- The waiting loops of the fingerprint service (biometric/service.py).
use truck.Base.{
  ℕ, zero, suc, ◌+◌, ◌*◌, ◌≤◌, ◌≡◌, refl, true, Option, none, some, inl, inr, List, [], ◌∷◌, arith,
  ltb, Bool-cases,
}
use native.Mathlib.Nat.{suc-mul}
use truck.Biometric.Service.{
  Reading, raises, reads, Outcome, exhausted, not_connected, timed_out, raised, got, Cursor, both,
  tick, template_of, look, poll, capture_blocking,
}

module _ (now : ℕ → ℕ) (sensor : ℕ → Reading) (interval : ℕ) where
  -- From the reading `i` on, two readings of the clock are `interval` apart at least.
  abbrev pub IsPaced : ℕ → Type 0
  IsPaced i = (k : ℕ) → i ≤ k → now k + interval ≤ now (suc k)

  -- How a capture ended: with a template of the sensor, with an error of the sensor, or at a reading
  -- of the clock that is not before the deadline.
  abbrev pub Ends : ℕ → Outcome (List ℕ) × Cursor → Type 0
  Ends deadline (exhausted, c) = ⊥
  Ends deadline (not_connected, c) = ⊥
  Ends deadline (timed_out, c) = (k : ℕ) × (c.clock ≡ suc k) × (deadline ≤ now k)
  Ends deadline (raised, c) = (k : ℕ) × (c.sensor ≡ suc k) × (sensor k ≡ raises)
  Ends deadline (got t, c) =
      (k : ℕ) × (o : Option (List ℕ)) × (c.sensor ≡ suc k)
      × (sensor k ≡ reads o)
      × (template_of o ≡ some t)

  look-Ends :
      (deadline : ℕ) (r : Reading) (c : Cursor) (rest : Outcome (List ℕ) × Cursor)
      → sensor c.sensor ≡ r
      → Ends deadline rest
      → Ends deadline (look now sensor r c rest)
  look-Ends deadline raises c rest h e = (c.sensor, refl, h)
  look-Ends deadline (reads none) c rest h e = e
  look-Ends deadline (reads (some [])) c rest h e = e
  look-Ends deadline (reads (some (b ∷ t))) c rest h e = (c.sensor, some (b ∷ t), refl, h, refl)

  poll-Ends :
      (fuel deadline : ℕ) (c : Cursor)
      → IsPaced c.clock
      → deadline ≤ now c.clock + fuel * interval
      → Ends deadline (poll now sensor (suc fuel) deadline c)
  unfolding poll
  poll-Ends zero deadline c p h = elim (Bool-cases (ltb (now c.clock) deadline)) [
    | inl t ↦ absurd (ground arith)
    | inr f ↦ rw f (c.clock, refl, ground arith)
  ]
  poll-Ends (suc fuel) deadline c p h = elim (Bool-cases (ltb (now c.clock) deadline)) [
    | inr f ↦ rw f (c.clock, refl, ground arith)
    | inl t ↦
        let q = suc-mul fuel interval in
        rw t (
          look-Ends deadline (sensor c.sensor) c (poll now sensor (suc fuel) deadline (both c)) refl
            (poll-Ends fuel deadline (both c) (λ k le. p k (omega (arith, le)))
              (omega (arith, q, h, p c.clock (omega arith)))))
  ]

  -- A capture that waits for a finger ends, whatever the sensor does, if its readings of the clock are
  -- `interval` apart and there are as many passes as intervals in the timeout, and one more. It ends
  -- with a template that the sensor gave last, or with an error that the sensor raised last, or with
  -- a timeout once the clock has passed the deadline.
  pub capture_blocking-Ends :
      (fuel timeout : ℕ) (c : Cursor)
      → IsPaced (suc c.clock)
      → now c.clock ≤ now (suc c.clock)
      → timeout ≤ fuel * interval
      → Ends (now c.clock + timeout) (capture_blocking now sensor (suc fuel) timeout true c)
  unfolding capture_blocking
  capture_blocking-Ends fuel timeout c p m h =
      poll-Ends fuel (now c.clock + timeout) (tick c) p (omega (arith, m, h))
