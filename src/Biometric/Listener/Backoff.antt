-- ===== src/Biometric/Listener/Backoff.antt =====
-- The delays between the attempts of a reconnection (biometric/listener.py).
use truck.Base.{
  ℕ, suc, zero, ◌+◌, ◌^◌, ◌≤◌, ◌<◌, ◌≡◌, ◌⊎◌, min, refl, Bool, true, false, Option, none, some,
  List, [], ◌∷◌, arith, ltb, leb→le, Bool-cases, inl, inr, ◌*◌,
}
use truck.Attendance.Record.{second}
use native.Mathlib.Nat.{pow-suc}
use truck.Biometric.Listener.{
  Attempt, connects, fails, sleep, interrupts, next_delay, reconnect_with_backoff,
  reconnect_delay_initial,
}

-- The delay after the failure with number `i`, from 0.
abbrev pub backoff : ℕ → ℕ
backoff i = min (2 ^ i) 30

next-backoff : (i : ℕ) → next_delay (backoff i) ≡ backoff (suc i)
next-backoff i = let q = pow-suc 2 i in rw q (ground arith)

sleep_le : (left slept : ℕ) (stop : Option ℕ) → sleep left slept stop ≤ slept + left
unfolding sleep
sleep_le zero slept stop = omega arith
sleep_le (suc left) slept none = omega (arith, sleep_le left (suc slept) none)
sleep_le (suc left) slept (some n) = ground (arith, sleep_le left (suc slept) (some n))

sleep-none : (left slept : ℕ) → sleep left slept none ≡ slept + left
unfolding sleep
sleep-none zero slept = omega arith
sleep-none (suc left) slept = omega (arith, sleep-none left (suc slept))

-- The stop flag ends a delay within a second.
sleep_stop :
    (left slept n : ℕ)
    → slept * second < n + second
    → n ≤ (slept + left) * second
    → (n ≤ sleep left slept (some n) * second) × (sleep left slept (some n) * second < n + second)
unfolding sleep
sleep_stop zero slept n h k = (omega (arith, k), h)
sleep_stop (suc left) slept n h k = elim (Bool-cases (ltb (slept * second) n)) [
  | inl t ↦
      let u : slept * second < n = ground arith in
      rw t (sleep_stop left (suc slept) n (omega (arith, u)) (omega (arith, k)))
  | inr f ↦ rw f (ground arith, h)
]

sleep_late :
    (left slept n : ℕ) → (slept + left) * second < n → sleep left slept (some n) ≡ slept + left
unfolding sleep
sleep_late zero slept n h = omega arith
sleep_late (suc left) slept n h = elim (Bool-cases (ltb (slept * second) n)) [
  | inl t ↦ rw t (omega (arith, sleep_late left (suc slept) n (omega (arith, h))))
  | inr f ↦ absurd (ground arith)
]

-- The seconds slept after the failures from number `i` on: each delay in full, but for the last,
-- which the stop flag may end early, less than a second after it is set.
abbrev pub BacksOff : ℕ → List Attempt → Bool × List ℕ → Type 0
BacksOff i [] (c, ds) = (c ≡ false) × (ds ≡ [])
BacksOff i (connects ∷ as') (c, ds) = (c ≡ true) × (ds ≡ [])
BacksOff i (fails none ∷ as') (c, []) = ⊥
BacksOff i (fails none ∷ as') (c, d ∷ ds) = (d ≡ backoff i) × BacksOff (suc i) as' (c, ds)
BacksOff i (fails (some n) ∷ as') (c, []) = ⊥
BacksOff i (fails (some n) ∷ as') (c, d ∷ ds) =
    ((n ≤ backoff i * second)
      × (d ≤ backoff i)
      × (n ≤ d * second)
      × (d * second < n + second)
      × (c ≡ false)
      × (ds ≡ []))
    ⊎ ((backoff i * second < n) × (d ≡ backoff i) × BacksOff (suc i) as' (c, ds))

backoff-BacksOff :
    (i : ℕ) (as' : List Attempt) → BacksOff i as' (reconnect_with_backoff (backoff i) as')
unfolding reconnect_with_backoff
backoff-BacksOff i [] = (refl, refl)
backoff-BacksOff i (connects ∷ as') = (refl, refl)
backoff-BacksOff i (fails none ∷ as') =
    (omega (arith, sleep-none (backoff i) 0), rw (next-backoff i) (backoff-BacksOff (suc i) as'))
backoff-BacksOff i (fails (some n) ∷ as') = elim (Bool-cases (interrupts (backoff i) (some n))) [
  | inl t ↦
      let k : n ≤ backoff i * second = leb→le _ _ t in
      let (ended, soon) = sleep_stop (backoff i) 0 n (omega arith) (omega (arith, k)) in
      rw t (inl (k, omega (arith, sleep_le (backoff i) 0 (some n)), ended, soon, refl, refl))
  | inr f ↦
      let k : backoff i * second < n = ground arith in
      rw f (
        inr (
          k,
          omega (arith, sleep_late (backoff i) 0 n (omega (arith, k))),
          rw (next-backoff i) (backoff-BacksOff (suc i) as'),
        ))
]

-- A reconnection goes on until it connects or the stop flag is set, and then says which. After
-- the failure with number i it sleeps for the least of 2 to the i and 30 seconds, or less if the
-- stop flag is set before: then it wakes at a whole second, less than a second after the flag is
-- set, and makes no other attempt.
pub reconnect-BacksOff :
    (as' : List Attempt) → BacksOff 0 as' (reconnect_with_backoff reconnect_delay_initial as')
reconnect-BacksOff as' = backoff-BacksOff 0 as'
