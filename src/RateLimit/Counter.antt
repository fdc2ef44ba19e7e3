-- ===== src/RateLimit/Counter.antt =====
-- One counter of failures, as the login limit and the kiosk limit keep it
-- (employee_truck_control/rate_limit.py, biometric/auth.py).
use truck.Base.{
  ℕ, suc, ◌+◌, ◌-◌, ◌/◌, ◌≤◌, ◌<◌, ◌≡◌, ap, sym, Bool, false, Option, none, some, arith, ltb, leb,
  if◌then◌else◌,
}

-- Microseconds.
abbrev pub second : ℕ
second = 1000000

pub record Limits : Type 0 where
  pub attempts : ℕ
  pub window : ℕ
  pub block : ℕ

-- An entry without the key `blocked_until` reads as blocked until 0.
pub record Entry : Type 0 where
  pub count : ℕ
  pub window_start : ℕ
  pub blocked_until : ℕ

abbrev pub is_blocked : ℕ → Option Entry → Bool
is_blocked now none = false
is_blocked now (some e) = ltb now e.blocked_until

-- The whole seconds until the block ends.
abbrev pub remaining : ℕ → Entry → ℕ
remaining now e = (e.blocked_until - now) / second

-- The entry after one more failure.
unfoldable pub count_failure : Limits → ℕ → Option Entry → Entry
count_failure l now none = record { count = 1; window_start = now; blocked_until = 0 }
count_failure l now (some e) =
    if ltb (e.window_start + l.window) now
    then record { count = 1; window_start = now; blocked_until = 0 }
    else record e {
      count = suc e.count;
      blocked_until = if leb l.attempts (suc e.count) then now + l.block else e.blocked_until;
    }

-- After `n` counted failures since `start`: the count is exact while it lasts, it has not passed
-- the limit, and once it is at the limit the key stays blocked for the whole blocking time.
abbrev pub Tracks : Limits → ℕ → ℕ → Option Entry → Type 0
Tracks l start n none = n ≡ 0
Tracks l start n (some e) =
    (e.count ≡ n)
    × (1 ≤ n)
    × (n ≤ l.attempts)
    × (start ≤ e.window_start)
    × (l.attempts ≤ n → start + l.block ≤ e.blocked_until)

-- One more failure within the window, of a key that was not blocked when it was looked up.
pub count_failure-Tracks :
    (l : Limits) (start n seen now : ℕ) (e : Option Entry)
    → 2 ≤ l.attempts
    → l.window ≤ l.block
    → Tracks l start n e
    → seen < start + l.window
    → start ≤ now
    → now < start + l.window
    → is_blocked seen e ≡ false
    → Tracks l start (suc n) (some (count_failure l now e))
unfolding count_failure
count_failure-Tracks l start n seen now none two wide t z s w f =
    (ap suc (sym t), omega arith, omega arith, s, λ k. absurd (omega arith))
count_failure-Tracks l start n seen now (some e) two wide t z s w f = ground arith

-- So the number of failures counted within a window is at most the limit.
pub Tracks-le : (l : Limits) (start n : ℕ) (e : Option Entry) → Tracks l start n e → n ≤ l.attempts
Tracks-le l start n none t = omega arith
Tracks-le l start n (some e) t = t.2
