-- ===== src/Biometric/Listener.antt =====
-- The thread that watches the fingerprint reader (biometric/listener.py). What the reader does is an
-- argument: one tick for each pass of the loop, as long as the stop flag is not set. Delays are whole
-- seconds, and instants microseconds.
pub mod Presses
pub mod Backoff
mod Examples
use truck.Base.{
  ℕ, suc, zero, ◌+◌, ◌*◌, min, Bool, true, false, Option, none, some, List, [], ◌∷◌, if◌then◌else◌,
  ltb, leb,
}
use truck.Attendance.Record.{second}

abbrev pub reconnect_delay_initial : ℕ
reconnect_delay_initial = 1

abbrev pub reconnect_delay_max : ℕ
reconnect_delay_max = 30

abbrev pub reconnect_backoff_factor : ℕ
reconnect_backoff_factor = 2

-- What `capture_template` does: it raises one of the two hardware errors or another exception, or
-- returns what it read.
pub data Capture : Type 0 where
  hardware_error unexpected : Capture
  read : Option (List ℕ) → Capture

-- One attempt of a reconnection: it connects, or it fails, and then the stop flag is set some
-- microseconds after the failure, or not before the next attempt.
pub data Attempt : Type 0 where
  connects : Attempt
  fails : Option ℕ → Attempt

-- `callback_raises` is what the callback does if it is called on this pass.
pub record Tick : Type 0 where
  pub capture : Capture
  pub callback_raises : Bool
  pub attempts : List Attempt

-- `delivered` is what the callback was given, in this order.
pub record State : Type 0 where
  pub connected : Bool
  pub armed : Bool
  pub delivered : List (List ℕ)

abbrev pub append : List (List ℕ) → List ℕ → List (List ℕ)
append [] t = t ∷ []
append (d ∷ ds) t = d ∷ append ds t

-- A block that is run through, or left by an exception.
pub data Block : Type 0 where
  goes_on raised : State → Block

-- `self._callback(template)`
abbrev pub callback : Bool → List ℕ → State → Block
callback true t s = raised (record s { delivered = append s.delivered t })
callback false t s = goes_on (record s { delivered = append s.delivered t })

-- `except Exception:` with a body that only logs.
abbrev pub swallow : Block → Block
swallow (goes_on s) = goes_on s
swallow (raised s) = goes_on s

-- One template that was read.
abbrev pub deliver : Bool → List ℕ → State → Block
deliver raises [] s = goes_on (record s { armed = true })
deliver raises (b ∷ t) s =
    if s.armed then swallow (callback raises (b ∷ t) (record s { armed = false })) else goes_on s

-- The loop's body on a connected reader. The disconnection after a hardware error leaves the reader
-- disconnected, as it does with both backends.
unfoldable pub poll : Capture → Bool → State → Block
poll hardware_error raises s = goes_on (record s { connected = false })
poll unexpected raises s = goes_on s
poll (read none) raises s = goes_on (record s { armed = true })
poll (read (some t)) raises s = deliver raises t s

-- The interruptible sleep: the seconds slept, of `left` that are left, if the stop flag is set after
-- `stop` microseconds. The flag is looked at once a second.
unfoldable pub sleep : ℕ → ℕ → Option ℕ → ℕ
sleep zero slept stop = slept
sleep (suc left) slept none = let rest = sleep left (suc slept) none in rest
sleep (suc left) slept (some n) =
    let rest = sleep left (suc slept) (some n) in if ltb (slept * second) n then rest else slept

abbrev pub interrupts : ℕ → Option ℕ → Bool
interrupts delay none = false
interrupts delay (some n) = leb n (delay * second)

abbrev pub next_delay : ℕ → ℕ
next_delay delay = min (delay * reconnect_backoff_factor) reconnect_delay_max

-- `_reconnect_with_backoff`: whether it connects, and the seconds slept after each failure.
unfoldable pub reconnect_with_backoff : ℕ → List Attempt → Bool × List ℕ
reconnect_with_backoff delay [] = (false, [])
reconnect_with_backoff delay (connects ∷ as') = (true, [])
reconnect_with_backoff delay (fails stop ∷ as') =
    let (c, ds) = reconnect_with_backoff (next_delay delay) as' in
    if interrupts delay stop then (false, sleep delay 0 stop ∷ []) else (c, sleep delay 0 stop ∷ ds)

-- One pass of the loop.
unfoldable pub pass : Tick → State → Block
pass t s =
    if s.connected
    then poll t.capture t.callback_raises s
    else goes_on (record s {
      connected = (reconnect_with_backoff reconnect_delay_initial t.attempts).0;
      armed = true;
    })

-- The loop ends with the ticks, or with an exception that a pass lets out.
unfoldable pub run : List Tick → State → Block
run [] s = goes_on s
run (t ∷ ts) s = elim (pass t s) [ goes_on s' ↦ run ts s' | raised s' ↦ raised s' ]

-- `_listener_loop` starts armed.
unfoldable pub listener_loop : List Tick → Bool → Block
listener_loop ts connected = run ts (record { connected = connected; armed = true; delivered = [] })
