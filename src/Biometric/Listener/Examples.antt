-- ===== src/Biometric/Listener/Examples.antt =====
-- Runs of the listener and uses of its theorems at concrete readings.
use truck.Base.{◌≡◌, refl, true, false, none, some, List, [], ◌∷◌}
use truck.Biometric.Listener.{
  Capture, hardware_error, unexpected, read, Attempt, connects, fails, Tick, poll, sleep,
  reconnect_with_backoff, reconnect_delay_initial, pass, run, listener_loop,
}
use truck.Biometric.Listener.Presses.{Delivered, signals, presses, firsts, listener_loop_delivers}
use truck.Biometric.Listener.Backoff.{BacksOff, reconnect-BacksOff}

abbrev tick : Capture → Tick
tick c = record { capture = c; callback_raises = true; attempts = fails none ∷ connects ∷ [] }

-- A press of three readings with an error in it, a gap, a press, and a third after a lost reader.
abbrev ticks : List Tick
ticks =
    tick (read (some (1 ∷ [])))
    ∷ tick unexpected
    ∷ tick (read (some (2 ∷ [])))
    ∷ tick (read none)
    ∷ tick (read (some (3 ∷ [])))
    ∷ tick hardware_error
    ∷ tick (read none)
    ∷ tick (read (some (4 ∷ [])))
    ∷ []

presses_test : Delivered (listener_loop ticks true) ((1 ∷ []) ∷ (3 ∷ []) ∷ (4 ∷ []) ∷ [])
unfolding listener_loop run pass poll reconnect_with_backoff sleep
presses_test = refl

backoff_test :
    reconnect_with_backoff 1 (fails none ∷ fails none ∷ fails (some 2500000) ∷ connects ∷ [])
    ≡ (false, 1 ∷ 2 ∷ 3 ∷ [])
unfolding reconnect_with_backoff sleep
backoff_test = refl

listener_loop_delivers_example :
    Delivered (listener_loop ticks true) (firsts (presses (signals true ticks)))
listener_loop_delivers_example = listener_loop_delivers ticks true

abbrev attempts : List Attempt
attempts = fails none ∷ fails none ∷ fails (some 2500000) ∷ connects ∷ []

reconnect-BacksOff_example :
    BacksOff 0 attempts (reconnect_with_backoff reconnect_delay_initial attempts)
reconnect-BacksOff_example = reconnect-BacksOff attempts
