-- ===== src/Biometric/Auth/Examples.antt =====
-- Runs of the kiosk authentication and uses of its theorems at concrete requests.
use truck.Base.{ℕ, ◌≤◌, ◌≡◌, refl, true, none, some, List, [], ◌∷◌, arith, Text, codes, ◌++◌}
use truck.RateLimit.Counter.{count_failure}
use truck.Biometric.Auth.{
  KioskDevice, Request, State, Clock, unauthorized, dispatched, client_ip, raw_token, authenticate,
  record_failure, verify, dispatch,
}
use truck.Biometric.Auth.Access.{Answers, dispatch-Answers}
use truck.Biometric.Auth.Throttle.{guesses, guesses-le}

-- A hash function for the runs.
abbrev digest : Text → Text
digest t = codes "sha" ++ t

abbrev device : KioskDevice
device = record {
  pk = 1;
  name = codes "Matriz";
  token_hash = codes "shasecret";
  token_prefix = codes "sec";
  is_active = true;
  last_seen_at = none;
  last_seen_ip = none;
}

abbrev asking : Text → Request
asking t = record {
  forwarded_for = none;
  remote_addr = some (codes "10.0.0.7");
  authorization = some (codes "Bearer " ++ t);
}

abbrev state : State
state = record { failures = []; devices = device ∷ [] }

abbrev at : ℕ → Clock
at t = record { arrived = t; failed = t; wall = t }

abbrev tries : List (Clock × Request)
tries = (at 1, asking (codes "guess")) ∷ (at 2, asking (codes "again")) ∷ []

accepted_test :
    (dispatch digest (at 5) (asking (codes "secret")) state).0
    ≡ dispatched (record device { last_seen_at = some 5; last_seen_ip = some (codes "10.0.0.7") })
unfolding dispatch client_ip raw_token verify authenticate
accepted_test = refl

rejected_test : (dispatch digest (at 5) (asking (codes "guess")) state).0 ≡ unauthorized
unfolding dispatch client_ip raw_token verify authenticate
rejected_test = refl

dispatch-Answers_example :
    Answers digest
      (at 5)
      (client_ip (asking (codes "secret")))
      (raw_token (asking (codes "secret")))
      state
      (dispatch digest (at 5) (asking (codes "secret")) state)
dispatch-Answers_example = dispatch-Answers digest (at 5) (asking (codes "secret")) state

guesses-le_example : guesses digest 0 tries state ≤ 10
unfolding dispatch client_ip raw_token verify authenticate record_failure count_failure
guesses-le_example =
    guesses-le digest (codes "10.0.0.7") 1 tries state
      (
        refl,
        omega arith,
        omega arith,
        omega arith,
        tt,
        (refl, omega arith, omega arith, omega arith, tt, tt),
      )
      refl
