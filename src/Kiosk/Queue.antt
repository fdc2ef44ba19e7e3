-- ===== src/Kiosk/Queue.antt =====
-- How a kiosk serves the site's requests for an enrolment (`_check_and_fulfill_enroll_request` and
-- `on_tick` of kiosk_agent.py, `run_until_shutdown` of biometric/daemon.py). What the site and the reader
-- do is an argument. Times are readings of the monotonic clock.
pub mod Resumes
pub mod Ticks
use truck.Base.{
  ℕ, ◌+◌, Bool, true, false, Option, none, some, List, [], ◌∷◌, Text, ltb, if◌then◌else◌,
}
use truck.Kiosk.Base64.{b64encode}

-- Whether the listener's thread runs, and whether the reader is connected.
pub record Agent : Type 0 where
  pub listening : Bool
  pub connected : Bool

-- The reply to the poll: a `RequestException`, nothing, or a request with its key and employee.
pub data Next : Type 0 where
  request_failed has_none : Next
  pending : ℕ → ℕ → Next

-- What `capture_registration` does: it returns a template, the finger is late, the reader is not there,
-- or another exception, which leaves the call.
pub data Capture : Type 0 where
  timeout unavailable unexpected : Capture
  template : List ℕ → Capture

-- What the reader would do if it is asked: whether the first `connect` succeeds, what is captured, and
-- whether the one of the `finally` clause does.
pub record Reader : Type 0 where
  pub connects : Bool
  pub capture : Capture
  pub reconnects : Bool

-- The body of the enrolment that is posted.
pub record Submitted : Type 0 where
  pub employee_id : ℕ
  pub template_b64 : Text
  pub enroll_request_id : ℕ

-- `if not service.is_connected: service.connect(...)`
abbrev pub connect : Bool → Bool → Bool
connect true attempt = true
connect false attempt = attempt

-- The captured template, if the reader is connected.
abbrev pub captured : Bool → Capture → Option (List ℕ)
captured false c = none
captured true timeout = none
captured true unavailable = none
captured true unexpected = none
captured true (template t) = some t

abbrev pub submission : ℕ → ℕ → Option (List ℕ) → Option Submitted
submission request_id employee_id none = none
submission request_id employee_id (some t) = some (record {
  employee_id = employee_id;
  template_b64 = b64encode t;
  enroll_request_id = request_id;
})

-- The `finally` clause: the listener starts again if the reader is connected.
abbrev pub resume : Bool → Bool → Agent
resume connected attempt =
    let c = connect connected attempt in record { listening = c; connected = c }

-- `_check_and_fulfill_enroll_request`, with what it submits.
unfoldable pub check_and_fulfill : Next → Reader → Agent → Option Submitted × Agent
check_and_fulfill request_failed r a = (none, a)
check_and_fulfill has_none r a = (none, a)
check_and_fulfill (pending request_id employee_id) r a =
    let c = connect a.connected r.connects in
    (submission request_id employee_id (captured c r.capture), resume c r.reconnects)

-- `on_tick`: the time of the next check, and the agent.
pub record Daemon : Type 0 where
  pub next_check : ℕ
  pub agent : Agent

-- One turn of the main loop: the clock, and what a check would meet. `alive` says whether the reader is
-- still connected, where the listener's thread has had it since the last turn.
pub record Tick : Type 0 where
  pub now : ℕ
  pub alive : Bool
  pub next : Next
  pub reader : Reader

abbrev pub since_last : Bool → Agent → Agent
since_last alive a = if a.listening then record a { connected = alive } else a

module _ (enroll_poll : ℕ) where
  unfoldable pub on_tick : Tick → Daemon → Option Submitted × Daemon
  on_tick t d =
      let a = since_last t.alive d.agent in
      if ltb t.now d.next_check
      then (none, record d { agent = a })
      else (let (s, a') = check_and_fulfill t.next t.reader a in
          (s, record { next_check = t.now + enroll_poll; agent = a' }))

  abbrev pub submit : Option Submitted → List Submitted → List Submitted
  submit none ss = ss
  submit (some s) ss = s ∷ ss

  -- The loop of `run_until_shutdown` after the listener is started, one tick for each second until the
  -- shutdown is requested; what a tick raises is swallowed.
  unfoldable pub run : List Tick → Daemon → List Submitted × Daemon
  run [] d = ([], d)
  run (t ∷ ts) d = let (s, d') = on_tick t d in let (ss, d'') = run ts d' in (submit s ss, d'')

-- The shutdown stops the listener and disconnects the reader.
unfoldable pub shutdown : Daemon → Daemon
shutdown d = record d { agent = record { listening = false; connected = false } }
