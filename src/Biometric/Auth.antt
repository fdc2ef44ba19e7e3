-- ===== src/Biometric/Auth.antt =====
-- Authentication of the kiosks (biometric/auth.py, `KioskDevice` in biometric/models.py). An instant
-- is a number of microseconds. The hash of a token is an argument, as are the readings of the clocks.
pub mod Throttle
pub mod Access
mod Examples
use truck.Base.{
  ℕ, ◌*◌, Bool, true, false, not, ◌&&◌, Option, none, some, List, [], ◌∷◌, Text, codes, text_eq,
  strip, before, truthy, drop, take, lookup, insert, pop, ltb, ◌==◌, if◌then◌else◌, select, first,
}
use truck.RateLimit.Counter.{Limits, Entry, is_blocked, remaining, count_failure, second}

abbrev pub limits : Limits
limits = record { attempts = 10; window = 600 * second; block = 600 * second }

pub record KioskDevice : Type 0 where
  pub pk : ℕ
  pub name : Text
  pub token_hash : Text
  pub token_prefix : Text
  pub is_active : Bool
  pub last_seen_at : Option ℕ
  pub last_seen_ip : Option Text

pub record Request : Type 0 where
  pub forwarded_for : Option Text
  pub remote_addr : Option Text
  pub authorization : Option Text

pub record State : Type 0 where
  pub failures : List (Text × Entry)
  pub devices : List KioskDevice

-- The monotonic clock on arrival and at a failure, and the wall clock at an authentication.
pub record Clock : Type 0 where
  pub arrived : ℕ
  pub failed : ℕ
  pub wall : ℕ

-- Status 429 with the seconds to wait, status 401, an exception that no handler catches, or the
-- view behind with `self.device`.
pub data Outcome : Type 0 where
  too_many : ℕ → Outcome
  unauthorized : Outcome
  unicode_error : Outcome
  dispatched : KioskDevice → Outcome

abbrev or_else : Text → Option Text → Text
or_else t none = t
or_else t (some u) = u

unfoldable pub client_ip : Request → Text
client_ip r =
    if truthy (or_else [] r.forwarded_for)
    then strip (before b',' (or_else [] r.forwarded_for))
    else or_else (codes "0.0.0.0") r.remote_addr

-- `auth_header[7:].strip()` behind `Bearer `, and else the empty text.
unfoldable pub raw_token : Request → Text
raw_token r =
    if text_eq (take 7 (or_else [] r.authorization)) (codes "Bearer ")
    then strip (drop 7 (or_else [] r.authorization))
    else []

-- Whether `encode('ascii')` succeeds.
abbrev pub is_ascii : Text → Bool
is_ascii [] = true
is_ascii (c ∷ t) = ltb c 128 && is_ascii t

-- `device.save(update_fields=['last_seen_at', 'last_seen_ip'])`
abbrev pub stamp : ℕ → ℕ → Option Text → List KioskDevice → List KioskDevice
stamp pk at ip [] = []
stamp pk at ip (d ∷ ds) =
    (if d.pk == pk then record d { last_seen_at = some at; last_seen_ip = ip } else d)
    ∷ stamp pk at ip ds

module _ (hash : Text → Text) where
  -- The row that `authenticate` looks up.
  abbrev pub device_for : Text → List KioskDevice → Option KioskDevice
  device_for token ds = first (select (λ d. text_eq d.token_hash (hash token) && d.is_active) ds)

  abbrev pub seen :
      ℕ
      → Option Text
      → List KioskDevice
      → Option KioskDevice
      → Option KioskDevice × List KioskDevice
  seen at ip ds none = (none, ds)
  seen at ip ds (some d) =
      (some (record d { last_seen_at = some at; last_seen_ip = ip }), stamp d.pk at ip ds)

  -- `KioskDevice.authenticate`, for a token that `encode('ascii')` accepts.
  unfoldable pub authenticate :
      Text → ℕ → Option Text → List KioskDevice → Option KioskDevice × List KioskDevice
  authenticate token at ip ds =
      if truthy token then seen at ip ds (device_for token ds) else (none, ds)

  unfoldable pub record_failure : ℕ → Text → State → State
  record_failure now ip s = record s {
    failures = insert ip (count_failure limits now (lookup ip s.failures)) s.failures;
  }

  -- What follows the authentication.
  abbrev pub admit : ℕ → Text → State → Option KioskDevice × List KioskDevice → Outcome × State
  admit now ip s (none, ds) = (unauthorized, record_failure now ip (record s { devices = ds }))
  admit now ip s (some d, ds) =
      (dispatched d, record { failures = pop ip s.failures; devices = ds })

  unfoldable pub verify : Clock → Text → Text → State → Outcome × State
  verify c ip token s =
      if is_ascii token
      then admit c.failed ip s (authenticate token c.wall (some ip) s.devices)
      else (unicode_error, s)

  abbrev pub respond : Clock → Text → Text → State → Option Entry → Outcome × State
  respond c ip token s none = verify c ip token s
  respond c ip token s (some e) =
      if is_blocked c.arrived (some e)
      then (too_many (remaining c.arrived e), s)
      else verify c ip token s

  unfoldable pub dispatch : Clock → Request → State → Outcome × State
  dispatch c r s = respond c (client_ip r) (raw_token r) s (lookup (client_ip r) s.failures)
