-- ===== src/Kiosk/Cache.antt =====
-- The kiosk's copy of the templates (`TemplateCache` of kiosk_agent.py), and the form in which templates
-- travel (biometric/api_views.py).
pub mod RoundTrip
use truck.Base.{ℕ, Bool, true, false, Option, none, some, List, [], ◌∷◌, Text, ℤ}
use truck.Biometric.Enroll.{Db, RequestId, Payload, malformed, enrolling, sync}
use truck.Kiosk.Base64.{b64encode, b64decode}

-- The rows of the reply of `KioskTemplateSyncView.get`.
abbrev pub encode_rows : List (ℕ × List ℕ) → List (ℕ × Text)
encode_rows [] = []
encode_rows ((employee_id, template) ∷ rows) = (employee_id, b64encode template) ∷ encode_rows rows

unfoldable pub templates_json : Db → List (ℕ × Text)
templates_json db = encode_rows (sync db)

-- The comprehension of `refresh`; `binascii.Error` is `none`.
abbrev pub cons_row : ℕ → Option (List ℕ) → Option (List (ℕ × List ℕ)) → Option (List (ℕ × List ℕ))
cons_row employee_id none rows = none
cons_row employee_id (some template) none = none
cons_row employee_id (some template) (some rows) = some ((employee_id, template) ∷ rows)

abbrev pub decode_rows : List (ℕ × Text) → Option (List (ℕ × List ℕ))
decode_rows [] = some []
decode_rows ((employee_id, text) ∷ rows) =
    cons_row employee_id (b64decode false text) (decode_rows rows)

-- What the request gives: a `RequestException`, or the rows.
pub data Fetched : Type 0 where
  request_failed : Fetched
  rows : List (ℕ × Text) → Fetched

-- What a refresh does; the two exceptions leave the cache as it is.
pub data Refreshed : Type 0 where
  request_exception binascii_error : Refreshed
  replaced : List (ℕ × List ℕ) → Refreshed

abbrev pub replace : Option (List (ℕ × List ℕ)) → Refreshed
replace none = binascii_error
replace (some cache) = replaced cache

-- `TemplateCache.refresh`
unfoldable pub refresh : Fetched → Refreshed
refresh request_failed = request_exception
refresh (rows rs) = replace (decode_rows rs)

-- `_refresh_loop`, one request each time, until the stop flag is set: an exception that is no
-- `RequestException` ends its thread.
unfoldable pub refresh_loop : List Fetched → List (ℕ × List ℕ) → List (ℕ × List ℕ)
refresh_loop [] cache = cache
refresh_loop (f ∷ fs) cache = elim (refresh f) [
  | request_exception ↦ refresh_loop fs cache
  | binascii_error ↦ cache
  | replaced cache' ↦ refresh_loop fs cache'
]

-- The body of an enrolment (`KioskEnrollView.post`), once its numbers are read.
abbrev pub with_template : ℤ → ℤ → RequestId → Option (List ℕ) → Payload
with_template employee_id finger_index request none = malformed
with_template employee_id finger_index request (some template) =
    enrolling employee_id template finger_index request

unfoldable pub parse_enroll : ℤ → Text → ℤ → RequestId → Payload
parse_enroll employee_id template_b64 finger_index request =
    with_template employee_id finger_index request (b64decode true template_b64)
