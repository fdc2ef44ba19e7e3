-- ===== src/Kiosk/Local.antt =====
-- Fingers on a reader at the site's own machine (`process_biometric_event` in attendance/service.py), and
-- the tokens of the kiosks (`KioskDevice.issue` in biometric/models.py).
use truck.Base.{ℕ, Bool, true, Option, none, some, List, ◌∷◌, Text, take}
use truck.Attendance.Record.{AttendanceRecord}
use truck.Attendance.Store.{Action, ◌>>=◌, pure}
use truck.Attendance.Service.{toggle_for_employee}
use truck.Biometric.Service.{Sdk, identify}
use truck.Biometric.Enroll.{BiometricTemplate, values}
use truck.Biometric.Auth.{KioskDevice}

abbrev pub toggle_named : (ℕ → ℕ) → (ℕ → ℕ) → Option ℕ → Action (Option AttendanceRecord)
toggle_named clock localtime none = pure none
toggle_named clock localtime (some employee_id) = do
  r ← toggle_for_employee clock localtime employee_id
  pure (some r)

-- `process_biometric_event`: all templates, also those of inactive employees.
unfoldable pub process_biometric_event :
    (ℕ → ℕ)
    → (ℕ → ℕ)
    → {M : Type 0} → Sdk M
    → Bool
    → ℕ
    → List ℕ
    → List BiometricTemplate
    → M
    → Action (Option AttendanceRecord)
process_biometric_event clock localtime sdk has_sdk min_score template templates m =
    toggle_named clock localtime (identify sdk has_sdk min_score template (values templates) m).0

-- `KioskDevice.issue`, with the token that was drawn; the key of the row is the next one. The column
-- `token_hash` is unique, and the database refuses a second row with the hash.
unfoldable pub issue :
    (Text → Text) → Text → Text → ℕ → List KioskDevice → KioskDevice × List KioskDevice
issue hash name raw_token pk devices =
    let d : KioskDevice = record {
      pk = pk;
      name = name;
      token_hash = hash raw_token;
      token_prefix = take 8 raw_token;
      is_active = true;
      last_seen_at = none;
      last_seen_ip = none;
    } in
    (d, d ∷ devices)
