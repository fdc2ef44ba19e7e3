-- ===== src/Kiosk/Scan.antt =====
-- The endpoint to which a kiosk reports a scan (`KioskScanReportView` in biometric/api_views.py).
pub mod Answers
use truck.Base.{ℕ, Bool, Option, ℤ, pos, negsuc, String, Text}
use truck.Attendance.Record.{AttendanceRecord, Direction}
use truck.Attendance.Store.{
  Db, Reason, Result, ok, err, does_not_exist, value_error, duplicate_scan, validation_error,
  Action, ◌>>=◌, pure, get_employee,
}
use truck.Attendance.Service.{presence_label, get_current_status, toggle_for_employee}

-- The body of the post, as `json` and `int` read it: `overflow` is an infinite number, which `int`
-- refuses with an exception that the view does not catch.
pub data Payload : Type 0 where
  malformed overflow : Payload
  scan_of : ℤ → Payload

pub record Scanned : Type 0 where
  pub employee_id : ℕ
  pub employee_name : Text
  pub direction : Direction
  pub is_lunch : Bool
  pub label : String
  pub timestamp : Option ℕ
  pub record_id : ℕ

pub data Reply : Type 0 where
  bad_request server_error employee_not_found : Reply
  duplicate : Text → ℕ → Reply
  employee_inactive : Reason → Reply
  registered : Scanned → Reply

-- What follows a scan that was recorded.
unfoldable pub describe : ℕ → AttendanceRecord → Action Reply
describe employee_id r = do
  status ← get_current_status employee_id
  emp ← get_employee r.employee
  pure (
      registered (record {
        employee_id = employee_id;
        employee_name = emp.name;
        direction = status.0;
        is_lunch = status.1;
        label = presence_label status.0 status.1;
        timestamp = status.2;
        record_id = r.pk;
      }))

abbrev pub settle : Result Reply × Db → Reply × Db
settle (ok reply, db) = (reply, db)
settle (err e, db) = (server_error, db)

-- The `except` clauses. A `ValidationError` is no `ValueError`.
abbrev pub answer : ℕ → Result AttendanceRecord × Db → Reply × Db
answer employee_id (ok r, db) = settle (describe employee_id r db)
answer employee_id (err does_not_exist, db) = (employee_not_found, db)
answer employee_id (err (duplicate_scan name wait), db) = (duplicate name wait, db)
answer employee_id (err (value_error reason), db) = (employee_inactive reason, db)
answer employee_id (err (validation_error fields), db) = (server_error, db)

-- `KioskScanReportView.post`. No row has a negative key.
unfoldable pub post : (ℕ → ℕ) → (ℕ → ℕ) → Payload → Db → Reply × Db
post clock localtime malformed db = (bad_request, db)
post clock localtime overflow db = (server_error, db)
post clock localtime (scan_of (negsuc n)) db = (employee_not_found, db)
post clock localtime (scan_of (pos employee_id)) db =
    answer employee_id (toggle_for_employee clock localtime employee_id db)
