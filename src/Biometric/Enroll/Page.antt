-- ===== src/Biometric/Enroll/Page.antt =====
-- The enrolment page (`EmployeeEnrollView` in employees/views.py). What the fingerprint reader does is
-- an argument.
use truck.Base.{
  ℕ, Bool, true, false, Option, none, some, List, length, ◌==◌, leb, if◌then◌else◌, is_none, select,
  first, pos,
}
use truck.Employees.Model.{Employee}
use truck.Biometric.Enroll.{
  BiometricTemplate, Db, template_of, employee_of, get_or_create_pending, cancel_pending,
  save_template, clean,
}

-- No reader is found, one of the exceptions of a capture, or the template that was captured.
pub data Reader : Type 0 where
  not_found not_connected timeout error : Reader
  captured : List ℕ → Reader

pub data Page : Type 0 where
  missing already_enrolled waiting cancelled reader_lost timed_out failed empty_template too_large
        save_failed :
      Page
  saved : Bool → Page

-- The row of `get_or_create`, or the one that was there with the new template.
abbrev pub captured_row : ℕ → List ℕ → Option BiometricTemplate → BiometricTemplate × Bool
captured_row employee bytes none =
    (record { employee = employee; template = bytes; finger_index = pos 0 }, true)
captured_row employee bytes (some t) = (record t { template = bytes }, false)

abbrev pub store_template : BiometricTemplate × Bool → Db → Page × Db
store_template (t, created) db =
    if clean t
    then (saved created, record db { templates = save_template (t, created) db.templates })
    else (save_failed, db)

abbrev pub take_capture : ℕ → Option ℕ → ℕ → Reader → Db → Page × Db
take_capture employee user now not_found db =
    (waiting, (get_or_create_pending employee user now db).1)
take_capture employee user now not_connected db = (reader_lost, db)
take_capture employee user now timeout db = (timed_out, db)
take_capture employee user now error db = (failed, db)
take_capture employee user now (captured bytes) db =
    if length bytes == 0
    then (empty_template, db)
    else if leb (length bytes) 10240
    then store_template
        (captured_row employee bytes (first (select (template_of employee) db.templates))) db
    else (too_large, db)

abbrev pub post_for : Bool → Option ℕ → ℕ → Reader → Option Employee → Db → Page × Db
post_for cancel user now reader none db = (missing, db)
post_for cancel user now reader (some e) db =
    if cancel
    then (cancelled, cancel_pending e.pk now db)
    else if is_none (first (select (template_of e.pk) db.templates))
    then take_capture e.pk user now reader db
    else (already_enrolled, db)

-- `EmployeeEnrollView.post`: `cancel` says that the form's action is `cancel`.
unfoldable pub post : ℕ → Bool → Option ℕ → ℕ → Reader → Db → Page × Db
post pk cancel user now reader db = post_for cancel user now reader (employee_of pk db) db
