-- ===== src/Attendance/Service/Refusals.antt =====
-- What `toggle_for_employee` refuses (attendance/service.py), and that it ends in no other way.
use truck.Base.{
  ℕ, ◌+◌, ◌-◌, ◌/◌, ◌≤◌, ◌<◌, ◌≡◌, refl, true, false, ◌⊎◌, inl, inr, Option, none, some, arith, max,
  ltb, Bool-cases, Option-cases, ◌==◌, first, select, lt→ltb, List,
}
use truck.Employees.Model.{Employee}
use truck.Attendance.Record.{AttendanceRecord, PresenceEvent, second}
use truck.Attendance.Store.{
  Db, Result, err, Error, does_not_exist, value_error, duplicate_scan, inactive,
}
use truck.Attendance.Service.{
  scan_cooldown, get_current_status, last_event, check_active, check_cooldown, toggle_for_employee,
}
use truck.Attendance.Service.Invariant.{IsValid}
use truck.Attendance.Service.Saves.{IsMonotone}
use truck.Attendance.Service.Scans.{IsActive, Scan, Records, check_active_ok}
use truck.Attendance.Service.Steps.{read, Rested}
use truck.Attendance.Service.Toggle.{due, toggle_advances}

abbrev pub employee_of : ℕ → List Employee → Option Employee
employee_of e staff = first (select (λ x. x.pk == e) staff)

-- The whole seconds left of the cooldown, one at least.
abbrev pub retry_after : (ℕ → ℕ) → Db → PresenceEvent → ℕ
retry_after clock db ev = max 1 ((ev.timestamp + scan_cooldown - clock db.reads) / second)

-- The errors that a scan of employee `e` may be refused with, each with its reason.
pub data Refusal (clock : ℕ → ℕ) (e : ℕ) (db : Db) : Error → Type 0 where
  unknown : employee_of e db.employees ≡ none → Refusal clock e db does_not_exist
  is_inactive :
      (emp : Employee)
      → employee_of e db.employees ≡ some emp
      → emp.is_active ≡ false
      → Refusal clock e db (value_error (inactive emp.name))
  too_soon :
      (emp : Employee) (ev : PresenceEvent)
      → employee_of e db.employees ≡ some emp
      → emp.is_active ≡ true
      → last_event e db.events ≡ some ev
      → clock db.reads < ev.timestamp + scan_cooldown
      → Refusal clock e db (duplicate_scan emp.name (retry_after clock db ev))

-- The call raised the error, for its reason, and wrote to no table: at most the clock was read.
pub record Refuses (clock : ℕ → ℕ) (e : ℕ) (db : Db) (r : Result AttendanceRecord × Db)
    : Type 0 where
  pub error : Error
  pub raised : r.0 ≡ err error
  pub reason : Refusal clock e db error
  pub unchanged : (r.1 ≡ db) ⊎ (r.1 ≡ read db)

-- The employee may scan, and the call recorded the scan.
pub record Admits (clock : ℕ → ℕ) (e : ℕ) (scan : Scan) (db : Db) (r : Result AttendanceRecord × Db)
    : Type 0 where
  pub active : IsActive e db.employees
  pub rested : Rested (clock db.reads) (last_event e db.events)
  pub recorded : Records clock e scan db r

refused :
    {clock : ℕ → ℕ} {e : ℕ} {db db' : Db} {r : Result AttendanceRecord × Db} {error : Error}
    → Refusal clock e db error
    → r ≡ (err error, db')
    → (db' ≡ db) ⊎ (db' ≡ read db)
    → Refuses clock e db r
refused reason q a = rw q (record { error = _; raised = refl; reason = reason; unchanged = a })

module _ (clock localtime : ℕ → ℕ) (e : ℕ) (db : Db) where
  unknown_check : employee_of e db.employees ≡ none → check_active e db ≡ (err does_not_exist, db)
  unfolding check_active
  unknown_check h = ground arith

  inactive_check :
      (emp : Employee)
      → employee_of e db.employees ≡ some emp
      → emp.is_active ≡ false
      → check_active e db ≡ (err (value_error (inactive emp.name)), db)
  unfolding check_active
  inactive_check emp h k = ground arith

  -- A scan of an unknown employee raises `DoesNotExist` before anything is read or written.
  pub toggle_unknown :
      employee_of e db.employees ≡ none
      → toggle_for_employee clock localtime e db ≡ (err does_not_exist, db)
  unfolding toggle_for_employee
  toggle_unknown h = rw (unknown_check h, toggle_for_employee)

  -- So does one of an inactive employee raise `ValueError`.
  pub toggle_inactive :
      (emp : Employee)
      → employee_of e db.employees ≡ some emp
      → emp.is_active ≡ false
      → toggle_for_employee clock localtime e db ≡ (err (value_error (inactive emp.name)), db)
  unfolding toggle_for_employee
  toggle_inactive emp h k = rw (inactive_check emp h k, toggle_for_employee)

  too_soon_check :
      (emp : Employee) (ev : PresenceEvent)
      → employee_of e db.employees ≡ some emp
      → last_event e db.events ≡ some ev
      → ltb (clock db.reads) (ev.timestamp + scan_cooldown) ≡ true
      → check_cooldown clock localtime e db
        ≡ (err (duplicate_scan emp.name (retry_after clock db ev)), read db)
  unfolding check_cooldown get_current_status
  too_soon_check emp ev f h k = rw h (rw k (rw f))

  -- A scan of an active employee within the cooldown of the last event raises `DuplicateScanError`
  -- and writes nothing; the waiting time is one second at least, and 180 at most unless the clock
  -- lags behind that event.
  pub toggle_duplicate :
      (emp : Employee) (ev : PresenceEvent)
      → employee_of e db.employees ≡ some emp
      → emp.is_active ≡ true
      → last_event e db.events ≡ some ev
      → clock db.reads < ev.timestamp + scan_cooldown
      → (toggle_for_employee clock localtime e db
          ≡ (err (duplicate_scan emp.name (retry_after clock db ev)), read db))
        × (1 ≤ retry_after clock db ev)
        × (ev.timestamp ≤ clock db.reads → retry_after clock db ev ≤ 180)
  unfolding toggle_for_employee
  toggle_duplicate emp ev f a h k = (
    rw (check_active_ok e db (emp, f, a), toggle_for_employee)
        (rw (too_soon_check emp ev f h (lt→ltb _ _ k))),
    omega arith,
    λ past. omega arith,
  )

  -- On valid tables, and with a clock that does not run backwards, every scan ends in one of two
  -- ways. The employee is active and the last event, if any, is at least the cooldown ago: then it
  -- records the scan that is due. Or it is refused, and no table has changed: with `DoesNotExist` only
  -- for an unknown employee, with `ValueError` only for an inactive one, with `DuplicateScanError` only
  -- for an active one who scanned less than the cooldown ago. In particular a scan never fails
  -- validation.
  pub toggle_total :
      IsMonotone clock
      → IsValid clock db
      → let r = toggle_for_employee clock localtime e db in
        Admits clock e (due clock localtime e db) db r ⊎ Refuses clock e db r
  toggle_total mono v = elim (Option-cases (employee_of e db.employees)) [
    | inl h ↦ inr (refused (unknown h) (toggle_unknown h) (inl refl))
    | inr (emp, f) ↦ elim (Bool-cases emp.is_active) [
      | inr i ↦ inr (refused (is_inactive emp f i) (toggle_inactive emp f i) (inl refl))
      | inl a ↦ elim (Option-cases (last_event e db.events)) [
        | inl l ↦ inl (admitted mono v emp f a (rw l tt))
        | inr (ev, l) ↦ elim (Bool-cases (ltb (clock db.reads) (ev.timestamp + scan_cooldown))) [
          | inl k ↦
              let soon : clock db.reads < ev.timestamp + scan_cooldown = ground arith in
              inr (
                refused (too_soon emp ev f a l soon) (toggle_duplicate emp ev f a l soon).0
                  (inr refl))
          | inr k ↦ inl (admitted mono v emp f a (rw l (ground arith)))
        ]
      ]
    ]
  ]
    where
      admitted :
          IsMonotone clock
          → IsValid clock db
          → (emp : Employee) → employee_of e db.employees ≡ some emp
          → emp.is_active ≡ true
          → Rested (clock db.reads) (last_event e db.events)
          → Admits clock e (due clock localtime e db) db (toggle_for_employee clock localtime e db)
      admitted mono v emp f a rested = record {
        active = (emp, f, a);
        rested = rested;
        recorded = toggle_advances clock localtime mono e db v (emp, f, a) rested;
      }
