-- ===== src/Kiosk/Scan/Answers.antt =====
-- What the replies to a reported scan say (`KioskScanReportView` in biometric/api_views.py).
use truck.Base.{
  ℕ, ◌+◌, ◌≤◌, ◌<◌, ◌≡◌, refl, ◌∙◌, ap, false, ◌⊎◌, inl, inr, none, some, arith, ltb, Bool-cases,
  Option-cases, pos, negsuc,
}
use truck.Employees.Model.{Employee}
use truck.Attendance.Record.{AttendanceRecord, PresenceEvent}
use truck.Attendance.Store.{Db, Error, Result, ok, err, inactive}
use truck.Attendance.Service.{scan_cooldown, presence_label, get_current_status, last_event}
use truck.Attendance.Service.Invariant.{IsValid}
use truck.Attendance.Service.Saves.{IsMonotone}
use truck.Attendance.Service.Scans.{IsActive, Scan, Records, direction_of, lunch_of}
use truck.Attendance.Service.Steps.{read}
use truck.Attendance.Service.Toggle.{due, toggle_advances}
use truck.Attendance.Service.Refusals.{
  employee_of, retry_after, toggle_unknown, toggle_inactive, toggle_duplicate,
}
use truck.Kiosk.Scan.{
  Payload, malformed, overflow, scan_of, Scanned, Reply, bad_request, server_error,
  employee_not_found, duplicate, employee_inactive, registered, describe, answer, post,
}

-- The reply names the scan that was recorded, and the employee.
pub record Registers (clock : ℕ → ℕ) (e : ℕ) (scan : Scan) (db : Db) (r : Reply × Db) : Type 0 where
  pub row : AttendanceRecord
  pub recorded : Records clock e scan db (ok row, r.1)
  pub employee : Employee
  pub known : employee_of e db.employees ≡ some employee
  pub said : Scanned
  pub reply : r.0 ≡ registered said
  pub employee_id : said.employee_id ≡ e
  pub employee_name : said.employee_name ≡ employee.name
  pub direction : said.direction ≡ direction_of scan
  pub is_lunch : said.is_lunch ≡ lunch_of scan
  pub label : said.label ≡ presence_label (direction_of scan) (lunch_of scan)
  pub record_id : said.record_id ≡ row.pk

-- The reply names the reason, and nothing was written.
pub data Denies (clock : ℕ → ℕ) (e : ℕ) (db : Db) : Reply × Db → Type 0 where
  unknown : employee_of e db.employees ≡ none → Denies clock e db (employee_not_found, db)
  is_inactive :
      (emp : Employee)
      → employee_of e db.employees ≡ some emp
      → emp.is_active ≡ false
      → Denies clock e db (employee_inactive (inactive emp.name), db)
  too_soon :
      (emp : Employee) (ev : PresenceEvent) (wait : ℕ)
      → employee_of e db.employees ≡ some emp
      → last_event e db.events ≡ some ev
      → clock db.reads < ev.timestamp + scan_cooldown
      → 1 ≤ wait
      → Denies clock e db (duplicate emp.name wait, read db)

module _ (clock localtime : ℕ → ℕ) where
  abbrev pub Reports : Payload → Db → Reply × Db → Type 0
  Reports malformed db r = r ≡ (bad_request, db)
  Reports overflow db r = r ≡ (server_error, db)
  Reports (scan_of (negsuc n)) db r = r ≡ (employee_not_found, db)
  Reports (scan_of (pos e)) db r =
      Registers clock e (due clock localtime e db) db r ⊎ Denies clock e db r

  err_ok : {a : AttendanceRecord} {error : Error} → err error ≡ ok a → ⊥
  err_ok q = ground arith

  module _ (e : ℕ) (db : Db) where
    abbrev scanned : Employee → PresenceEvent → ℕ → Scanned
    scanned emp ev pk = record {
      employee_id = e;
      employee_name = emp.name;
      direction = ev.direction;
      is_lunch = ev.is_lunch;
      label = presence_label ev.direction ev.is_lunch;
      timestamp = some ev.timestamp;
      record_id = pk;
    }

    describe-eq :
        (row : AttendanceRecord) (emp : Employee) (ev : PresenceEvent)
        → last_event e db.events ≡ some ev
        → row.employee ≡ e
        → employee_of e db.employees ≡ some emp
        → describe e row db ≡ (ok (registered (scanned emp ev row.pk)), db)
    unfolding describe get_current_status
    describe-eq row emp ev l o f =
        let g : employee_of row.employee db.employees ≡ some emp = rw o f in rw l (rw g refl)

  module _ (e : ℕ) (db : Db) where
    ok_row : {a b : AttendanceRecord} → ok a ≡ ok b → a ≡ b
    ok_row q = cc

    recorded-Registers :
        (scan : Scan) (x : Result AttendanceRecord × Db)
        → IsActive e db.employees
        → Records clock e scan db x
        → Registers clock e scan db (answer e x)
    recorded-Registers scan (err error, db') a r = absurd (err_ok r.done)
    recorded-Registers scan (ok row, db') (emp, found, active) r =
        let same : row ≡ r.row = ok_row r.done in
        let here : employee_of e db'.employees ≡ some emp =
          ap (employee_of e) r.others.staff ∙ found in
        let owner : row.employee ≡ e = ap (λ x. x.employee) same ∙ r.owner in
        rw (describe-eq e db' row emp r.event r.logged owner here) (record {
          row = row;
          recorded = r;
          employee = emp;
          known = found;
          said = scanned e db' emp r.event row.pk;
          reply = refl;
          employee_id = refl;
          employee_name = refl;
          direction = r.direction;
          is_lunch = r.lunch;
          label = rw (r.direction, r.lunch) refl;
          record_id = refl;
        })

  -- On valid tables and under a clock that does not run backwards, a scan that is reported for an
  -- employee is either recorded, and then it is the scan that is due and the reply names it, its label
  -- and the employee; or the employee is unknown or inactive, or scanned less than the cooldown ago,
  -- and the reply says so, and nothing is written. A body that cannot be read is refused.
  pub post-Reports :
      IsMonotone clock
      → (p : Payload) (db : Db) → IsValid clock db
      → Reports p db (post clock localtime p db)
  unfolding post
  post-Reports mono malformed db v = refl
  post-Reports mono overflow db v = refl
  post-Reports mono (scan_of (negsuc n)) db v = refl
  post-Reports mono (scan_of (pos e)) db v = elim (Option-cases (employee_of e db.employees)) [
    | inl h ↦ rw (toggle_unknown clock localtime e db h) (inr (unknown h))
    | inr (emp, f) ↦ elim (Bool-cases emp.is_active) [
      | inr i ↦ rw (toggle_inactive clock localtime e db emp f i) (inr (is_inactive emp f i))
      | inl a ↦ elim (Option-cases (last_event e db.events)) [
        | inl l ↦ inl (
            recorded-Registers e db _ _ (emp, f, a)
              (toggle_advances clock localtime mono e db v (emp, f, a) (rw l tt)))
        | inr (ev, l) ↦ elim (Bool-cases (ltb (clock db.reads) (ev.timestamp + scan_cooldown))) [
          | inl k ↦
              let soon : clock db.reads < ev.timestamp + scan_cooldown = ground arith in
              let d = toggle_duplicate clock localtime e db emp ev f a l soon in
              rw d.0 (inr (too_soon emp ev (retry_after clock db ev) f l soon d.1))
          | inr k ↦ inl (
              recorded-Registers e db _ _ (emp, f, a)
                (toggle_advances clock localtime mono e db v (emp, f, a) (rw l (ground arith))))
        ]
      ]
    ]
  ]
