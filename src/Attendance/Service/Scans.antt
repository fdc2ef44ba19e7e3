-- ===== src/Attendance/Service/Scans.antt =====
-- The four `record_*` methods (attendance/service.py), each on the phase in which it is allowed.
use truck.Base.{
  ℕ, suc, ◌+◌, ◌≤◌, ◌≡◌, refl, ◌≢◌, Bool, true, false, Option, none, some, List, ◌∷◌, arith, ◌==◌,
  select, first,
}
use truck.Employees.Model.{Employee}
use truck.Attendance.Record.{
  AttendanceRecord, PresenceEvent, Direction, dir_in, dir_out, second, clean, with_date,
}
use truck.Attendance.Store.{Db, Result, ok, save, save_new}
use truck.Attendance.Service.{get_open_record, log_scan, last_event, check_active, record_entry}
use truck.Attendance.Service.Rows.{Rows, first_open, open_record-eq}
use truck.Attendance.Service.Invariant.{
  Phase, away, working, at_lunch, returned, phase_of, IsValid, OthersKept, Punched, last_event-cons,
}
use truck.Attendance.Service.Saves.{
  event_of, entry_row, IsMonotone, entered, logged, entered-IsValid, entered-OthersKept,
}

-- The employee exists and is active.
abbrev pub IsActive : ℕ → List Employee → Type 0
IsActive e staff =
    (emp : Employee) × (first (select (λ x. x.pk == e) staff) ≡ some emp) × (emp.is_active ≡ true)

-- The four kinds of scan of a day.
pub data Scan : Type 0 where
  entrada saida_almoco retorno_almoco saida : Scan

-- The phase that a scan leads to, and the status that it logs.
abbrev pub after : Scan → Phase
after entrada = working
after saida_almoco = at_lunch
after retorno_almoco = returned
after saida = away

abbrev pub direction_of : Scan → Direction
direction_of entrada = dir_in
direction_of saida_almoco = dir_out
direction_of retorno_almoco = dir_in
direction_of saida = dir_out

abbrev pub lunch_of : Scan → Bool
lunch_of entrada = false
lunch_of saida_almoco = true
lunch_of retorno_almoco = true
lunch_of saida = false

-- A call for employee `e` that began at `db` has recorded the scan and nothing else.
pub record Records (clock : ℕ → ℕ) (e : ℕ) (scan : Scan) (db : Db)
    (r : Result AttendanceRecord × Db) : Type 0 where
  pub row : AttendanceRecord
  pub done : r.0 ≡ ok row
  pub valid : IsValid clock r.1
  pub others : OthersKept e db r.1
  pub phase : phase_of (first_open e r.1.records) ≡ after scan
  pub event : PresenceEvent
  pub logged : last_event e r.1.events ≡ some event
  pub appended : r.1.events ≡ event ∷ db.events
  pub direction : event.direction ≡ direction_of scan
  pub lunch : event.is_lunch ≡ lunch_of scan
  pub record_id : event.attendance_record ≡ some row.pk
  pub owner : row.employee ≡ e

-- The last event of the employee lies at least a second back.
abbrev pub Slack : ℕ → Option PresenceEvent → Type 0
Slack t none = Unit
Slack t (some e) = e.timestamp + second ≤ t

pub check_active_ok : (e : ℕ) (db : Db) → IsActive e db.employees → check_active e db ≡ (ok tt, db)
unfolding check_active
check_active_ok e db (emp, found, active) = ground arith

clean-entry_row : (e k t : ℕ) → clean (entry_row e k t) ≡ none
unfolding clean
clean-entry_row e k t = refl

pub get_open_ok :
    (e : ℕ) (db : Db) (o : Option AttendanceRecord)
    → Rows db.next_record db.records
    → first_open e db.records ≡ o
    → get_open_record e db ≡ (ok o, db)
unfolding get_open_record
get_open_ok e db o v h = rw (open_record-eq db.next_record e db.records v, h)

-- A punch a second or more after the last event passes validation.
module _ (r : AttendanceRecord) (ev : PresenceEvent) (t : ℕ) where
  pub clean-lunch_start :
      Punched (some r) (some ev)
      → r.lunch_start ≡ none
      → r.exit_time ≡ none
      → ev.timestamp + second ≤ t
      → clean (with_date (record r { lunch_start = some t })) ≡ none
  unfolding clean
  clean-lunch_start p s x h = ground arith

  pub clean-lunch_end :
      Punched (some r) (some ev)
      → r.lunch_start ≢ none
      → r.lunch_end ≡ none
      → r.exit_time ≡ none
      → ev.timestamp + second ≤ t
      → clean (with_date (record r { lunch_end = some t })) ≡ none
  unfolding clean
  clean-lunch_end p s l x h = ground arith

  pub clean-exit :
      Punched (some r) (some ev)
      → r.exit_time ≡ none
      → ev.timestamp + second ≤ t
      → clean (with_date (record r { exit_time = some t })) ≡ none
  unfolding clean
  clean-exit p x h = ground arith

module _ (clock localtime : ℕ → ℕ) (mono : IsMonotone clock) where
  entry_result :
      (e : ℕ) (db : Db)
      → IsActive e db.employees
      → record_entry clock localtime e db
        ≡ (ok (entry_row e db.next_record (clock db.reads)), entered clock e db)
  unfolding record_entry save_new
  entry_result e db (emp, found, active) =
      rw (check_active_ok e db (emp, found, active), record_entry)
        (rw (clean-entry_row e db.next_record (clock db.reads), save_new))

  pub record_entry_lem :
      (e : ℕ) (db : Db)
      → IsValid clock db
      → IsActive e db.employees
      → first_open e db.records ≡ none
      → Records clock e entrada db (record_entry clock localtime e db)
  record_entry_lem e db v a h = rw (entry_result e db a) (record {
    row = entry_row e db.next_record (clock db.reads);
    done = refl;
    valid = entered-IsValid clock mono e db v h (clean-entry_row e db.next_record (clock db.reads));
    others = entered-OthersKept clock e db;
    phase = ground arith;
    event = event_of e dir_in false (clock db.reads) db.next_record;
    logged =
        last_event-cons (clock db.reads) (event_of e dir_in false (clock db.reads) db.next_record)
          db.events v.past (omega arith);
    appended = refl;
    direction = refl;
    lunch = refl;
    record_id = refl;
    owner = refl;
  })

  pub log_scan_result :
      (e : ℕ) (direction : Direction) (lunch : Bool) (r : AttendanceRecord) (db : Db)
      → clean (with_date r) ≡ none
      → log_scan clock localtime e direction lunch
          (clock db.reads)
          r
          (record db { reads = suc db.reads })
        ≡ (ok (with_date r), logged clock e direction lunch (with_date r) db)
  unfolding save
  log_scan_result e direction lunch r db c = rw (c, save)
