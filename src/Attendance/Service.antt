-- ===== src/Attendance/Service.antt =====
-- The attendance service (attendance/service.py). The clock's readings and the conversion of an
-- instant to the local time of day are parameters.
pub mod Rows
pub mod Invariant
pub mod Saves
pub mod Scans
pub mod Cycle
pub mod Steps
pub mod Toggle
pub mod Refusals
pub mod Sweep
pub mod Labels
use truck.Base.{
  ℕ, ◌+◌, ◌-◌, ◌*◌, ◌/◌, ◌≤◌, max, Bool, true, false, not, ◌&&◌, Option, none, some, List, [], ◌∷◌,
  String, ◌==◌, ltb, leb, if◌then◌else◌, is_none, select, latest,
}
use truck.Employees.Model.{Employee}
use truck.Attendance.Record.{AttendanceRecord, PresenceEvent, Direction, dir_in, dir_out, second}
use truck.Attendance.Store.{
  Db, inactive, no_lunch_start, no_lunch_end, no_open_record, value_error, duplicate_scan, Action,
  ◌>>=◌, ◌>>◌, pure, raise, gets, now, get_employee, save_new, save, create_event,
}

abbrev pub minute : ℕ
minute = 60 * second

abbrev pub scan_cooldown : ℕ
scan_cooldown = 3 * minute

abbrev pub max_open_duration : ℕ
max_open_duration = 16 * 60 * minute

abbrev pub lunch_window_start : ℕ
lunch_window_start = 11 * 60 * minute

abbrev pub lunch_window_end : ℕ
lunch_window_end = (14 * 60 + 30) * minute

unfoldable pub presence_label : Direction → Bool → String
presence_label dir_in true = "Retorno do Almoço"
presence_label dir_out true = "Saída para o Almoço"
presence_label dir_in false = "Entrada"
presence_label dir_out false = "Saída"

-- The filter of `get_open_record`.
abbrev pub is_open : ℕ → AttendanceRecord → Bool
is_open employee_id r = r.employee == employee_id && (is_none r.exit_time && not r.auto_closed)

-- `.first()` follows the model's ordering, the latest entry.
unfoldable pub open_record : ℕ → List AttendanceRecord → Option AttendanceRecord
open_record employee_id rows = latest (λ r. r.entry_time) (select (is_open employee_id) rows)

unfoldable pub get_open_record : ℕ → Action (Option AttendanceRecord)
get_open_record employee_id = gets (λ db. open_record employee_id db.records)

-- Of events at one instant the last one created is taken.
unfoldable pub last_event : ℕ → List PresenceEvent → Option PresenceEvent
last_event employee_id events =
    latest (λ e. e.timestamp) (select (λ e. e.employee == employee_id) events)

abbrev pub status_of : Option PresenceEvent → Direction × Bool × Option ℕ
status_of none = (dir_out, false, none)
status_of (some e) = (e.direction, e.is_lunch, some e.timestamp)

unfoldable pub get_current_status : ℕ → Action (Direction × Bool × Option ℕ)
get_current_status employee_id = gets (λ db. status_of (last_event employee_id db.events))

abbrev pub require_active : Employee → Action (Unit {0})
require_active emp = if emp.is_active then pure tt else raise (value_error (inactive emp.name))

unfoldable pub check_active : ℕ → Action (Unit {0})
check_active employee_id = do emp ← get_employee employee_id; require_active emp

module _ (clock localtime : ℕ → ℕ) where
  unfoldable pub within_lunch_window : Action Bool
  within_lunch_window = do
    t ← now clock
    pure (leb lunch_window_start (localtime t) && leb (localtime t) lunch_window_end)

  unfoldable pub next_action_label : Direction → Bool → Action String
  unfolding within_lunch_window
  next_action_label dir_out false = pure "Entrada"
  next_action_label dir_in false = do
    inside ← within_lunch_window
    pure (if inside then "Saída para o Almoço" else "Saída")
  next_action_label dir_out true = pure "Retorno do Almoço"
  next_action_label dir_in true = pure "Saída"

  unfoldable pub close_stale : Option AttendanceRecord → Action (Option AttendanceRecord)
  close_stale none = pure none
  close_stale (some r) = do
    t ← now clock
    if leb t (r.entry_time + max_open_duration)
        then pure none
        else (do saved ← save (record r { auto_closed = true }); pure (some saved))

  unfoldable pub auto_close_if_stale : ℕ → Action (Option AttendanceRecord)
  unfolding close_stale
  auto_close_if_stale employee_id = do r ← get_open_record employee_id; close_stale r

  unfoldable pub record_entry : ℕ → Action AttendanceRecord
  record_entry employee_id = do
    check_active employee_id
    t ← now clock
    r ← save_new (record {
      pk = 0;
      employee = employee_id;
      entry_time = t;
      lunch_start = none;
      lunch_end = none;
      exit_time = none;
      date = 0;
      auto_closed = false;
    })
    create_event (record {
      employee = employee_id;
      direction = dir_in;
      is_lunch = false;
      timestamp = t;
      attendance_record = some r.pk;
    })
    pure r

  -- The shared tail of the other `record_*`: save the row and log the event.
  abbrev pub log_scan : ℕ → Direction → Bool → ℕ → AttendanceRecord → Action AttendanceRecord
  log_scan employee_id direction lunch t r = do
    saved ← save r
    create_event (record {
      employee = employee_id;
      direction = direction;
      is_lunch = lunch;
      timestamp = t;
      attendance_record = some saved.pk;
    })
    pure saved

  unfoldable pub start_lunch : ℕ → Option AttendanceRecord → Action AttendanceRecord
  start_lunch employee_id none = raise (value_error no_lunch_start)
  start_lunch employee_id (some r) =
      if not (is_none r.lunch_start) then raise (value_error no_lunch_start) else (do
        t ← now clock
        log_scan employee_id dir_out true t (record r { lunch_start = some t }))

  unfoldable pub record_lunch_start : ℕ → Action AttendanceRecord
  unfolding start_lunch
  record_lunch_start employee_id = do
    check_active employee_id
    r ← get_open_record employee_id
    start_lunch employee_id r

  unfoldable pub end_lunch : ℕ → Option AttendanceRecord → Action AttendanceRecord
  end_lunch employee_id none = raise (value_error no_lunch_end)
  end_lunch employee_id (some r) =
      if is_none r.lunch_start
      then raise (value_error no_lunch_end)
      else if not (is_none r.lunch_end)
      then raise (value_error no_lunch_end)
      else (do t ← now clock; log_scan employee_id dir_in true t (record r { lunch_end = some t }))

  unfoldable pub record_lunch_end : ℕ → Action AttendanceRecord
  unfolding end_lunch
  record_lunch_end employee_id = do
    check_active employee_id
    r ← get_open_record employee_id
    end_lunch employee_id r

  unfoldable pub leave : ℕ → Option AttendanceRecord → Action AttendanceRecord
  leave employee_id none = raise (value_error no_open_record)
  leave employee_id (some r) = do
    t ← now clock
    log_scan employee_id dir_out false t (record r { exit_time = some t })

  unfoldable pub record_exit : ℕ → Action AttendanceRecord
  unfolding leave
  record_exit employee_id = do
    check_active employee_id
    r ← get_open_record employee_id
    leave employee_id r

  unfoldable pub hold_off : ℕ → Option ℕ → Action (Unit {0})
  hold_off employee_id none = pure tt
  hold_off employee_id (some last_ts) = do
    t ← now clock
    if ltb t (last_ts + scan_cooldown)
        then (do
          emp ← get_employee employee_id
          raise (duplicate_scan emp.name (max 1 ((last_ts + scan_cooldown - t) / second))))
        else pure tt

  unfoldable pub check_cooldown : ℕ → Action (Unit {0})
  unfolding hold_off
  check_cooldown employee_id = do
    status ← get_current_status employee_id
    hold_off employee_id status.2

  -- The choice that `toggle_for_employee` makes from the open record.
  unfoldable pub advance : ℕ → Option AttendanceRecord → Action AttendanceRecord
  advance employee_id none = record_entry employee_id
  advance employee_id (some r) =
      if is_none r.lunch_start
      then (do
        inside ← within_lunch_window
        if inside then record_lunch_start employee_id else record_exit employee_id)
      else if is_none r.lunch_end
      then record_lunch_end employee_id
      else record_exit employee_id

  unfoldable pub toggle_for_employee : ℕ → Action AttendanceRecord
  unfolding advance
  toggle_for_employee employee_id = do
    check_active employee_id
    check_cooldown employee_id
    auto_close_if_stale employee_id
    r ← get_open_record employee_id
    advance employee_id r
