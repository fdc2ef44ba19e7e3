-- ===== src/Attendance/Examples.antt =====
-- A working day on the attendance clock (attendance/service.py), one reading an hour.
use truck.Base.{
  ℕ, ◌+◌, ◌-◌, ◌*◌, ◌%◌, ◌≤◌, ◌≡◌, ◌≢◌, refl, Bool, true, false, ◌⊎◌, inl, inr, ◌↔◌, none, some, [],
  ◌∷◌, arith, codes, Bool-cases, ◌==◌, zero, suc, map,
}
use truck.Employees.Model.{Employee}
use truck.Attendance.Record.{
  AttendanceRecord, PresenceEvent, Direction, dir_in, dir_out, lunch_start, entry_time, day, clean,
  punches,
}
use truck.Attendance.Record.Order.{Spaced, Early, punch, clean-eq-none, clean_blames}
use truck.Attendance.Store.{Db, save, save_new, ok, err, duplicate_scan}
use truck.Attendance.Service.{
  minute, check_active, check_cooldown, get_current_status, get_open_record, open_record,
  auto_close_if_stale, within_lunch_window, record_entry, record_lunch_start, record_lunch_end,
  record_exit, presence_label, next_action_label, last_event, toggle_for_employee,
}
use truck.Attendance.Service.Invariant.{IsValid}
use truck.Attendance.Service.Saves.{IsMonotone, entry_row, event_of}
use truck.Attendance.Service.Scans.{IsActive, Records, saida_almoco}
use truck.Attendance.Service.Steps.{read}
use truck.Attendance.Service.Toggle.{due, toggle_advances}
use truck.Attendance.Service.Refusals.{Admits, Refuses, toggle_total, toggle_duplicate}
use truck.Attendance.Service.Sweep.{close_each, handle, Handles, handle_leaves_fresh}
use truck.Attendance.Service.Labels.{next_action_label-toggle, next_action_label_stale}
use truck.Attendance.Review.{
  instant, Reply, not_found, server_error, invalid_date, rejected, corrected, correct, post,
}
use truck.Attendance.Review.Answers.{Answers, post-Answers}
use truck.Attendance.History.{
  empty, here, then_call, scan, staff, empty-IsValid, Reach-IsValid, count_open, Grows,
}

abbrev hour : ℕ
hour = 60 * minute

-- 2024-10-04 11:00 UTC, which is 08:00 in São Paulo.
abbrev morning : ℕ
morning = 20000 * day + 11 * hour

abbrev clock : ℕ → ℕ
clock n = morning + n * hour

abbrev localtime : ℕ → ℕ
localtime t = (t + day - 3 * hour) % day

clock_mono : IsMonotone clock
clock_mono i j h = omega arith

abbrev ana : Employee
ana = record {
  pk = 7;
  name = codes "Ana";
  role = codes "Motorista";
  department = [];
  phone = [];
  rg = [];
  cpf = [];
  is_foreigner = false;
  foreign_document_number = [];
  foreign_document_type = [];
  address = [];
  cep = [];
  hire_date = 19000;
  is_driver = true;
  is_active = true;
  photo = none;
  document_photo = none;
}

-- Ana has scanned in at 08:00.
abbrev present : Db
present = record {
  employees = ana ∷ [];
  records = entry_row 7 1 morning ∷ [];
  events = event_of 7 dir_in false morning 1 ∷ [];
  next_record = 2;
  reads = 1;
}

ana-IsActive : IsActive 7 present.employees
ana-IsActive = (ana, refl, refl)

IsValid-at : (c : ℕ → ℕ) → morning ≤ c 1 → IsValid c present
unfolding last_event clean
IsValid-at c h = record {
  rows = (omega arith, tt, (λ _. refl), tt);
  past = (h, tt);
  punched = λ e. elim (Bool-cases (7 == e)) [
    | inl p ↦ rw p (refl, omega arith, tt, tt, (λ _. refl), (refl, refl))
    | inr n ↦ rw n tt
  ];
}

present-IsValid : IsValid clock present
present-IsValid = IsValid-at clock (omega arith)

toggle_advances_example :
    Records clock 7
      (due clock localtime 7 present)
      present
      (toggle_for_employee clock localtime 7 present)
toggle_advances_example =
    toggle_advances clock localtime clock_mono 7 present present-IsValid ana-IsActive
      (unfold last_event in omega arith)

-- At 11:00 the window is open, so the scan is the start of lunch.
lunch_is_due : due clock localtime 7 present ≡ saida_almoco
lunch_is_due = refl

toggle_total_example :
    let r = toggle_for_employee clock localtime 7 present in
    Admits clock 7 (due clock localtime 7 present) present r ⊎ Refuses clock 7 present r
toggle_total_example = toggle_total clock localtime 7 present clock_mono present-IsValid

-- A second scan within the minute.
abbrev hasty : ℕ → ℕ
hasty n = morning + n * minute

toggle_duplicate_example :
    (toggle_for_employee hasty localtime 7 present
      ≡ (err (duplicate_scan (codes "Ana") 120), read present))
    × (1 ≤ 120)
    × (morning ≤ hasty 1 → 120 ≤ 180)
toggle_duplicate_example =
    toggle_duplicate hasty localtime 7 present ana (event_of 7 dir_in false morning 1) refl refl
      (unfold last_event in refl) (omega arith)

handle_leaves_fresh_example :
    Handles clock localtime clock_mono present (handle clock localtime present)
handle_leaves_fresh_example = handle_leaves_fresh clock localtime clock_mono present present-IsValid

-- One reading a day: the record is abandoned by the time of the next scan.
abbrev later : ℕ → ℕ
later n = morning + n * day

abbrev corrects : Reply → Bool
corrects (corrected r) = true
corrects not_found = false
corrects server_error = false
corrects invalid_date = false
corrects (rejected e) = false

-- The record is abandoned and flagged, and its exit is submitted.
abbrev abandoned_rows : Db
abandoned_rows = (handle later localtime present).1

post-Answers_example :
    IsValid later (post 1 (instant (morning + 60 * minute)) abandoned_rows).1
    × Answers 1
        (instant (morning + 60 * minute))
        abandoned_rows
        (post 1 (instant (morning + 60 * minute)) abandoned_rows)
post-Answers_example =
    post-Answers later 1 abandoned_rows
      (handle_leaves_fresh later localtime (λ i j h. omega arith) present
        (IsValid-at later (omega arith))).valid
      (instant (morning + 60 * minute))

corrected_test : corrects (post 1 (instant (morning + 60 * minute)) abandoned_rows).0 ≡ true
unfolding post correct handle close_each auto_close_if_stale get_open_record open_record save clean
corrected_test = refl

-- The first scan of the day, from the empty tables.
abbrev staffed : Db
staffed = record empty { employees = ana ∷ [] }

abbrev scanned_in : Db
scanned_in = (toggle_for_employee clock localtime 7 staffed).1

Reach-IsValid_example :
    IsValid clock scanned_in
    × ((e : ℕ) → count_open e scanned_in.records ≤ 1)
    × Grows empty scanned_in
Reach-IsValid_example =
    Reach-IsValid clock localtime clock_mono (empty-IsValid clock localtime clock_mono)
      (then_call (then_call here (staff (ana ∷ []))) (scan 7))

scanned_in_today : scanned_in ≡ present
unfolding toggle_for_employee check_active check_cooldown get_current_status last_event
    get_open_record open_record auto_close_if_stale record_entry save_new clean
scanned_in_today = refl

-- The four scans of a day, and the events that they log, the last one first.
abbrev after_scans : ℕ → Db
after_scans zero = staffed
after_scans (suc n) = (toggle_for_employee clock localtime 7 (after_scans n)).1

whole_day :
    map {B = Direction × Bool} (λ e. (e.direction, e.is_lunch)) (after_scans 4).events
    ≡ (dir_out, false) ∷ (dir_in, true) ∷ (dir_out, true) ∷ (dir_in, false) ∷ []
unfolding toggle_for_employee check_active check_cooldown get_current_status last_event
    get_open_record open_record auto_close_if_stale within_lunch_window record_entry
    record_lunch_start record_lunch_end record_exit save_new save clean
whole_day = refl

-- One reading every ten minutes: the lunch window stays shut between two scans.
abbrev brisk : ℕ → ℕ
brisk n = morning + n * (10 * minute)

next_action_label-toggle_example :
    (event : PresenceEvent) × (last_event 7 (toggle_for_employee brisk localtime 7 present).1.events
      ≡ some event)
    × ((next_action_label brisk localtime dir_in false present).0
        ≡ ok (presence_label event.direction event.is_lunch))
next_action_label-toggle_example =
    next_action_label-toggle brisk localtime (λ i j h. omega arith) 7 present
      (entry_row 7 1 morning) (event_of 7 dir_in false morning 1) (IsValid-at brisk (omega arith))
      ana-IsActive refl (unfold last_event in refl) (omega arith) refl refl

next_action_label_stale_example :
    ((next_action_label later localtime dir_in false present).0 ≢ ok "Entrada")
    × ((event : PresenceEvent) × (last_event 7
            (toggle_for_employee later localtime 7 present).1.events
          ≡ some event)
        × (presence_label event.direction event.is_lunch ≡ "Entrada"))
next_action_label_stale_example =
    next_action_label_stale later localtime (λ i j h. omega arith) 7 present (entry_row 7 1 morning)
      (event_of 7 dir_in false morning 1) (IsValid-at later (omega arith)) ana-IsActive refl
      (unfold last_event in refl) (omega arith) refl

clean-eq-none_example :
    (clean (entry_row 7 1 morning) ≡ none) ↔ Spaced (punches (entry_row 7 1 morning))
clean-eq-none_example = clean-eq-none (entry_row 7 1 morning)

abbrev hurried : AttendanceRecord
hurried = record (entry_row 7 1 morning) { lunch_start = some morning }

clean_blames_example : Early (punch hurried lunch_start) (punch hurried entry_time)
unfolding clean
clean_blames_example = clean_blames hurried lunch_start entry_time refl
