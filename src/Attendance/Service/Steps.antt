-- ===== src/Attendance/Service/Steps.antt =====
-- The steps of `toggle_for_employee` (attendance/service.py), one by one, and the abstract cycle of
-- the day that they follow.
use truck.Base.{
  ℕ, suc, ◌+◌, ◌≤◌, ◌≡◌, refl, ap, ◌∙◌, Bool, true, false, ◌&&◌, inl, inr, Option, none, some,
  arith, ◌∷◌, if◌then◌else◌, leb, ltb, is_none, Bool-cases, Option-cases,
}
use truck.Attendance.Record.{AttendanceRecord, PresenceEvent, second, clean, with_date}
use truck.Attendance.Store.{Db, Result, ok, save}
use truck.Attendance.Service.{
  scan_cooldown, max_open_duration, lunch_window_start, lunch_window_end, get_current_status,
  last_event, check_cooldown, auto_close_if_stale, advance, within_lunch_window,
}
use truck.Attendance.Service.Rows.{first_open, first_open-put_ne}
use truck.Attendance.Service.Invariant.{
  Phase, away, working, at_lunch, returned, phase_of, IsValid, OthersKept,
}
use truck.Attendance.Service.Saves.{IsMonotone, abandoned, read-IsValid}
use truck.Attendance.Service.Scans.{
  IsActive, Scan, entrada, saida_almoco, retorno_almoco, saida, Records, get_open_ok,
}
use truck.Attendance.Service.Cycle.{lunch_start_Records, lunch_end_Records, exit_Records}

-- The cycle of the day: which scan comes next. `inside` tells whether the clock is in the lunch
-- window, which matters in one phase only.
abbrev pub scan_for : Bool → Phase → Scan
scan_for inside away = entrada
scan_for inside working = if inside then saida_almoco else saida
scan_for inside at_lunch = retorno_almoco
scan_for inside returned = saida

-- The window's test of a local time of day.
abbrev pub in_window : ℕ → Bool
in_window t = leb lunch_window_start t && leb t lunch_window_end

-- An open record counts until it has been open for longer than the limit.
abbrev pub unexpired : ℕ → Option AttendanceRecord → Option AttendanceRecord
unexpired t none = none
unexpired t (some r) = if leb t (r.entry_time + max_open_duration) then some r else none

-- The cooldown since the employee's last event is over.
abbrev pub Rested : ℕ → Option PresenceEvent → Type 0
Rested t none = Unit
Rested t (some e) = e.timestamp + scan_cooldown ≤ t

pub OthersKept-trans : {e : ℕ} {a b c : Db} → OthersKept e a b → OthersKept e b c → OthersKept e a c
OthersKept-trans p q = record {
  staff = q.staff ∙ p.staff;
  rows = λ j d. q.rows j d ∙ p.rows j d;
  events = λ j d. q.events j d ∙ p.events j d;
}

pub Records-from :
    (clock : ℕ → ℕ) (e : ℕ) (scan : Scan) (a b : Db) (r : Result AttendanceRecord × Db)
    → OthersKept e a b
    → b.events ≡ a.events
    → Records clock e scan b r
    → Records clock e scan a r
Records-from clock e scan a b r k ev p = record {
  row = p.row;
  done = p.done;
  valid = p.valid;
  others = OthersKept-trans k p.others;
  phase = p.phase;
  event = p.event;
  logged = p.logged;
  appended = p.appended ∙ ap (λ xs. p.event ∷ xs) ev;
  direction = p.direction;
  lunch = p.lunch;
  record_id = p.record_id;
  owner = p.owner;
}

abbrev pub read : Db → Db
read db = record db { reads = suc db.reads }

module _ (clock localtime : ℕ → ℕ) (mono : IsMonotone clock) (e : ℕ) where
  pub cooldown_none :
      (db : Db) → last_event e db.events ≡ none → check_cooldown clock localtime e db ≡ (ok tt, db)
  unfolding check_cooldown get_current_status
  cooldown_none db h = rw h

  pub cooldown_over :
      (db : Db) (ev : PresenceEvent)
      → last_event e db.events ≡ some ev
      → ltb (clock db.reads) (ev.timestamp + scan_cooldown) ≡ false
      → check_cooldown clock localtime e db ≡ (ok tt, read db)
  unfolding check_cooldown get_current_status
  cooldown_over db ev h k = rw h (rw k)

  pub stale_none :
      (db : Db)
      → IsValid clock db
      → first_open e db.records ≡ none
      → auto_close_if_stale clock localtime e db ≡ (ok none, db)
  unfolding auto_close_if_stale
  stale_none db v h = rw (get_open_ok e db none v.rows h, auto_close_if_stale)

  module _ (db : Db) (r : AttendanceRecord) (v : IsValid clock db)
      (h : first_open e db.records ≡ some r) where
    pub stale_fresh :
        leb (clock db.reads) (r.entry_time + max_open_duration) ≡ true
        → auto_close_if_stale clock localtime e db ≡ (ok none, read db)
    unfolding auto_close_if_stale
    stale_fresh k = rw (get_open_ok e db (some r) v.rows h, auto_close_if_stale) (rw k)

    pub stale_closed :
        leb (clock db.reads) (r.entry_time + max_open_duration) ≡ false
        → clean r ≡ none
        → let s = with_date (record r { auto_closed = true }) in
          auto_close_if_stale clock localtime e db ≡ (ok (some s), abandoned clock s db)
    unfolding auto_close_if_stale save clean
    stale_closed k c =
        rw (get_open_ok e db (some r) v.rows h, auto_close_if_stale) (rw k (rw (c, save)))

  pub reading-OthersKept : (db : Db) → OthersKept e db (read db)
  reading-OthersKept db = record { staff = refl; rows = λ j d. refl; events = λ j d. refl }

  pub abandoned-OthersKept :
      (db : Db) (r s : AttendanceRecord)
      → IsValid clock db
      → first_open e db.records ≡ some r
      → s.pk ≡ r.pk
      → s.employee ≡ e
      → OthersKept e db (abandoned clock s db)
  abandoned-OthersKept db r s v h k m = record {
    staff = refl;
    rows = λ j d. first_open-put_ne db.next_record e j db.records r s v.rows h k m d;
    events = λ j d. refl;
  }

  -- The scan that `advance` makes of a valid open record.
  module _ (db : Db) (r : AttendanceRecord) (ev : PresenceEvent) (v : IsValid clock db)
      (a : IsActive e db.employees) (h : first_open e db.records ≡ some r)
      (last : last_event e db.events ≡ some ev)
      (slack : ev.timestamp + second ≤ clock db.reads) where
    abbrev pub Advances : Bool → Type 0
    Advances inside =
        Records clock e (scan_for inside (phase_of (some r))) db
          (advance clock localtime e (some r) db)

    later : ev.timestamp + second ≤ clock (suc db.reads)
    later = omega (arith, mono db.reads (suc db.reads), slack)

    pub advance_working : r.lunch_start ≡ none → Advances (in_window (localtime (clock db.reads)))
    unfolding advance within_lunch_window
    advance_working ls = elim (Bool-cases (in_window (localtime (clock db.reads)))) [
      | inl inside ↦ rw ls (
          rw inside (
            Records-from clock e saida_almoco db (read db) _ (reading-OthersKept db) refl (
              lunch_start_Records clock localtime mono e (read db) r ev
                (read-IsValid clock mono db v) a h last later ls)))
      | inr outside ↦ rw ls (
          rw outside (
            Records-from clock e saida db (read db) _ (reading-OthersKept db) refl (
              exit_Records clock localtime mono e (read db) r ev (read-IsValid clock mono db v) a h
                last later)))
    ]

    pub advance_lunch : (t : ℕ) → r.lunch_start ≡ some t → (inside : Bool) → Advances inside
    unfolding advance
    advance_lunch t ls inside = elim (Option-cases r.lunch_end) [
      | inl le ↦
          rw (ap is_none ls, ls)
            (rw (ap is_none le, le)
              (lunch_end_Records clock localtime mono e db r ev v a h last slack t ls le))
      | inr (u, le) ↦
          rw (ap is_none ls, ls)
            (rw (ap is_none le, le) (exit_Records clock localtime mono e db r ev v a h last slack))
    ]
