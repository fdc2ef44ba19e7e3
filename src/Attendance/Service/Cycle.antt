-- ===== src/Attendance/Service/Cycle.antt =====
-- The lunch and exit scans (attendance/service.py) on the phases in which they are allowed.
use truck.Base.{ℕ, ◌+◌, ◌≤◌, ◌≡◌, refl, ap, true, false, none, some, arith, if◌then◌else◌, is_none}
use mathlib.Core.Path.{subst₂}
use truck.Attendance.Record.{AttendanceRecord, PresenceEvent, dir_in, dir_out, second, with_date}
use truck.Attendance.Store.{Db, ok}
use truck.Attendance.Service.{last_event, record_lunch_start, record_lunch_end, record_exit}
use truck.Attendance.Service.Rows.{first_open, unclosed, first_open-put, first_open_is_open}
use truck.Attendance.Service.Invariant.{phase_of, IsValid, Punched, last_event-cons}
use truck.Attendance.Service.Saves.{event_of, IsMonotone, logged, logged-IsValid, logged-OthersKept}
use truck.Attendance.Service.Scans.{
  IsActive, Scan, saida_almoco, retorno_almoco, saida, after, direction_of, lunch_of, Records,
  check_active_ok, get_open_ok, clean-lunch_start, clean-lunch_end, clean-exit, log_scan_result,
}

module _ (clock localtime : ℕ → ℕ) (mono : IsMonotone clock) (e : ℕ) (db : Db) where
  logged_Records :
      (scan : Scan) (r s : AttendanceRecord)
      → IsValid clock db
      → first_open e db.records ≡ some r
      → s.pk ≡ r.pk
      → s.employee ≡ e
      → Punched
          (if unclosed s then some s else none)
          (some (event_of e (direction_of scan) (lunch_of scan) (clock db.reads) s.pk))
      → phase_of (if unclosed s then some s else none) ≡ after scan
      → Records clock e scan db (ok s, logged clock e (direction_of scan) (lunch_of scan) s db)
  logged_Records scan r s v h k m p ph = record {
    row = s;
    done = refl;
    valid = logged-IsValid clock mono e (direction_of scan) (lunch_of scan) r s db v h k m p;
    others = logged-OthersKept clock e (direction_of scan) (lunch_of scan) r s db v.rows h k m;
    phase = rw (first_open-put db.next_record e db.records r s v.rows h k m) ph;
    event = event_of e (direction_of scan) (lunch_of scan) (clock db.reads) s.pk;
    logged =
        last_event-cons (clock db.reads)
          (event_of e (direction_of scan) (lunch_of scan) (clock db.reads) s.pk) db.events v.past
          (omega arith);
    appended = refl;
    direction = refl;
    lunch = refl;
    record_id = refl;
    owner = m;
  }

  -- A valid open record of an active employee, whose last event lies a second back.
  module _ (r : AttendanceRecord) (ev : PresenceEvent) (v : IsValid clock db)
      (a : IsActive e db.employees) (h : first_open e db.records ≡ some r)
      (last : last_event e db.events ≡ some ev)
      (slack : ev.timestamp + second ≤ clock db.reads) where
    punched : Punched (some r) (some ev)
    punched = subst₂ Punched h last (v.punched e)

    start_lunch_result :
        r.lunch_start ≡ none
        → let s = with_date (record r { lunch_start = some (clock db.reads) }) in
          record_lunch_start clock localtime e db ≡ (ok s, logged clock e dir_out true s db)
    unfolding record_lunch_start
    start_lunch_result ls =
        let x = (first_open_is_open e db.records r h).1 in
        rw (check_active_ok e db a, record_lunch_start)
          (rw (get_open_ok e db (some r) v.rows h) (
            rw ls (
              log_scan_result clock localtime mono e dir_out true
                (record r { lunch_start = some (clock db.reads) }) db
                (clean-lunch_start r ev (clock db.reads) punched ls x slack))))

    -- Each `is None` test of the open record as the branch takes it.
    end_lunch_result :
        (t : ℕ)
        → r.lunch_start ≡ some t
        → r.lunch_end ≡ none
        → let s = with_date (record r { lunch_end = some (clock db.reads) }) in
          record_lunch_end clock localtime e db ≡ (ok s, logged clock e dir_in true s db)
    unfolding record_lunch_end
    end_lunch_result t ls le =
        let x = (first_open_is_open e db.records r h).1 in
        rw (check_active_ok e db a, record_lunch_end)
          (rw (get_open_ok e db (some r) v.rows h) (
            rw (ap is_none ls) (
              rw (ap is_none le) (
                log_scan_result clock localtime mono e dir_in true
                  (record r { lunch_end = some (clock db.reads) }) db
                  (clean-lunch_end r ev (clock db.reads) punched (λ n. cc) le x slack)))))

    exit_result :
        let s = with_date (record r { exit_time = some (clock db.reads) }) in
        record_exit clock localtime e db ≡ (ok s, logged clock e dir_out false s db)
    unfolding record_exit
    exit_result =
        let x = (first_open_is_open e db.records r h).1 in
        rw (check_active_ok e db a, record_exit)
          (rw (get_open_ok e db (some r) v.rows h) (
            log_scan_result clock localtime mono e dir_out false
              (record r { exit_time = some (clock db.reads) }) db
              (clean-exit r ev (clock db.reads) punched x slack)))

    pub lunch_start_Records :
        r.lunch_start ≡ none
        → Records clock e saida_almoco db (record_lunch_start clock localtime e db)
    lunch_start_Records ls =
        let (owner, x, kept) = first_open_is_open e db.records r h in
        let s = with_date (record r { lunch_start = some (clock db.reads) }) in
        rw (start_lunch_result ls) (
          logged_Records saida_almoco r s v h refl owner
            (ground (arith, punched, clean-lunch_start r ev (clock db.reads) punched ls x slack))
            (ground (arith, punched)))

    pub lunch_end_Records :
        (t : ℕ)
        → r.lunch_start ≡ some t
        → r.lunch_end ≡ none
        → Records clock e retorno_almoco db (record_lunch_end clock localtime e db)
    lunch_end_Records t ls le =
        let (owner, x, kept) = first_open_is_open e db.records r h in
        let s = with_date (record r { lunch_end = some (clock db.reads) }) in
        rw (end_lunch_result t ls le) (
          logged_Records retorno_almoco r s v h refl owner
            (ground
              (arith, punched, clean-lunch_end r ev (clock db.reads) punched (λ n. cc) le x slack))
            (ground (arith, punched)))

    pub exit_Records : Records clock e saida db (record_exit clock localtime e db)
    exit_Records =
        let (owner, x, kept) = first_open_is_open e db.records r h in
        let s = with_date (record r { exit_time = some (clock db.reads) }) in
        rw exit_result (logged_Records saida r s v h refl owner tt refl)
