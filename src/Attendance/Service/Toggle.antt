-- ===== src/Attendance/Service/Toggle.antt =====
-- `toggle_for_employee` as a whole (attendance/service.py): the scan that it records follows the
-- abstract cycle of the day, and what it refuses leaves the tables alone.
use truck.Base.{
  ℕ, suc, ◌+◌, ◌≤◌, ◌≡◌, refl, true, false, inl, inr, Option, none, some, arith, leb, ltb,
  Bool-cases, Option-cases,
}
use truck.Attendance.Record.{AttendanceRecord, PresenceEvent, second, with_date}
use truck.Attendance.Store.{Db, ok}
use truck.Attendance.Service.{
  scan_cooldown, max_open_duration, get_open_record, auto_close_if_stale, last_event,
  check_cooldown, advance, toggle_for_employee,
}
use truck.Attendance.Service.Rows.{first_open, first_open-put, first_open_is_open}
use truck.Attendance.Service.Invariant.{phase_of, IsValid, OthersKept, Punched}
use truck.Attendance.Service.Saves.{IsMonotone, abandoned, abandoned-IsValid, read-IsValid}
use truck.Attendance.Service.Scans.{
  IsActive, Scan, entrada, Records, check_active_ok, get_open_ok, record_entry_lem,
}
use truck.Attendance.Service.Steps.{
  scan_for, in_window, unexpired, Rested, OthersKept-trans, Records-from, read, cooldown_none,
  cooldown_over, stale_none, stale_fresh, stale_closed, reading-OthersKept, abandoned-OthersKept,
  advance_working, advance_lunch,
}
use mathlib.Core.Path.{subst₂}

-- The scan that the abstract cycle asks for: the staleness of the open record is read off the
-- second reading of the call, the lunch window off the third.
abbrev pub due : (ℕ → ℕ) → (ℕ → ℕ) → ℕ → Db → Scan
due clock localtime e db =
    scan_for (in_window (localtime (clock (suc (suc db.reads)))))
      (phase_of (unexpired (clock (suc db.reads)) (first_open e db.records)))

module _ (clock localtime : ℕ → ℕ) (mono : IsMonotone clock) (e : ℕ) (db : Db) where
  module _ (v : IsValid clock db) (a : IsActive e db.employees) where
    -- The call is the choice from the open record, once the checks have passed.
    toggle_steps :
        {b c : Db} {gone : Option AttendanceRecord} (o : Option AttendanceRecord)
        → check_cooldown clock localtime e db ≡ (ok tt, b)
        → auto_close_if_stale clock localtime e b ≡ (ok gone, c)
        → get_open_record e c ≡ (ok o, c)
        → toggle_for_employee clock localtime e db ≡ advance clock localtime e o c
    unfolding toggle_for_employee
    toggle_steps o p q g = rw (check_active_ok e db a, toggle_for_employee) (rw p (rw q (rw g)))

    entry_from :
        (c : Db)
        → IsValid clock c
        → OthersKept e db c
        → c.events ≡ db.events
        → first_open e c.records ≡ none
        → Records clock e entrada db (advance clock localtime e none c)
    unfolding advance
    entry_from c w k ev h =
        Records-from clock e entrada db c _ k ev
          (record_entry_lem clock localtime mono e c w (a.0, rw k.staff a.1, a.2) h)

    from_away :
        first_open e db.records ≡ none
        → Rested (clock db.reads) (last_event e db.events)
        → Records clock e entrada db (toggle_for_employee clock localtime e db)
    from_away h rested = elim (Option-cases (last_event e db.events)) [
      | inl first_scan ↦
          rw
            (toggle_steps none (cooldown_none clock localtime mono e db first_scan)
              (stale_none clock localtime mono e db v h) (get_open_ok e db none v.rows h))
            (entry_from db v (record { staff = refl; rows = λ j d. refl; events = λ j d. refl })
              refl h)
      | inr (ev, last) ↦
          let w = read-IsValid clock mono db v in
          rw
            (toggle_steps none (cooldown_over clock localtime mono e db ev last (ground arith))
              (stale_none clock localtime mono e (read db) w h)
              (get_open_ok e (read db) none w.rows h))
            (entry_from (read db) w (reading-OthersKept clock localtime mono e db) refl h)
    ]

    module _ (r : AttendanceRecord) (ev : PresenceEvent) (h : first_open e db.records ≡ some r)
        (last : last_event e db.events ≡ some ev)
        (rested : ev.timestamp + scan_cooldown ≤ clock db.reads) where
      over : ltb (clock db.reads) (ev.timestamp + scan_cooldown) ≡ false
      over = ground arith

      punched : Punched (some r) (some ev)
      punched = subst₂ Punched h last (v.punched e)

      from_stale :
          leb (clock (suc db.reads)) (r.entry_time + max_open_duration) ≡ false
          → Records clock e entrada db (toggle_for_employee clock localtime e db)
      from_stale k =
          let w = read-IsValid clock mono db v in
          let s = with_date (record r { auto_closed = true }) in
          let c = abandoned clock s (read db) in
          let (owner, x, kept) = first_open_is_open e db.records r h in
          let w' = abandoned-IsValid clock mono e r s (read db) w h refl owner refl in
          let gone : first_open e c.records ≡ none =
            rw (first_open-put db.next_record e db.records r s v.rows h refl owner)
              (ground arith) in
          rw
            (toggle_steps none (cooldown_over clock localtime mono e db ev last over)
              (stale_closed clock localtime mono e (read db) r w h k punched.0)
              (get_open_ok e c none w'.rows gone))
            (entry_from c w'
              (OthersKept-trans (reading-OthersKept clock localtime mono e db)
                (abandoned-OthersKept clock localtime mono e (read db) r s w h refl owner))
              refl gone)

      from_open :
          leb (clock (suc db.reads)) (r.entry_time + max_open_duration) ≡ true
          → Records clock e
              (scan_for (in_window (localtime (clock (suc (suc db.reads))))) (phase_of (some r)))
              db
              (toggle_for_employee clock localtime e db)
      from_open k =
          let w = read-IsValid clock mono db v in
          let w' = read-IsValid clock mono (read db) w in
          let inside = in_window (localtime (clock (suc (suc db.reads)))) in
          let kept =
            OthersKept-trans (reading-OthersKept clock localtime mono e db)
              (reading-OthersKept clock localtime mono e (read db)) in
          let slack : ev.timestamp + second ≤ clock (suc (suc db.reads)) =
            omega (arith, mono db.reads (suc (suc db.reads)), rested) in
          rw
            (toggle_steps (some r) (cooldown_over clock localtime mono e db ev last over)
              (stale_fresh clock localtime mono e (read db) r w h k)
              (get_open_ok e (read (read db)) (some r) w'.rows h))
            (Records-from clock e _ db (read (read db)) _ kept refl
              (elim (Option-cases r.lunch_start) [
                | inl ls ↦
                    advance_working clock localtime mono e (read (read db)) r ev w' a h last slack
                      ls
                | inr (t, ls) ↦
                    advance_lunch clock localtime mono e (read (read db)) r ev w' a h last slack t
                      ls inside
              ]))

    -- On valid tables, a scan of an active employee whose cooldown is over is recorded as the scan
    -- that is due: the tables stay valid, the other employees' are as they were, the employee's
    -- phase and last event are those of the scan.
    pub toggle_advances :
        Rested (clock db.reads) (last_event e db.events)
        → Records clock e (due clock localtime e db) db (toggle_for_employee clock localtime e db)
    toggle_advances rested = elim (Option-cases (first_open e db.records)) [
      | inl h ↦ rw h (from_away h rested)
      | inr (r, h) ↦ elim (Option-cases (last_event e db.events)) [
        | inl l ↦ absurd (subst₂ Punched h l (v.punched e))
        | inr (ev, l) ↦
            let q : ev.timestamp + scan_cooldown ≤ clock db.reads = rw l at rested in
            elim (Bool-cases (leb (clock (suc db.reads)) (r.entry_time + max_open_duration))) [
              | inl k ↦ rw h (rw k (from_open r ev h l q k))
              | inr k ↦ rw h (rw k (from_stale r ev h l q k))
            ]
      ]
    ]
