-- ===== src/Attendance/Service/Labels.antt =====
-- The label of the next scan (`next_action_label`, attendance/service.py) against the scan that
-- `toggle_for_employee` then records.
use text.Mathlib.TextEquality.{eq_iff}
use truck.Base.{
  ℕ, suc, ◌+◌, ◌≤◌, ◌∙◌, ◌≡◌, refl, ◌≢◌, Bool, true, false, some, inl, inr, arith, String, leb,
  Bool-cases, ap,
}
use truck.Attendance.Record.{AttendanceRecord, PresenceEvent}
use truck.Attendance.Store.{Db, ok}
use truck.Attendance.Service.{
  scan_cooldown, max_open_duration, presence_label, next_action_label, within_lunch_window,
  last_event, toggle_for_employee,
}
use truck.Attendance.Service.Rows.{first_open}
use truck.Attendance.Service.Invariant.{
  Phase, away, working, at_lunch, returned, phase_of, IsValid, Punched, Shows,
}
use truck.Attendance.Service.Saves.{IsMonotone}
use truck.Attendance.Service.Scans.{IsActive, entrada, direction_of, lunch_of}
use truck.Attendance.Service.Steps.{scan_for, in_window}
use truck.Attendance.Service.Toggle.{due, toggle_advances}
use mathlib.Core.Path.{subst₂}

ok_injective : {a b : String} → ok a ≡ ok b → a ≡ b
ok_injective q = cc

label_entrada :
    (inside : Bool) (p : Phase)
    → p ≢ away
    → presence_label (direction_of (scan_for inside p)) (lunch_of (scan_for inside p)) ≢ "Entrada"
unfolding presence_label
label_entrada inside away n = absurd (n refl)
label_entrada true working n = ground (arith, eq_iff "Saída para o Almoço" "Entrada")
label_entrada false working n = ground (arith, eq_iff "Saída" "Entrada")
label_entrada inside at_lunch n = ground (arith, eq_iff "Retorno do Almoço" "Entrada")
label_entrada inside returned n = ground (arith, eq_iff "Saída" "Entrada")

module _ (clock localtime : ℕ → ℕ) where
  next_of_phase :
      (db : Db) (p : Phase) (ev : PresenceEvent)
      → p ≢ away
      → Shows p ev
      → let scan = scan_for (in_window (localtime (clock db.reads))) p in
        (next_action_label clock localtime ev.direction ev.is_lunch db).0
        ≡ ok (presence_label (direction_of scan) (lunch_of scan))
  unfolding next_action_label within_lunch_window presence_label
  next_of_phase db away ev n s = absurd (n refl)
  next_of_phase db working ev n s = elim (Bool-cases (in_window (localtime (clock db.reads)))) [
    | inl inside ↦ rw (s.0, s.1) (rw inside)
    | inr outside ↦ rw (s.0, s.1) (rw outside)
  ]
  next_of_phase db at_lunch ev n s = rw (s.0, s.1)
  next_of_phase db returned ev n s = rw (s.0, s.1)

  not_away : (r : AttendanceRecord) → phase_of (some r) ≢ away
  not_away r = ground arith

  module _ (mono : IsMonotone clock) (e : ℕ) (db : Db) (r : AttendanceRecord) (ev : PresenceEvent)
      (v : IsValid clock db) (a : IsActive e db.employees) (h : first_open e db.records ≡ some r)
      (last : last_event e db.events ≡ some ev)
      (rested : ev.timestamp + scan_cooldown ≤ clock db.reads) where
    -- On valid tables and under a clock that does not run backwards, for an active employee whose
    -- cooldown is over: while the open record is within the limit and the lunch window does not open or
    -- close in between, the label announced for the next scan is the label of the event that the scan then
    -- logs.
    pub next_action_label-toggle :
        leb (clock (suc db.reads)) (r.entry_time + max_open_duration) ≡ true
        → in_window (localtime (clock db.reads))
          ≡ in_window (localtime (clock (suc (suc db.reads))))
        → (event : PresenceEvent) × (last_event e
              (toggle_for_employee clock localtime e db).1.events
            ≡ some event)
          × ((next_action_label clock localtime ev.direction ev.is_lunch db).0
              ≡ ok (presence_label event.direction event.is_lunch))
    next_action_label-toggle fresh same =
        let t = toggle_advances clock localtime mono e db v a (rw last rested) in
        let shows : Shows (phase_of (some r)) ev = (subst₂ Punched h last (v.punched e)).5 in
        (
          t.event,
          t.logged,
          rw (t.direction, t.lunch)
              (rw h (
                rw fresh
                  (rw (← same) (next_of_phase db (phase_of (some r)) ev (not_away r) shows)))),
        )

    -- On valid tables and under a clock that does not run backwards, for an active employee whose
    -- cooldown is over: once the open record is over the limit, the label announced for the next scan is never
    -- that of an entry, but the scan logs an entry.
    pub next_action_label_stale :
        leb (clock (suc db.reads)) (r.entry_time + max_open_duration) ≡ false
        → ((next_action_label clock localtime ev.direction ev.is_lunch db).0 ≢ ok "Entrada")
          × ((event : PresenceEvent) × (last_event e
                  (toggle_for_employee clock localtime e db).1.events
                ≡ some event)
              × (presence_label event.direction event.is_lunch ≡ "Entrada"))
    unfolding presence_label
    next_action_label_stale stale =
        let t = toggle_advances clock localtime mono e db v a (rw last rested) in
        let shows : Shows (phase_of (some r)) ev = (subst₂ Punched h last (v.punched e)).5 in
        let entry : due clock localtime e db ≡ entrada = rw h (rw stale) in
        (
          rw (next_of_phase db (phase_of (some r)) ev (not_away r) shows) (λ q.
              label_entrada (in_window (localtime (clock db.reads))) (phase_of (some r))
                (not_away r) (ok_injective q)),
          (
            t.event,
            t.logged,
            rw (t.direction ∙ ap direction_of entry, t.lunch ∙ ap lunch_of entry),
          ),
        )
