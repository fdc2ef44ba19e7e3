-- ===== src/Attendance/Service/Saves.antt =====
-- The three ways in which the service changes the tables (attendance/service.py): a new row with
-- its event, a saved row with its event, and a row flagged as abandoned. Each keeps the invariant
-- and leaves the other employees alone.
use truck.Base.{
  ℕ, suc, ◌/◌, ◌≤◌, ◌≡◌, refl, Bool, true, false, none, some, inl, inr, List, [], ◌∷◌, arith, ◌==◌,
  ==_iff, if◌then◌else◌, Bool-cases, All,
}
use truck.Attendance.Record.{AttendanceRecord, PresenceEvent, Direction, dir_in, day, clean}
use truck.Attendance.Store.{Db, put}
use truck.Attendance.Service.Rows.{
  Rows, first_open, unclosed, first_open-put, first_open-put_ne, put-Rows, cons-Rows,
}
use truck.Attendance.Service.Invariant.{
  IsValid, OthersKept, Punched, last_event-cons, last_event-cons_ne,
}

abbrev pub event_of : ℕ → Direction → Bool → ℕ → ℕ → PresenceEvent
event_of e direction lunch t k = record {
  employee = e;
  direction = direction;
  is_lunch = lunch;
  timestamp = t;
  attendance_record = some k;
}

abbrev pub entry_row : ℕ → ℕ → ℕ → AttendanceRecord
entry_row e k t = record {
  pk = k;
  employee = e;
  entry_time = t;
  lunch_start = none;
  lunch_end = none;
  exit_time = none;
  date = t / day;
  auto_closed = false;
}

-- Time does not run backwards.
abbrev pub IsMonotone : (ℕ → ℕ) → Type 0
IsMonotone clock = (i j : ℕ) → i ≤ j → clock i ≤ clock j

module _ (clock : ℕ → ℕ) where
  abbrev pub entered : ℕ → Db → Db
  entered e db =
      let t = clock db.reads in
      record db {
        records = entry_row e db.next_record t ∷ db.records;
        events = event_of e dir_in false t db.next_record ∷ db.events;
        next_record = suc db.next_record;
        reads = suc db.reads;
      }

  abbrev pub logged : ℕ → Direction → Bool → AttendanceRecord → Db → Db
  logged e direction lunch s db = record db {
    records = put s db.records;
    events = event_of e direction lunch (clock db.reads) s.pk ∷ db.events;
    reads = suc db.reads;
  }

  abbrev pub abandoned : AttendanceRecord → Db → Db
  abandoned s db = record db { records = put s db.records; reads = suc db.reads }

  pub entered-OthersKept : (e : ℕ) (db : Db) → OthersKept e db (entered e db)
  entered-OthersKept e db = record {
    staff = refl;
    rows = λ j d. ground arith;
    events = λ j d.
        last_event-cons_ne j (event_of e dir_in false (clock db.reads) db.next_record) db.events d;
  }

  pub logged-OthersKept :
      (e : ℕ) (direction : Direction) (lunch : Bool) (r s : AttendanceRecord) (db : Db)
      → Rows db.next_record db.records
      → first_open e db.records ≡ some r
      → s.pk ≡ r.pk
      → s.employee ≡ e
      → OthersKept e db (logged e direction lunch s db)
  logged-OthersKept e direction lunch r s db v h k m = record {
    staff = refl;
    rows = λ j d. first_open-put_ne db.next_record e j db.records r s v h k m d;
    events =
        λ j d. last_event-cons_ne j (event_of e direction lunch (clock db.reads) s.pk) db.events d;
  }

  module _ (mono : IsMonotone clock) where
    past-suc :
        (n : ℕ) (xs : List PresenceEvent)
        → All (λ x. x.timestamp ≤ clock n) xs
        → All (λ x. x.timestamp ≤ clock (suc n)) xs
    past-suc n [] a = tt
    past-suc n (x ∷ xs) a = (omega (arith, mono n (suc n)), past-suc n xs a.1)

    -- Reading the clock keeps the invariant.
    pub read-IsValid :
        (db : Db) → IsValid clock db → IsValid clock (record db { reads = suc db.reads })
    read-IsValid db v = record {
      rows = v.rows;
      past = past-suc db.reads db.events v.past;
      punched = v.punched;
    }

    pub entered-IsValid :
        (e : ℕ) (db : Db)
        → IsValid clock db
        → first_open e db.records ≡ none
        → clean (entry_row e db.next_record (clock db.reads)) ≡ none
        → IsValid clock (entered e db)
    entered-IsValid e db v h c = record {
      rows =
          cons-Rows db.next_record (entry_row e db.next_record (clock db.reads)) db.records v.rows
            refl h;
      past = (omega (arith, mono db.reads (suc db.reads)), past-suc db.reads db.events v.past);
      punched = λ j. elim (Bool-cases (e == j)) [
        | inl p ↦
            let q = (==_iff e j).0 p in
            rw (← q) (
              rw
                (last_event-cons (clock db.reads)
                  (event_of e dir_in false (clock db.reads) db.next_record) db.events v.past
                  (omega arith))
                (rw ((==_iff e e).1 refl) ((c, omega arith, tt, tt, (λ _. refl), (refl, refl)))))
        | inr n ↦ rw n (
            rw
              (last_event-cons_ne j (event_of e dir_in false (clock db.reads) db.next_record)
                db.events (λ q. ground arith))
              (v.punched j))
      ];
    }

    pub logged-IsValid :
        (e : ℕ) (direction : Direction) (lunch : Bool) (r s : AttendanceRecord) (db : Db)
        → IsValid clock db
        → first_open e db.records ≡ some r
        → s.pk ≡ r.pk
        → s.employee ≡ e
        → Punched
            (if unclosed s then some s else none)
            (some (event_of e direction lunch (clock db.reads) s.pk))
        → IsValid clock (logged e direction lunch s db)
    logged-IsValid e direction lunch r s db v h k m p = record {
      rows = put-Rows db.next_record e db.records r s v.rows h k m;
      past = (omega (arith, mono db.reads (suc db.reads)), past-suc db.reads db.events v.past);
      punched = λ j. elim (Bool-cases (e == j)) [
        | inl q ↦ rw (← (==_iff e j).0 q) (
            rw
              (last_event-cons (clock db.reads) (event_of e direction lunch (clock db.reads) s.pk)
                db.events v.past (omega arith))
              (rw (first_open-put db.next_record e db.records r s v.rows h k m) p))
        | inr n ↦
            rw
              (last_event-cons_ne j (event_of e direction lunch (clock db.reads) s.pk) db.events
                (λ q. ground arith))
              (rw
                (first_open-put_ne db.next_record e j db.records r s v.rows h k m
                  (λ q. ground arith))
                (v.punched j))
      ];
    }

    pub abandoned-IsValid :
        (e : ℕ) (r s : AttendanceRecord) (db : Db)
        → IsValid clock db
        → first_open e db.records ≡ some r
        → s.pk ≡ r.pk
        → s.employee ≡ e
        → s.auto_closed ≡ true
        → IsValid clock (abandoned s db)
    abandoned-IsValid e r s db v h k m a = record {
      rows = put-Rows db.next_record e db.records r s v.rows h k m;
      past = past-suc db.reads db.events v.past;
      punched = λ j. elim (Bool-cases (e == j)) [
        | inl q ↦
            rw (← (==_iff e j).0 q)
              (rw (first_open-put db.next_record e db.records r s v.rows h k m) (ground arith))
        | inr n ↦
            rw
              (first_open-put_ne db.next_record e j db.records r s v.rows h k m (λ q. ground arith))
              (v.punched j)
      ];
    }
