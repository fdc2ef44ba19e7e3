-- ===== src/Attendance/Service/Invariant.antt =====
-- What holds of the attendance tables between two calls of the service (attendance/service.py).
use truck.Base.{
  ℕ, ◌≤◌, ◌≡◌, refl, ◌≢◌, true, false, Option, none, some, List, [], ◌∷◌, arith, ◌==◌, ==_iff,
  Bool-cases, inl, inr, All,
}
use truck.Attendance.Record.{AttendanceRecord, PresenceEvent, dir_in, dir_out, clean}
use truck.Attendance.Store.{Db}
use truck.Attendance.Service.{last_event}
use truck.Attendance.Service.Rows.{Rows, first_open}

-- Where an employee stands in the day's cycle, read off the open record.
pub data Phase : Type 0 where
  away working at_lunch returned : Phase

abbrev pub phase_of : Option AttendanceRecord → Phase
phase_of none = away
phase_of (some r) = elim r.lunch_start [
  | none ↦ working
  | some _ ↦ elim r.lunch_end [ none ↦ at_lunch | some _ ↦ returned ]
]

-- The status that the last event shows in each phase of an open record.
abbrev pub Shows : Phase → PresenceEvent → Type 0
Shows away e = Unit
Shows working e = (e.direction ≡ dir_in) × (e.is_lunch ≡ false)
Shows at_lunch e = (e.direction ≡ dir_out) × (e.is_lunch ≡ true)
Shows returned e = (e.direction ≡ dir_in) × (e.is_lunch ≡ true)

abbrev pub NotAfter : ℕ → Option ℕ → Type 0
NotAfter t none = Unit
NotAfter t (some v) = v ≤ t

-- An open record passes validation, and the employee's last event is its last punch or later.
abbrev pub Punched : Option AttendanceRecord → Option PresenceEvent → Type 0
Punched none e = Unit
Punched (some r) none = ⊥
Punched (some r) (some e) =
    (clean r ≡ none)
    × (r.entry_time ≤ e.timestamp)
    × NotAfter e.timestamp r.lunch_start
    × NotAfter e.timestamp r.lunch_end
    × (r.lunch_start ≡ none → r.lunch_end ≡ none)
    × Shows (phase_of (some r)) e

pub record IsValid (clock : ℕ → ℕ) (db : Db) : Type 0 where
  pub rows : Rows db.next_record db.records
  pub past : All (λ e. e.timestamp ≤ clock db.reads) db.events
  pub punched : (e : ℕ) → Punched (first_open e db.records) (last_event e db.events)

-- The other employees' open records and statuses are as they were, and so is the staff.
pub record OthersKept (e : ℕ) (db db' : Db) : Type 0 where
  pub staff : db'.employees ≡ db.employees
  pub rows : (j : ℕ) → j ≢ e → first_open j db'.records ≡ first_open j db.records
  pub events : (j : ℕ) → j ≢ e → last_event j db'.events ≡ last_event j db.events

pub last_event-cons_ne :
    (j : ℕ) (e : PresenceEvent) (xs : List PresenceEvent)
    → j ≢ e.employee
    → last_event j (e ∷ xs) ≡ last_event j xs
unfolding last_event
last_event-cons_ne j e xs d = ground arith

abbrev Within : ℕ → Option PresenceEvent → Type 0
Within t none = Unit
Within t (some e) = e.timestamp ≤ t

last_event-Within :
    (t j : ℕ) (xs : List PresenceEvent) → All (λ e. e.timestamp ≤ t) xs → Within t (last_event j xs)
unfolding last_event
last_event-Within t j [] a = tt
last_event-Within t j (x ∷ xs) a = elim (Bool-cases (x.employee == j)) [
  | inl p ↦ rw p (ground (arith, last_event-Within t j xs a.1))
  | inr q ↦ rw q (last_event-Within t j xs a.1)
]

-- The newest event of an employee is the one just created.
pub last_event-cons :
    (t : ℕ) (e : PresenceEvent) (xs : List PresenceEvent)
    → All (λ x. x.timestamp ≤ t) xs
    → t ≤ e.timestamp
    → last_event e.employee (e ∷ xs) ≡ some e
unfolding last_event
last_event-cons t e xs a h =
    rw ((==_iff e.employee e.employee).1 refl) (ground (arith, last_event-Within t e.employee xs a))
