-- ===== src/Attendance/Store.antt =====
-- The tables that the attendance service reads and writes, and the effects of a call: reading the
-- clock, querying, saving and raising. What was saved before a raise stays saved.
use truck.Base.{
  ℕ, suc, ◌≡◌, arith, none, some, List, [], ◌∷◌, Option, Text, ◌==◌, if◌then◌else◌, select, first,
}
use truck.Employees.Model.{Employee}
use truck.Attendance.Record.{AttendanceRecord, PresenceEvent, Field, clean, with_date}

-- Tables are listed newest first. `reads` counts the readings of the clock so far.
pub record Db : Type 0 where
  pub employees : List Employee
  pub records : List AttendanceRecord
  pub events : List PresenceEvent
  pub next_record : ℕ
  pub reads : ℕ

-- The messages of the `ValueError`s that the service raises.
pub data Reason : Type 0 where
  inactive : Text → Reason
  no_lunch_start no_lunch_end no_open_record : Reason

pub data Error : Type 0 where
  does_not_exist : Error
  value_error : Reason → Error
  duplicate_scan : Text → ℕ → Error
  validation_error : Field × Field → Error

pub data Result {ℓ} (A : Type ℓ) : Type ℓ where
  ok : A → Result A
  err : Error → Result A

abbrev pub Action : Type 0 → Type 0
Action A = Db → Result A × Db

-- What follows a step: it goes on with the result, or the chain ends with the error.
abbrev pub resume : {A B : Type 0} → Result A × Db → (A → Action B) → Result B × Db
resume (ok a, db) f = f a db
resume (err e, db) f = (err e, db)

infixl 5 ◌>>=◌ ◌>>◌
abbrev pub ◌>>=◌ : {A B : Type 0} → Action A → (A → Action B) → Action B
◌>>=◌ m f db = resume (m db) f

abbrev pub ◌>>◌ : {A B : Type 0} → Action A → Action B → Action B
m >> k = m >>= λ _. k

abbrev pub pure : {A : Type 0} → A → Action A
pure a db = (ok a, db)

abbrev pub raise : {A : Type 0} → Error → Action A
raise e db = (err e, db)

abbrev pub gets : {A : Type 0} → (Db → A) → Action A
gets f db = (ok (f db), db)

-- `timezone.now()`: the clock is a sequence of readings.
abbrev pub now : (ℕ → ℕ) → Action ℕ
now clock db = (ok (clock db.reads), record db { reads = suc db.reads })

-- `Employee.objects.get(pk=...)`.
abbrev pub get_employee : ℕ → Action Employee
get_employee pk db = elim (first (select (λ e. e.pk == pk) db.employees)) [
  | none ↦ (err does_not_exist, db)
  | some e ↦ (ok e, db)
]

-- The row of the same key is overwritten.
abbrev pub put : AttendanceRecord → List AttendanceRecord → List AttendanceRecord
put r [] = []
put r (x ∷ xs) = (if x.pk == r.pk then r else x) ∷ put r xs

-- `record.save()` of a new row and of a stored one: `save` sets the date, validates and writes.
abbrev pub checked :
    Option (Field × Field) → AttendanceRecord → Db → Db → Result AttendanceRecord × Db
checked (some fields) row db written = (err (validation_error fields), db)
checked none row db written = (ok row, written)

unfoldable pub save_new : AttendanceRecord → Action AttendanceRecord
save_new r db =
    let row = with_date (record r { pk = db.next_record }) in
    checked (clean row) row db
      (record db { records = row ∷ db.records; next_record = suc db.next_record })

unfoldable pub save : AttendanceRecord → Action AttendanceRecord
save r db =
    let row = with_date r in checked (clean row) row db (record db { records = put row db.records })

-- `PresenceEvent.objects.create(...)`.
abbrev pub create_event : PresenceEvent → Action (Unit {0})
create_event e db = (ok tt, record db { events = e ∷ db.events })

-- A step that has returned hands its result on.
pub resume_ok :
    {A B : Type 0} (r : Result A × Db) (f : A → Action B) {a : A}
    → r.0 ≡ ok a
    → resume r f ≡ f a r.1
resume_ok (ok b, db) f h = ground arith
resume_ok (err e, db) f h = cc
