-- ===== src/Attendance/History.antt =====
-- The life of the attendance tables: scans, the scheduled command, the review screen and changes of
-- the staff, in any order (attendance/service.py, attendance/views.py,
-- attendance/management/commands/auto_close_stale_attendance.py).
use truck.Base.{
  ℕ, suc, ◌≤◌, ◌≡◌, refl, sym, ◌∙◌, ap, ◌⊎◌, none, inl, inr, List, [], ◌∷◌, ◌++◌, arith,
  if◌then◌else◌,
}
use mathlib.Core.List.{append_assoc}
use truck.Employees.Model.{Employee}
use truck.Attendance.Record.{AttendanceRecord, PresenceEvent}
use truck.Attendance.Store.{Db}
use truck.Attendance.Service.{is_open, toggle_for_employee}
use truck.Attendance.Service.Rows.{Rows, first_open}
use truck.Attendance.Service.Invariant.{IsValid}
use truck.Attendance.Service.Saves.{IsMonotone, read-IsValid}
use truck.Attendance.Service.Steps.{read}
use truck.Attendance.Service.Refusals.{toggle_total}
use truck.Attendance.Service.Sweep.{handle, handle_leaves_fresh}
use truck.Attendance.Review.{
  Submitted, Reply, not_found, server_error, invalid_date, rejected, corrected, post,
}
use truck.Attendance.Review.Answers.{Answers, post-Answers}

abbrev pub empty : Db
empty = record { employees = []; records = []; events = []; next_record = 1; reads = 0 }

-- One call, whatever it answers. The clock and the staff may change between calls.
pub data Call (clock localtime : ℕ → ℕ) (db : Db) : Db → Type 0 where
  scan : (e : ℕ) → Call clock localtime db (toggle_for_employee clock localtime e db).1
  sweep : Call clock localtime db (handle clock localtime db).1
  review : (pk : ℕ) (t : Submitted) → Call clock localtime db (post pk t db).1
  staff :
      (employees : List Employee) → Call clock localtime db (record db { employees = employees })

pub data Reach (clock localtime : ℕ → ℕ) (db : Db) : Db → Type 0 where
  here : Reach clock localtime db db
  then_call :
      {b c : Db}
      → Reach clock localtime db b
      → Call clock localtime b c
      → Reach clock localtime db c

-- The open rows of an employee.
abbrev pub count_open : ℕ → List AttendanceRecord → ℕ
count_open e [] = 0
count_open e (x ∷ xs) = if is_open e x then suc (count_open e xs) else count_open e xs

count_open-none :
    (e : ℕ) (xs : List AttendanceRecord) → first_open e xs ≡ none → count_open e xs ≡ 0
count_open-none e [] h = refl
count_open-none e (x ∷ xs) h = ground (arith, count_open-none e xs)

count_open-le : (n e : ℕ) (xs : List AttendanceRecord) → Rows n xs → count_open e xs ≤ 1
count_open-le n e [] v = omega arith
count_open-le n e (x ∷ xs) v = ground (arith, count_open-le n e xs v.3, count_open-none e xs)

-- The event log of the second tables is that of the first with newer events before it.
abbrev pub Grows : Db → Db → Type 0
Grows a b = (new : List PresenceEvent) × (b.events ≡ new ++ a.events)

Grows-trans : (a b c : Db) → Grows a b → Grows b c → Grows a c
Grows-trans a b c (xs, p) (ys, q) =
    (ys ++ xs, q ∙ ap (λ es. ys ++ es) p ∙ sym (append_assoc ys xs a.events))

module _ (clock localtime : ℕ → ℕ) (mono : IsMonotone clock) where
  pub empty-IsValid : IsValid clock empty
  empty-IsValid = record { rows = tt; past = tt; punched = λ e. tt }

  refused-IsValid :
      (db b : Db) → IsValid clock db → (b ≡ db) ⊎ (b ≡ read db) → IsValid clock b × Grows db b
  refused-IsValid db b v (inl p) = rw p (v, ([], refl))
  refused-IsValid db b v (inr p) = rw p (read-IsValid clock mono db v, ([], refl))

  answer-Grows :
      (db : Db) (pk : ℕ) (t : Submitted) (a : Reply × Db) → Answers pk t db a → Grows db a.1
  answer-Grows db pk t (not_found, b) h = ([], ap (λ x. x.events) h.0)
  answer-Grows db pk t (server_error, b) h = ([], ap (λ x. x.events) h.0)
  answer-Grows db pk t (invalid_date, b) h = ([], ap (λ x. x.events) h.0)
  answer-Grows db pk t (rejected e, b) h = ([], ap (λ x. x.events) h.0)
  answer-Grows db pk t (corrected row, b) h = ([], h.events)

  Call-IsValid :
      {a b : Db} → IsValid clock a → Call clock localtime a b → IsValid clock b × Grows a b
  Call-IsValid {a} v (scan e) = elim (toggle_total clock localtime e a mono v) [
    | inl r ↦ (r.recorded.valid, ((r.recorded.event ∷ [], r.recorded.appended)))
    | inr f ↦ refused-IsValid a _ v f.unchanged
  ]
  Call-IsValid {a} v sweep =
      let h = handle_leaves_fresh clock localtime mono a v in (h.valid, ([], h.events))
  Call-IsValid {a} v (review pk t) =
      let h = post-Answers clock pk a v t in (h.0, answer-Grows a pk t (post pk t a) h.1)
  Call-IsValid {a} v (staff employees) =
      (record { rows = v.rows; past = v.past; punched = v.punched }, ([], refl))

  -- Under a clock that does not run backwards, whatever calls are made in whatever order, from valid
  -- tables: the tables stay valid, no employee ever has more than one open record, and no event is ever
  -- lost or altered.
  pub Reach-IsValid :
      {a b : Db}
      → IsValid clock a
      → Reach clock localtime a b
      → IsValid clock b × ((e : ℕ) → count_open e b.records ≤ 1) × Grows a b
  Reach-IsValid {a} v here = (v, (λ e. count_open-le a.next_record e a.records v.rows), ([], refl))
  Reach-IsValid {a} {b} v (then_call {b = m} r c) =
      let h = Reach-IsValid v r in
      let k = Call-IsValid h.0 c in
      (k.0, (λ e. count_open-le b.next_record e b.records k.0.rows), Grows-trans a m b h.2 k.1)
