-- ===== src/Attendance/Service/Rows.antt =====
-- The attendance table as `get_open_record` sees it (attendance/service.py): what a save of one row
-- changes for the employee of that row, and for the others.
use truck.Base.{
  ℕ, suc, ◌<◌, ◌≡◌, refl, ◌≢◌, Bool, true, false, not, ◌&&◌, Option, none, some, List, [], ◌∷◌,
  arith, if◌then◌else◌, is_none, select,
}
use truck.Attendance.Record.{AttendanceRecord}
use truck.Attendance.Store.{put}
use truck.Attendance.Service.{is_open, open_record}

abbrev pub unclosed : AttendanceRecord → Bool
unclosed r = is_none r.exit_time && not r.auto_closed

-- The first open row of an employee.
abbrev pub first_open : ℕ → List AttendanceRecord → Option AttendanceRecord
first_open e [] = none
first_open e (x ∷ xs) = if is_open e x then some x else first_open e xs

abbrev pub IsFresh : ℕ → List AttendanceRecord → Type 0
IsFresh k [] = Unit
IsFresh k (x ∷ xs) = (x.pk ≢ k) × IsFresh k xs

-- Keys are distinct and below the next one, and no employee has two open rows.
abbrev pub Rows : ℕ → List AttendanceRecord → Type 0
Rows n [] = Unit
Rows n (x ∷ xs) =
    (x.pk < n) × IsFresh x.pk xs × (unclosed x ≡ true → first_open x.employee xs ≡ none) × Rows n xs

pub first_open_ne :
    (k e : ℕ) (xs : List AttendanceRecord) (r : AttendanceRecord)
    → IsFresh k xs
    → first_open e xs ≡ some r
    → r.pk ≢ k
first_open_ne k e [] r f h = ground arith
first_open_ne k e (x ∷ xs) r f h = ground (arith, first_open_ne k e xs r)

pub first_open_is_open :
    (e : ℕ) (xs : List AttendanceRecord) (r : AttendanceRecord)
    → first_open e xs ≡ some r
    → (r.employee ≡ e) × (r.exit_time ≡ none) × (r.auto_closed ≡ false)
first_open_is_open e [] r h = ground arith
first_open_is_open e (x ∷ xs) r h = ground (arith, first_open_is_open e xs r)

select-none :
    (e : ℕ) (xs : List AttendanceRecord) → first_open e xs ≡ none → select (is_open e) xs ≡ []
select-none e [] h = refl
select-none e (x ∷ xs) h = ground (arith, select-none e xs)

-- With one open row at most, the latest one is the first one.
pub open_record-eq :
    (n e : ℕ) (xs : List AttendanceRecord) → Rows n xs → open_record e xs ≡ first_open e xs
unfolding open_record
open_record-eq n e [] v = refl
open_record-eq n e (x ∷ xs) v = ground (arith, open_record-eq n e xs v.3, select-none e xs)

pub put_fresh :
    (r : AttendanceRecord) (xs : List AttendanceRecord) → IsFresh r.pk xs → put r xs ≡ xs
put_fresh r [] f = refl
put_fresh r (x ∷ xs) f = ground (arith, put_fresh r xs)

pub put-IsFresh :
    (k : ℕ) (r : AttendanceRecord) (xs : List AttendanceRecord)
    → IsFresh k xs
    → r.pk ≢ k
    → IsFresh k (put r xs)
put-IsFresh k r [] f h = tt
put-IsFresh k r (x ∷ xs) f h = ground (arith, put-IsFresh k r xs)

-- Saving over an open row: the employee's open row is then the saved one, or none.
pub first_open-put :
    (n e : ℕ) (xs : List AttendanceRecord) (r s : AttendanceRecord)
    → Rows n xs
    → first_open e xs ≡ some r
    → s.pk ≡ r.pk
    → s.employee ≡ e
    → first_open e (put s xs) ≡ (if unclosed s then some s else none)
first_open-put n e [] r s v h k m = ground arith
first_open-put n e (x ∷ xs) r s v h k m =
    ground (arith, first_open-put n e xs r s v.3, first_open_ne x.pk e xs r v.1, put_fresh s xs)

-- Nothing changes for another employee.
pub first_open-put_ne :
    (n e j : ℕ) (xs : List AttendanceRecord) (r s : AttendanceRecord)
    → Rows n xs
    → first_open e xs ≡ some r
    → s.pk ≡ r.pk
    → s.employee ≡ e
    → j ≢ e
    → first_open j (put s xs) ≡ first_open j xs
first_open-put_ne n e j [] r s v h k m d = refl
first_open-put_ne n e j (x ∷ xs) r s v h k m d =
    ground
      (arith, first_open-put_ne n e j xs r s v.3, first_open_ne x.pk e xs r v.1, put_fresh s xs)

pub put-Rows :
    (n e : ℕ) (xs : List AttendanceRecord) (r s : AttendanceRecord)
    → Rows n xs
    → first_open e xs ≡ some r
    → s.pk ≡ r.pk
    → s.employee ≡ e
    → Rows n (put s xs)
put-Rows n e [] r s v h k m = tt
put-Rows n e (x ∷ xs) r s v h k m = ground (
  arith,
  put-Rows n e xs r s v.3,
  first_open_ne x.pk e xs r v.1,
  put_fresh s xs,
  put-IsFresh x.pk s xs v.1,
  first_open-put n e xs r s v.3,
  first_open-put_ne n e x.employee xs r s v.3,
)

Rows-suc : (n : ℕ) (xs : List AttendanceRecord) → Rows n xs → Rows (suc n) xs
Rows-suc n [] v = tt
Rows-suc n (x ∷ xs) v = ground (arith, Rows-suc n xs v.3)

Rows-IsFresh : (n : ℕ) (xs : List AttendanceRecord) → Rows n xs → IsFresh n xs
Rows-IsFresh n [] v = tt
Rows-IsFresh n (x ∷ xs) v = ground (arith, Rows-IsFresh n xs v.3)

-- A new row under the next key, for an employee with no open row.
pub cons-Rows :
    (n : ℕ) (r : AttendanceRecord) (xs : List AttendanceRecord)
    → Rows n xs
    → r.pk ≡ n
    → first_open r.employee xs ≡ none
    → Rows (suc n) (r ∷ xs)
cons-Rows n r xs v k h = ground (arith, Rows-suc n xs v, Rows-IsFresh n xs v)
