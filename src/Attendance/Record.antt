-- ===== src/Attendance/Record.antt =====
-- The rows of the attendance log and their validation (attendance/models.py). An instant is a
-- number of microseconds since 1970-01-01 00:00 UTC, a date the number of days since then.
pub mod Order
use truck.Base.{ℕ, ◌+◌, ◌/◌, Bool, Option, none, some, List, [], ◌∷◌, ltb, if◌then◌else◌}

-- `timedelta(seconds=1)` and one day.
abbrev pub second : ℕ
second = 1000000

abbrev pub day : ℕ
day = 86400000000

-- `created_at` and `updated_at` are left to the framework, which stamps them on each save.
pub record AttendanceRecord : Type 0 where
  pub pk : ℕ
  pub employee : ℕ
  pub entry_time : ℕ
  pub lunch_start : Option ℕ
  pub lunch_end : Option ℕ
  pub exit_time : Option ℕ
  pub date : ℕ
  pub auto_closed : Bool

-- The class constants `IN` and `OUT`.
pub data Direction : Type 0 where
  dir_in dir_out : Direction

pub record PresenceEvent : Type 0 where
  pub employee : ℕ
  pub direction : Direction
  pub is_lunch : Bool
  pub timestamp : ℕ
  pub attendance_record : Option ℕ

pub data Field : Type 0 where
  entry_time lunch_start lunch_end exit_time : Field

-- The loop of `AttendanceRecord.clean` from a field on: the pair is the field at fault and the one
-- it is held against.
clean_from : Option (Field × ℕ) → List (Field × Option ℕ) → Option (Field × Field)
clean_from prior [] = none
clean_from prior ((field, none) ∷ rest) = clean_from prior rest
clean_from none ((field, some value) ∷ rest) = clean_from (some (field, value)) rest
clean_from (some (prior_field, prior_value)) ((field, some value) ∷ rest) =
    if ltb value (prior_value + second)
    then some (field, prior_field)
    else clean_from (some (field, value)) rest

-- The four timestamps in the order in which `clean` reads them.
abbrev pub punches : AttendanceRecord → List (Field × Option ℕ)
punches r =
    (entry_time, some r.entry_time)
    ∷ (lunch_start, r.lunch_start)
    ∷ (lunch_end, r.lunch_end)
    ∷ (exit_time, r.exit_time)
    ∷ []

unfoldable pub clean : AttendanceRecord → Option (Field × Field)
unfolding clean_from
clean r = clean_from none (punches r)

-- What `save` writes before it validates: the UTC date of the entry.
abbrev pub with_date : AttendanceRecord → AttendanceRecord
with_date r = record r { date = r.entry_time / day }
