-- ===== src/Attendance/Review.antt =====
-- The review screen for records that were closed automatically (attendance/views.py,
-- AttendancePendingReviewView). Parsing the submitted instant is the framework's: its answer is an
-- argument of the handler.
pub mod Answers
use truck.Base.{
  ℕ, suc, ◌<◌, ◌≡◌, refl, ◌≢◌, Bool, true, false, not, ◌&&◌, Option, none, some, inl, inr, List, [],
  ◌∷◌, arith, ◌==◌, ==_iff, if◌then◌else◌, is_none, select, first, Option-cases, Bool-cases,
}
use mathlib.Core.Path.{subst}
use truck.Attendance.Record.{AttendanceRecord, PresenceEvent, Field, clean, with_date}
use truck.Attendance.Store.{Db, Result, ok, err, Error, put, save, checked, validation_error}
use truck.Attendance.Service.{is_open}
use truck.Attendance.Service.Rows.{put_fresh, put-IsFresh, Rows, IsFresh, first_open, unclosed}
use truck.Attendance.Service.Invariant.{IsValid}

-- What `parse_datetime` made of the submitted text: it raises on a well-formed text that is no
-- instant, and answers `None` for any other text that it cannot read.
pub data Submitted : Type 0 where
  raises : Submitted
  unreadable : Submitted
  instant : ℕ → Submitted

-- The reply, and whether the correction was written to the system log.
pub data Reply : Type 0 where
  not_found server_error invalid_date : Reply
  rejected : Error → Reply
  corrected : AttendanceRecord → Reply

abbrev pub is_pending : AttendanceRecord → Bool
is_pending r = r.auto_closed && is_none r.exit_time

-- `_pending` of the view.
unfoldable pub pending : List AttendanceRecord → List AttendanceRecord
pending rows = select is_pending rows

abbrev pub find_pending : ℕ → List AttendanceRecord → Option AttendanceRecord
find_pending pk rows = first (select (λ r. r.pk == pk && is_pending r) rows)

abbrev pub reply_of : Result AttendanceRecord × Db → Reply × Db
reply_of (ok r, db) = (corrected r, db)
reply_of (err e, db) = (rejected e, db)

unfoldable pub correct : Option AttendanceRecord → Submitted → Db → Reply × Db
correct none t db = (not_found, db)
correct (some r) raises db = (server_error, db)
correct (some r) unreadable db = (invalid_date, db)
correct (some r) (instant t) db = reply_of (save (record r { exit_time = some t }) db)

unfoldable pub post : ℕ → Submitted → Db → Reply × Db
unfolding correct
post pk t db = correct (find_pending pk db.records) t db
