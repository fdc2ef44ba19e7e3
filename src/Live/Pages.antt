-- ===== src/Live/Pages.antt =====
-- The live updates of the pages of staff (employees/views.py), trucks (trucks/views.py) and attendance
-- (attendance/views.py). The database's `icontains` and the conversion of an instant to a local date are
-- parameters.
use truck.Base.{
  ℕ, Bool, true, false, ◌&&◌, ◌||◌, Option, none, some, List, [], ◌∷◌, Text, ltb, leb, ◌==◌,
  if◌then◌else◌, any, select, take, truthy, min, max, ℤ, pos, negsuc,
}
use truck.Employees.Model.{Employee}
use truck.Attendance.Record.{AttendanceRecord}
use truck.Live.{
  live_poll_limit, newest_first, first_key, Since, raises, unreadable, instant, Polled, Updated,
  Response, answered, server_error, poll, update_rows,
}

-- A row with its audit columns.
pub record Stamped (A : Type 0) : Type 0 where
  pub row : A
  pub created_at : ℕ
  pub updated_at : ℕ

abbrev pub search_fields : Employee → List Text
search_fields e =
    e.name ∷ e.role ∷ e.department ∷ e.phone ∷ e.rg ∷ e.cpf ∷ e.address ∷ e.cep
    ∷ e.foreign_document_type ∷ e.foreign_document_number ∷ []

abbrev pub employee_shown : Bool → Stamped Employee → Bool
employee_shown show_inactive e = show_inactive || e.row.is_active

module _ (icontains : Text → Text → Bool) where
  -- The disjunction of the searched fields. No query matches every row.
  abbrev pub found_in : Text → List Text → Bool
  found_in query fields = if truthy query then any (icontains query) fields else true

  abbrev pub employee_matches : Text → Stamped Employee → Bool
  employee_matches query e = found_in query (search_fields e.row)

  unfoldable pub employees_poll :
      Bool → Text → Since → List (Stamped Employee) → Response (Polled (Stamped Employee))
  unfolding poll
  employees_poll show_inactive query since rows =
      poll (λ e. e.created_at) (λ e. employee_shown show_inactive e && employee_matches query e)
        since rows

  unfoldable pub employees_update :
      Bool → Text → Since → List (Stamped Employee) → Response (Updated (Stamped Employee))
  unfolding update_rows
  employees_update show_inactive query since rows =
      update_rows (λ e. e.updated_at) (employee_matches query) (employee_shown show_inactive) since
        rows

-- What a list page answers: to the script of an open page, or a page of the list.
pub data Served (A : Type 0) : Type 0 where
  polled : Response (Polled A) → Served A
  updated : Response (Updated A) → Served A
  more_rows whole_page : Served A

-- The choice by the parameters of the request, an empty one counting as absent.
abbrev pub serve :
    {A : Type 0}
    → Bool
    → Option Since
    → Option Since
    → (Since → Response (Polled A))
    → (Since → Response (Updated A))
    → Served A
serve false since changed_since f g = whole_page
serve true (some since) changed_since f g = polled (f since)
serve true none (some changed_since) f g = updated (g changed_since)
serve true none none f g = more_rows

-- The trucks ignore the search, and so do both requests of their page.
unfoldable pub trucks_poll : {A : Type 0} → Since → List (Stamped A) → Response (Polled (Stamped A))
unfolding poll
trucks_poll since rows = poll (λ t. t.created_at) (λ t. true) since rows

unfoldable pub trucks_update :
    {A : Type 0} → Since → List (Stamped A) → Response (Polled (Stamped A))
unfolding poll
trucks_update since rows = poll (λ t. t.updated_at) (λ t. true) since rows

-- `list_records`: the records of an employee between two dates.
abbrev pub from_date : Option ℕ → AttendanceRecord → Bool
from_date none r = true
from_date (some d) r = leb d r.date

abbrev pub to_date : Option ℕ → AttendanceRecord → Bool
to_date none r = true
to_date (some d) r = leb r.date d

abbrev pub is_listed : ℕ → Option ℕ → Option ℕ → AttendanceRecord → Bool
is_listed employee_id start_date end_date r =
    r.employee == employee_id && (from_date start_date r && to_date end_date r)

unfoldable pub list_records :
    ℕ → Option ℕ → Option ℕ → List AttendanceRecord → List AttendanceRecord
list_records employee_id start_date end_date rows =
    newest_first (λ r. r.entry_time) (select (is_listed employee_id start_date end_date) rows)

unfoldable pub records_poll :
    ℕ
    → Option ℕ
    → Option ℕ
    → Since
    → List (Stamped AttendanceRecord)
    → Response (Polled (Stamped AttendanceRecord))
unfolding poll
records_poll employee_id start_date end_date since rows =
    poll (λ r. r.created_at) (λ r. is_listed employee_id start_date end_date r.row) since rows

unfoldable pub records_update :
    ℕ
    → Option ℕ
    → Option ℕ
    → Since
    → List (Stamped AttendanceRecord)
    → Response (Polled (Stamped AttendanceRecord))
unfolding poll
records_update employee_id start_date end_date since rows =
    poll (λ r. r.updated_at) (λ r. is_listed employee_id start_date end_date r.row) since rows

-- The history's poll, on events that are sorted, newest first.
unfoldable pub events_poll : {A : Type 0} → (A → ℕ) → Since → List A → Response (Polled A)
events_poll timestamp raises events = server_error
events_poll timestamp unreadable events = answered (record { rows = []; newest = none })
events_poll timestamp (instant t) events =
    let found = take live_poll_limit (select (λ e. ltb t (timestamp e)) events) in
    answered (record { rows = found; newest = first_key timestamp found })

-- `int(raw)` of a parameter: it is missing or empty, no number, or a number.
pub data Size : Type 0 where
  missing not_a_number : Size
  number : ℤ → Size

unfoldable pub page_size : Size → ℕ
page_size missing = 50
page_size not_a_number = 50
page_size (number (pos n)) = max 1 (min n 100)
page_size (number (negsuc n)) = 1
