-- ===== src/Visitors/History.antt =====
-- The history of entries and exits, of staff and visitors (`PresenceHistoryView` in attendance/views.py),
-- and the polls of the visitors' list (visitors/views.py). The local date of an instant and the instant of
-- a local time, both in microseconds, are parameters.
use truck.Base.{
  ℕ, ◌+◌, ◌*◌, Bool, true, false, ◌&&◌, Option, none, some, List, [], ◌∷◌, ◌++◌, ◌==◌, leb,
  if◌then◌else◌, any, select,
}
use truck.Employees.Model.{Employee}
use truck.Attendance.Record.{PresenceEvent, Direction, dir_in, dir_out, day, second}
use truck.Live.{newest_first, Since, Polled, Response, poll}
use truck.Live.Pages.{Stamped, events_poll, Served, polled, more_rows, whole_page}
use truck.Visitors.{Visitor}
use truck.Visitors.Visits.{Visit}

pub data Event : Type 0 where
  of_employee : PresenceEvent → Event
  of_visit : ℕ → Direction → ℕ → Event

abbrev pub timestamp : Event → ℕ
timestamp (of_employee e) = e.timestamp
timestamp (of_visit pk direction at) = at

-- The `type` of the address: another text shows nothing.
pub data Filter : Type 0 where
  all_events employees visitors other : Filter

abbrev pub shows_employees : Filter → Bool
shows_employees all_events = true
shows_employees employees = true
shows_employees visitors = false
shows_employees other = false

abbrev pub shows_visitors : Filter → Bool
shows_visitors all_events = true
shows_visitors employees = false
shows_visitors visitors = true
shows_visitors other = false

-- The parameters of the address; an empty or unreadable date is `none`.
pub record Query : Type 0 where
  pub filter_type : Filter
  pub employee_pk : Option ℕ
  pub visitor_pk : Option ℕ
  pub start_date : Option ℕ
  pub end_date : Option ℕ

abbrev pub is_asked : Option ℕ → ℕ → Bool
is_asked none pk = true
is_asked (some k) pk = pk == k

abbrev pub starts : Option ℕ → ℕ → Bool
starts none date = true
starts (some d) date = leb d date

abbrev pub ends : Option ℕ → ℕ → Bool
ends none date = true
ends (some d) date = leb date d

abbrev pub wrap : List PresenceEvent → List Event
wrap [] = []
wrap (e ∷ es) = of_employee e ∷ wrap es

module _ (localdate make_aware : ℕ → ℕ) where
  -- `make_aware(datetime.combine(date, time))`
  abbrev pub combine : ℕ → ℕ → ℕ
  combine date time = make_aware (date * day + time * second)

  abbrev pub departure : Visit → Option ℕ → List Event
  departure v none = []
  departure v (some time) = of_visit v.pk dir_out (combine v.visit_date time) ∷ []

  -- Both events of a visit get the visit's date.
  unfoldable pub visit_events : List Visit → List Event
  visit_events [] = []
  visit_events (v ∷ vs) =
      of_visit v.pk dir_in (combine v.visit_date v.arrival_time)
      ∷ (departure v v.actual_departure_time ++ visit_events vs)

  abbrev pub employee_asked : Query → PresenceEvent → Bool
  employee_asked q e =
      is_asked q.employee_pk e.employee
      && starts q.start_date (localdate e.timestamp)
      && ends q.end_date (localdate e.timestamp)

  abbrev pub visit_asked : Query → Visit → Bool
  visit_asked q v =
      is_asked q.visitor_pk v.visitor
      && starts q.start_date v.visit_date
      && ends q.end_date v.visit_date

  -- The events of `get`, sorted: of equal instants the one listed first stays first.
  unfoldable pub history : Query → List PresenceEvent → List Visit → List Event
  unfolding visit_events
  history q events visits = newest_first timestamp (
      (if shows_employees q.filter_type
        then wrap (newest_first (λ e. e.timestamp) (select (employee_asked q) events))
        else [])
      ++ (if shows_visitors q.filter_type
          then visit_events (select (visit_asked q) visits)
          else []))

  -- An employee or visitor that is asked for and does not exist is `none`, status 404. They are looked
  -- up only where they are shown; the order of the visits among each other only matters at one instant.
  abbrev pub exists : Option ℕ → (ℕ → Bool) → Bool
  exists none known = true
  exists (some pk) known = known pk

  abbrev pub served : Bool → Option Since → List Event → Served Event
  served false since events = whole_page
  served true none events = more_rows
  served true (some since) events = polled (events_poll timestamp since events)

  unfoldable pub get :
      Bool
      → Option Since
      → Query
      → List Employee
      → List Visitor
      → List PresenceEvent
      → List Visit
      → Option (Served Event)
  unfolding history
  get ajax since q staff known events visits =
      if (if shows_employees q.filter_type
          then exists q.employee_pk (λ k. any (λ e. e.pk == k) staff)
          else true)
        && (if shows_visitors q.filter_type
            then exists q.visitor_pk (λ k. any (λ v. v.pk == k) known)
            else true)
      then some (served ajax since (history q events visits))
      else none

-- `VisitorListView._poll_response`
unfoldable pub visitors_poll : Since → List (Stamped Visitor) → Response (Polled (Stamped Visitor))
unfolding poll
visitors_poll since rows = poll (λ v. v.created_at) (λ v. true) since rows
