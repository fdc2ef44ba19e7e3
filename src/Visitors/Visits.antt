-- ===== src/Visitors/Visits.antt =====
-- Visits and departures, and the tabs of their list (visitors/models.py, visitors/forms.py,
-- visitors/views.py).
pub mod Departs
use truck.Base.{
  ℕ, suc, Bool, true, false, not, ◌&&◌, Option, none, some, is_none, List, [], ◌∷◌, Text, ltb, ◌==◌,
  if◌then◌else◌, select, first, any, update,
}
use truck.Employees.Model.{Employee}
use truck.Live.{
  Since, raises, unreadable, instant, Polled, Updated, Response, answered, poll, update_rows,
}
use truck.Visitors.{Visitor}

pub record Visit : Type 0 where
  pub pk : ℕ
  pub visitor : ℕ
  pub visit_date : ℕ
  pub arrival_time : ℕ
  pub id_verified : Bool
  pub responsible : ℕ
  pub scheduled_departure_time : ℕ
  pub actual_departure_time : Option ℕ
  pub notes : Text
  pub created_at : ℕ
  pub updated_at : ℕ

-- The cleaned data of `VisitForm`.
pub record VisitForm : Type 0 where
  pub visitor : ℕ
  pub visit_date : ℕ
  pub arrival_time : ℕ
  pub id_verified : Bool
  pub responsible : ℕ
  pub scheduled_departure_time : ℕ
  pub notes : Text

pub data Reply : Type 0 where
  invalid_form registered not_found already_departed departed : Reply

abbrev pub is_active : Visit → Bool
is_active v = is_none v.actual_departure_time

-- `Visit.clean`
unfoldable pub clean : ℕ → ℕ → Bool
clean arrival_time scheduled_departure_time = ltb arrival_time scheduled_departure_time

abbrev pub new_visit : VisitForm → ℕ → ℕ → Visit
new_visit form pk now = record {
  pk = pk;
  visitor = form.visitor;
  visit_date = form.visit_date;
  arrival_time = form.arrival_time;
  id_verified = form.id_verified;
  responsible = form.responsible;
  scheduled_departure_time = form.scheduled_departure_time;
  actual_departure_time = none;
  notes = form.notes;
  created_at = now;
  updated_at = now;
}

-- `VisitCreateView.post`: the form offers the visitors and the active staff.
unfoldable pub create :
    List Visitor → List Employee → VisitForm → ℕ → ℕ → List Visit → Reply × List Visit
create visitors staff form pk now visits =
    if any (λ v. v.pk == form.visitor) visitors
      && any (λ e. e.pk == form.responsible && e.is_active) staff
      && clean form.arrival_time form.scheduled_departure_time
    then (registered, new_visit form pk now ∷ visits)
    else (invalid_form, visits)

abbrev pub has_pk : ℕ → Visit → Bool
has_pk pk v = v.pk == pk

-- `update(actual_departure_time=..., updated_at=...)`
abbrev pub leaves : ℕ → ℕ → Visit → Visit
leaves time now v = record v { actual_departure_time = some time; updated_at = now }

-- `VisitDepartView.post`, with the local time of day and the clock when it is saved.
abbrev pub depart_found : ℕ → ℕ → List Visit → Option Visit → Reply × List Visit
depart_found time now visits none = (not_found, visits)
depart_found time now visits (some v) =
    if is_active v
    then (departed, update (has_pk v.pk) (leaves time now) visits)
    else (already_departed, visits)

unfoldable pub depart : ℕ → ℕ → ℕ → List Visit → Reply × List Visit
depart pk time now visits = depart_found time now visits (first (select (has_pk pk) visits))

-- The `filter` of the list's address: another text shows all visits.
pub data Tab : Type 0 where
  active completed all_visits : Tab

abbrev pub in_tab : Tab → Visit → Bool
in_tab active v = is_active v
in_tab completed v = not (is_active v)
in_tab all_visits v = true

-- `VisitListView._poll_response` and `_update_response`: `matches` is the search over the visit, the
-- visitor and the responsible.
unfoldable pub visits_poll : Tab → (Visit → Bool) → Since → List Visit → Response (Polled Visit)
unfolding poll
visits_poll tab matches since visits =
    poll (λ v. v.created_at) (λ v. in_tab tab v && matches v) since visits

unfoldable pub visits_update : Tab → (Visit → Bool) → Since → List Visit → Response (Updated Visit)
unfolding update_rows
visits_update tab matches since visits =
    update_rows (λ v. v.updated_at) matches (in_tab tab) since visits
