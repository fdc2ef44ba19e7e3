-- ===== src/Trucks/Assignment.antt =====
-- Drivers of trucks (`TruckAssignment` in trucks/models.py, the assignment views of
-- trucks/views.py). Instants are readings of the clock, given to each operation.
pub mod Valid
pub mod Answers
use truck.Base.{
  ℕ, suc, Bool, true, false, not, ◌&&◌, Option, none, some, List, [], ◌∷◌, Text, ◌==◌, ltb,
  if◌then◌else◌, is_none, select, first, any, update, latest,
}
use truck.Employees.Model.{Employee}
use truck.Trucks.Model.{Truck, Field, clean, prepared}

pub record TruckAssignment : Type 0 where
  pub pk : ℕ
  pub truck : ℕ
  pub driver : ℕ
  pub assigned_at : ℕ
  pub unassigned_at : Option ℕ
  pub notes : Text

-- The tables, newest row first.
pub record Db : Type 0 where
  pub trucks : List Truck
  pub employees : List Employee
  pub assignments : List TruckAssignment
  pub next_assignment : ℕ

pub data Refusal : Type 0 where
  not_driver truck_inactive ends_before_start already_driven : Refusal

-- `filter(truck=truck, unassigned_at__isnull=True)`
abbrev pub current_of : ℕ → TruckAssignment → Bool
current_of truck a = a.truck == truck && is_none a.unassigned_at

abbrev pub ends_early : TruckAssignment → Bool
ends_early a = elim a.unassigned_at [ none ↦ false | some t ↦ ltb t a.assigned_at ]

-- `TruckAssignment.clean`, for an assignment of a truck and an employee.
unfoldable pub check : TruckAssignment → Employee → Truck → List TruckAssignment → Option Refusal
check a driver t rows =
    if not driver.is_driver
    then some not_driver
    else if not t.is_active
    then some truck_inactive
    else if ends_early a
    then some ends_before_start
    else if is_none a.unassigned_at && any (λ r. current_of a.truck r && not (r.pk == a.pk)) rows
    then some already_driven
    else none

-- `get_current_driver`: rows are ordered by `-assigned_at`.
abbrev pub current : ℕ → Db → Option TruckAssignment
current truck db = latest (λ a. a.assigned_at) (select (current_of truck) db.assignments)

pub data Reply : Type 0 where
  not_found invalid_form no_driver stale_truck : Reply
  refused : Refusal → Reply
  assigned unassigned : TruckAssignment → Reply

abbrev pub truck_of : ℕ → Db → Option Truck
truck_of pk db = first (select (λ t. t.pk == pk) db.trucks)

abbrev pub employee_of : ℕ → Db → Option Employee
employee_of pk db = first (select (λ e. e.pk == pk) db.employees)

-- What the validator of `notes` accepts.
abbrev pub no_nulls : Text → Bool
no_nulls [] = true
no_nulls (c ∷ t) = not (c == 0) && no_nulls t

-- `form.is_valid()` of `TruckAssignmentForm`, for an employee that exists: the field for the driver
-- only offers drivers that are active.
abbrev pub form_ok : Employee → Text → Bool
form_ok e notes = e.is_driver && e.is_active && no_nulls notes

abbrev pub new_assignment : ℕ → ℕ → ℕ → ℕ → Text → TruckAssignment
new_assignment pk truck driver now notes = record {
  pk = pk;
  truck = truck;
  driver = driver;
  assigned_at = now;
  unassigned_at = none;
  notes = notes;
}

module _ (upper : Text → Text) (current_year : ℕ) where
  -- `truck.save(update_fields=['updated_at'])` validates the truck again, and the assignment stays
  -- saved if that is refused.
  abbrev pub touch : Truck → Reply → Reply
  touch t r =
      if is_none (clean upper current_year (prepared upper current_year t)) then r else stale_truck

  abbrev pub save_new : TruckAssignment → Truck → Option Refusal → Db → Reply × Db
  save_new a t (some e) db = (refused e, db)
  save_new a t none db = (
    touch t (assigned a),
    record db { assignments = a ∷ db.assignments; next_assignment = suc db.next_assignment },
  )

  abbrev pub assign_to : Text → ℕ → Option Truck → Option Employee → Db → Reply × Db
  assign_to notes now none e db = (not_found, db)
  assign_to notes now (some t) none db = (invalid_form, db)
  assign_to notes now (some t) (some e) db =
      let a = new_assignment db.next_assignment t.pk e.pk now notes in
      if form_ok e notes then save_new a t (check a e t db.assignments) db else (invalid_form, db)

  -- `AssignDriverView.post`
  unfoldable pub assign : ℕ → ℕ → Text → ℕ → Db → Reply × Db
  assign truck driver notes now db =
      assign_to notes now (truck_of truck db) (employee_of driver db) db

  abbrev pub end_at : ℕ → TruckAssignment → TruckAssignment
  end_at now a = record a { unassigned_at = some now }

  abbrev pub unassign_from : ℕ → Truck → Option TruckAssignment → Db → Reply × Db
  unassign_from now t none db = (no_driver, db)
  unassign_from now t (some a) db = (
    touch t (unassigned a),
    record db { assignments = update (λ r. r.pk == a.pk) (end_at now) db.assignments },
  )

  abbrev pub unassign_for : ℕ → Option Truck → Db → Reply × Db
  unassign_for now none db = (not_found, db)
  unassign_for now (some t) db = unassign_from now t (current t.pk db) db

  -- `UnassignDriverView.post`
  unfoldable pub unassign : ℕ → ℕ → Db → Reply × Db
  unassign truck now db = unassign_for now (truck_of truck db) db
