-- ===== src/Biometric/Enroll.antt =====
-- Enrolment of fingerprints: the requests and templates (biometric/models.py), the endpoints of the
-- kiosks (biometric/api_views.py) and the pages of the staff (employees/views.py). A template is its
-- bytes. Instants are readings of the clock, given to each operation.
pub mod Page
pub mod Valid
pub mod Saves
pub mod Rows
pub mod Steps
pub mod Race
pub mod Answers
pub mod Sync
mod Examples
use truck.Base.{
  ℕ, suc, Bool, true, false, not, ◌&&◌, ◌||◌, Option, none, some, List, [], ◌∷◌, Text, length, ◌==◌,
  leb, if◌then◌else◌, is_none, select, first, any, latest, update, earliest, ℤ, pos, is_key,
  is_small,
}
use truck.Employees.Model.{Employee}

pub record BiometricTemplate : Type 0 where
  pub employee : ℕ
  pub template : List ℕ
  pub finger_index : ℤ

pub data Status : Type 0 where
  pending done cancelled : Status

pub record EnrollRequest : Type 0 where
  pub pk : ℕ
  pub employee : ℕ
  pub status : Status
  pub requested_by : Option ℕ
  pub requested_at : ℕ
  pub completed_at : Option ℕ
  pub fulfilled_by_device : Option ℕ

-- The tables, newest row first.
pub record Db : Type 0 where
  pub employees : List Employee
  pub templates : List BiometricTemplate
  pub requests : List EnrollRequest
  pub next_request : ℕ

abbrev pub is_pending : EnrollRequest → Bool
is_pending r = elim r.status [ pending ↦ true | done ↦ false | cancelled ↦ false ]

-- `filter(employee=employee, status=PENDING)`
abbrev pub pending_of : ℕ → EnrollRequest → Bool
pending_of employee r = r.employee == employee && is_pending r

abbrev pub template_of : ℕ → BiometricTemplate → Bool
template_of employee t = t.employee == employee

abbrev pub employee_of : ℕ → Db → Option Employee
employee_of pk db = first (select (λ e. e.pk == pk) db.employees)

-- What `full_clean` accepts.
abbrev pub clean : BiometricTemplate → Bool
clean t = not (length t.template == 0) && leb (length t.template) 10240 && is_small t.finger_index

-- `get_or_create_pending`, with whether the request was created.
abbrev pub new_request : ℕ → Option ℕ → ℕ → ℕ → EnrollRequest
new_request employee requested_by now pk = record {
  pk = pk;
  employee = employee;
  status = pending;
  requested_by = requested_by;
  requested_at = now;
  completed_at = none;
  fulfilled_by_device = none;
}

abbrev pub create_unless :
    ℕ → Option ℕ → ℕ → Option EnrollRequest → Db → (EnrollRequest × Bool) × Db
create_unless employee requested_by now (some r) db = ((r, false), db)
create_unless employee requested_by now none db =
    let r = new_request employee requested_by now db.next_request in
    ((r, true), record db { requests = r ∷ db.requests; next_request = suc db.next_request })

unfoldable pub get_or_create_pending : ℕ → Option ℕ → ℕ → Db → (EnrollRequest × Bool) × Db
get_or_create_pending employee requested_by now db =
    create_unless employee requested_by now
      (earliest (λ r. r.requested_at) (select (pending_of employee) db.requests)) db

abbrev pub done_by : ℕ → ℕ → EnrollRequest → EnrollRequest
done_by device now r = record r {
  status = done;
  completed_at = some now;
  fulfilled_by_device = some device;
}

-- `mark_done` saves the row with the request's key, whatever its status is by then.
unfoldable pub mark_done : ℕ → ℕ → EnrollRequest → Db → Db
mark_done device now r db = record db {
  requests = update (λ q. q.pk == r.pk) (done_by device now) db.requests;
}

-- What `enroll_request_id` holds: nothing, a value that `int` refuses with an exception that is caught,
-- or a number. An infinite number is a case of the body.
pub data RequestId : Type 0 where
  absent refused : RequestId
  number : ℤ → RequestId

-- The request that `_close_enroll_request` finds.
unfoldable pub request_for : ℕ → RequestId → List EnrollRequest → Option EnrollRequest
request_for employee absent rs = earliest (λ r. r.requested_at) (select (pending_of employee) rs)
request_for employee refused rs = none
request_for employee (number i) rs = first (select (λ r. is_pending r && is_key i r.pk) rs)

abbrev pub mark_found : ℕ → ℕ → Option EnrollRequest → Db → Db
mark_found device now none db = db
mark_found device now (some r) db = mark_done device now r db

unfoldable pub close_enroll_request : ℕ → RequestId → ℕ → ℕ → Db → Db
close_enroll_request employee i device now db =
    mark_found device now (request_for employee i db.requests) db

-- The body of a post, as `json` and `base64` read it: `overflow` is an infinite number, which `int`
-- refuses with an exception that the view does not catch. In `endless` that is the request's key alone.
pub data Payload : Type 0 where
  malformed overflow : Payload
  enrolling : ℤ → List ℕ → ℤ → RequestId → Payload
  endless : ℤ → List ℕ → ℤ → Payload

pub data Reply : Type 0 where
  bad_request server_error employee_not_found invalid_template : Reply
  ok : ℕ → Bool → Reply

-- The template row to save, and whether it is new.
abbrev pub template_row : ℕ → List ℕ → ℤ → Option BiometricTemplate → BiometricTemplate × Bool
template_row employee bytes finger none =
    (record { employee = employee; template = bytes; finger_index = finger }, true)
template_row employee bytes finger (some t) =
    (record t { template = bytes; finger_index = finger }, false)

-- `bio.save()` once it is validated.
abbrev pub save_template :
    BiometricTemplate × Bool → List BiometricTemplate → List BiometricTemplate
save_template (t, true) ts = t ∷ ts
save_template (t, false) ts = update (template_of t.employee) (λ u. t) ts

abbrev pub save_and_close : ℕ → RequestId → ℕ → ℕ → BiometricTemplate × Bool → Db → Reply × Db
save_and_close employee i device now (t, created) db =
    if clean t
    then (
      ok employee created,
      close_enroll_request employee i device now
          (record db { templates = save_template (t, created) db.templates }),
    )
    else (invalid_template, db)

abbrev pub enroll_employee : List ℕ → ℤ → RequestId → ℕ → ℕ → Option Employee → Db → Reply × Db
enroll_employee bytes finger i device now none db = (employee_not_found, db)
enroll_employee bytes finger i device now (some e) db =
    save_and_close e.pk i device now
      (template_row e.pk bytes finger (first (select (template_of e.pk) db.templates))) db

-- A key that raises `OverflowError` in the transaction, which takes the template back.
abbrev pub undone : BiometricTemplate → Db → Reply × Db
undone t db = if clean t then (server_error, db) else (invalid_template, db)

abbrev pub enroll_endless : List ℕ → ℤ → Option Employee → Db → Reply × Db
enroll_endless bytes finger none db = (employee_not_found, db)
enroll_endless bytes finger (some e) db =
    undone (template_row e.pk bytes finger (first (select (template_of e.pk) db.templates))).0 db

-- `KioskEnrollView.post`
unfoldable pub enroll : Payload → ℕ → ℕ → Db → Reply × Db
enroll malformed device now db = (bad_request, db)
enroll overflow device now db = (server_error, db)
enroll (enrolling id bytes finger i) device now db =
    enroll_employee bytes finger i device now (first (select (λ e. is_key id e.pk) db.employees)) db
enroll (endless id bytes finger) device now db =
    enroll_endless bytes finger (first (select (λ e. is_key id e.pk) db.employees)) db

-- `KioskEnrollRequestNextView.get`
unfoldable pub next : Db → Option EnrollRequest
next db = earliest (λ r. r.requested_at) (select is_pending db.requests)

-- `KioskTemplateSyncView.get`
abbrev pub is_active_in : List Employee → BiometricTemplate → Bool
is_active_in es t = any (λ e. e.pk == t.employee && e.is_active) es

abbrev pub values : List BiometricTemplate → List (ℕ × List ℕ)
values [] = []
values (t ∷ ts) = (t.employee, t.template) ∷ values ts

unfoldable pub sync : Db → List (ℕ × List ℕ)
sync db = values (select (is_active_in db.employees) db.templates)

-- `update(status=CANCELLED, completed_at=timezone.now())`
abbrev pub cancelled_at : ℕ → EnrollRequest → EnrollRequest
cancelled_at now r = record r { status = cancelled; completed_at = some now }

unfoldable pub cancel_pending : ℕ → ℕ → Db → Db
cancel_pending employee now db = record db {
  requests = update (pending_of employee) (cancelled_at now) db.requests;
}

-- `EmployeeDeleteBiometricView.post`, for an employee that exists.
unfoldable pub delete_biometric : ℕ → ℕ → Db → Db
delete_biometric employee now db =
    cancel_pending employee now
      (record db { templates = select (λ t. not (template_of employee t)) db.templates })
