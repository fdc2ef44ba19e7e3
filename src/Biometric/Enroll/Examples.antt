-- ===== src/Biometric/Enroll/Examples.antt =====
-- Runs of the enrolment and uses of its theorems at a small staff.
use truck.Base.{
  ◌≡◌, refl, true, false, none, some, [], ◌∷◌, arith, codes, if◌then◌else◌, select, count, All, pos,
}
use truck.Employees.Model.{Employee}
use truck.Biometric.Enroll.{
  EnrollRequest, Db, pending, done, pending_of, template_of, absent, enrolling, Payload, ok,
  invalid_template, values, enroll, sync, cancel_pending, mark_done, close_enroll_request,
  request_for, get_or_create_pending,
}
use truck.Biometric.Enroll.Page.{not_found, captured, already_enrolled, post}
use truck.Biometric.Enroll.Valid.{IsValid}
use truck.Biometric.Enroll.Steps.{page, kiosk, start, step, enrolling-IsValid}
use truck.Biometric.Enroll.Answers.{Answers, enroll-Answers}
use truck.Biometric.Enroll.Sync.{entries, is_active_pk, entries-sync}
use truck.Biometric.Enroll.Race.{HasKey, cancel_lost}

abbrev ana : Employee
ana = record {
  pk = 7;
  name = codes "Ana";
  role = codes "Motorista";
  department = [];
  phone = [];
  rg = [];
  cpf = [];
  is_foreigner = false;
  foreign_document_number = [];
  foreign_document_type = [];
  address = [];
  cep = [];
  hire_date = 19000;
  is_driver = true;
  is_active = true;
  photo = none;
  document_photo = none;
}

abbrev tables : Db
tables = record { employees = ana ∷ []; templates = []; requests = []; next_request = 1 }

tables-IsValid : IsValid tables
tables-IsValid = record {
  one_template = λ e. omega arith;
  one_pending = λ e. omega arith;
  clean_templates = tt;
  keys_below = tt;
  one_key = λ i. omega arith;
}

-- The page finds no reader, and a kiosk takes the request over.
abbrev asked : Db
asked = (post 7 false (some 1) 100 not_found tables).1

abbrev finger : Payload
finger = enrolling (pos 7) (1 ∷ 2 ∷ 3 ∷ []) (pos 0) absent

abbrev enrolled : Db
enrolled = (enroll finger 4 200 asked).1

asked_test : count (pending_of 7) asked.requests ≡ 1
unfolding post get_or_create_pending
asked_test = refl

enrolled_test : (enroll finger 4 200 asked).0 ≡ ok 7 true
unfolding post get_or_create_pending enroll
enrolled_test = refl

closed_test : count (pending_of 7) enrolled.requests ≡ 0
unfolding post get_or_create_pending enroll close_enroll_request request_for mark_done
closed_test = refl

sync_test : sync enrolled ≡ (7, 1 ∷ 2 ∷ 3 ∷ []) ∷ []
unfolding post get_or_create_pending enroll close_enroll_request request_for mark_done sync
sync_test = refl

again_test : (post 7 false none 300 (captured (1 ∷ [])) enrolled).0 ≡ already_enrolled
unfolding post get_or_create_pending enroll close_enroll_request request_for mark_done
again_test = refl

empty_test : (enroll (enrolling (pos 7) [] (pos 0) absent) 4 200 tables).0 ≡ invalid_template
unfolding enroll
empty_test = refl

enrolling-IsValid_example : IsValid enrolled
enrolling-IsValid_example =
    enrolling-IsValid (step (step start (page 7 false (some 1) 100 not_found)) (kiosk finger 4 200))
      tables-IsValid

enroll-Answers_example : Answers 4 200 finger tables (enroll finger 4 200 tables)
enroll-Answers_example = enroll-Answers finger 4 200 tables tables-IsValid

entries-sync_example : entries 7 (sync enrolled) ≡ (
    if is_active_pk 7 enrolled.employees
    then values (select (template_of 7) enrolled.templates)
    else [])
entries-sync_example = entries-sync 7 enrolled

abbrev request : EnrollRequest
request = record {
  pk = 1;
  employee = 7;
  status = pending;
  requested_by = some 1;
  requested_at = 100;
  completed_at = none;
  fulfilled_by_device = none;
}

cancel_lost_example :
    (select (pending_of 7) (cancel_pending 7 150 asked).requests ≡ [])
    × All
        (λ q. HasKey 1 q → (q.status ≡ done) × (q.fulfilled_by_device ≡ some 4))
        (mark_done 4 200 request (cancel_pending 7 150 asked)).requests
cancel_lost_example = cancel_lost 7 150 request 4 200 asked
