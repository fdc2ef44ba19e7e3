-- ===== src/Visitors/Examples.antt =====
-- A visitor who comes twice, and one who leaves after midnight.
use truck.Base.{
  ℕ, ◌-◌, ◌≤◌, ◌≡◌, refl, Bool, true, false, ◌&&◌, none, some, Option, List, [], ◌∷◌, arith, leb,
  if◌then◌else◌, Text, codes, ◌==◌,
}
use truck.Validators.{digits, validate_cpf, check_digit}
use truck.Attendance.Record.{dir_in, dir_out}
use truck.Visitors.{
  VisitorForm, Db, invalid_form, saved, clean, is_valid, create, new_visitor, edit_visitor,
  save_all, Request,
}
use truck.Visitors.Accepted.{IsValid}
use truck.Visitors.Valid.{save_all-IsValid}
use truck.Visitors.Visits.{Visit, depart}
use truck.Visitors.Visits.Departs.{Departs, depart-Departs}
use truck.Visitors.History.{visitors, history, visit_events, of_visit}

abbrev ascii : ℕ → Option ℕ
ascii c = if leb 48 c && leb c 57 then some (c - 48) else none

abbrev same : Text → Text
same t = t

abbrev bruno : VisitorForm
bruno = record {
  name = codes " Bruno ";
  phone = [];
  company = [];
  rg = codes "12.345.678-9";
  cpf = codes "529.982.247-25";
  is_foreigner = false;
  foreign_document_number = [];
  foreign_document_type = [];
  photo = none;
  document_photo = none;
}

abbrev empty : Db
empty = record { visitors = []; next_visitor = 1 }

-- The same CPF in other punctuation is accepted for another visitor.
cpf_twice :
    (create same ascii
      (λ u. true)
      (record bruno { name = codes "Carlos"; cpf = codes "52998224725" })
      (create same ascii (λ u. true) bruno empty).1).0
    ≡ saved
unfolding create is_valid clean validate_cpf digits check_digit
cpf_twice = refl

name_taken :
    (create same ascii
      (λ u. true)
      (record bruno { cpf = codes "52998224725" })
      (create same ascii (λ u. true) bruno empty).1).0
    ≡ invalid_form
unfolding create is_valid clean validate_cpf digits check_digit
name_taken = refl

abbrev forms : List Request
forms = new_visitor bruno ∷ edit_visitor 1 (record bruno { name = codes "Bruno Lima" }) ∷ []

save_all-IsValid_example : IsValid same ascii (save_all same ascii (λ u. true) forms empty)
save_all-IsValid_example =
    save_all-IsValid same ascii (λ u. true) forms empty
      (record {
        one_key = λ k. omega arith;
        one_name = λ t. omega arith;
        one_phone = λ t u. omega arith;
        one_cpf = λ t u. omega arith;
        keys_below = tt;
        all_named = tt;
        all_documented = tt;
        all_cpf = tt;
      })

-- From 23:00 on day 5.
abbrev late : Visit
late = record {
  pk = 3;
  visitor = 1;
  visit_date = 5;
  arrival_time = 82800;
  id_verified = true;
  responsible = 7;
  scheduled_departure_time = 86000;
  actual_departure_time = none;
  notes = [];
  created_at = 100;
  updated_at = 100;
}

single : (b : Bool) → (if b then 1 else 0) ≤ 1
single true = omega arith
single false = omega arith

depart-Departs_example :
    Departs (λ v. true) 1800 200 100 (omega arith) 3 (late ∷ []) (depart 3 1800 200 (late ∷ []))
depart-Departs_example =
    depart-Departs (λ v. true) 1800 200 100 (omega arith) 3 (late ∷ []) (single (3 == 3))
      (omega arith, tt)

-- The departure at 00:30 of the next day is taken for one before the arrival.
departure_first :
    history
      (λ n. n)
      (λ n. n)
      (record {
        filter_type = visitors;
        employee_pk = none;
        visitor_pk = none;
        start_date = none;
        end_date = none;
      })
      []
      (record late { actual_departure_time = some 1800 } ∷ [])
    ≡ of_visit 3 dir_in 514800000000 ∷ of_visit 3 dir_out 433800000000 ∷ []
unfolding history visit_events
departure_first = refl
