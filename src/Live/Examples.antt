-- ===== src/Live/Examples.antt =====
-- Two of the staff in the list of employees, and a page of trucks that is left open.
use truck.Base.{
  ℕ, ◌≡◌, refl, Bool, true, false, none, some, List, [], ◌∷◌, ◌==◌, arith, codes, Text, text_eq,
  count, ℤ,
}
use truck.Employees.Model.{Employee}
use truck.Live.{instant, answered, poll, update_rows, latest_rows}
use truck.Live.Pages.{
  Stamped, employee_matches, employee_shown, employees_poll, employees_update, page_size, number,
}
use truck.Live.Polls.{Splits, update_rows-Splits}
use truck.Live.Follow.{Delivers, poll-Delivers, Batch, follow, added_rows, follow-InTurn}

-- A search that asks for the whole text.
abbrev icontains : Text → Text → Bool
icontains query field = text_eq query field

abbrev ana : Employee
ana = record {
  pk = 7;
  name = codes "Ana";
  role = codes "Motorista";
  department = [];
  phone = [];
  rg = [];
  cpf = [];
  is_foreigner = false;
  foreign_document_number = [];
  foreign_document_type = [];
  address = [];
  cep = [];
  hire_date = 19000;
  is_driver = true;
  is_active = true;
  photo = none;
  document_photo = none;
}

abbrev joana : Employee
joana = record ana { pk = 8; name = codes "Joana"; is_active = false }

-- Joana was deactivated after Ana was created.
abbrev staff : List (Stamped Employee)
staff =
    record { row = ana; created_at = 10; updated_at = 10 }
    ∷ record { row = joana; created_at = 5; updated_at = 20 }
    ∷ []

employees_update_removes :
    employees_update icontains false [] (instant 8) staff
    ≡ answered (record {
      visible = record { row = ana; created_at = 10; updated_at = 10 } ∷ [];
      removed = record { row = joana; created_at = 5; updated_at = 20 } ∷ [];
      newest = some 20;
    })
unfolding employees_update update_rows latest_rows
employees_update_removes = refl

employees_poll_new :
    employees_poll icontains false (codes "Motorista") (instant 8) staff
    ≡ answered (record {
      rows = record { row = ana; created_at = 10; updated_at = 10 } ∷ [];
      newest = some 10;
    })
unfolding employees_poll poll latest_rows
employees_poll_new = refl

page_size_clamped : page_size (number (ℤ.pos 500)) ≡ 100
unfolding page_size
page_size_clamped = refl

abbrev created : Stamped ℕ → ℕ
created t = t.created_at

abbrev truck_at : ℕ → Stamped ℕ
truck_at t = record { row = t; created_at = t; updated_at = t }

-- Two trucks are registered before the first poll, and one before the second.
abbrev batches : List (Batch created (λ t. true))
batches =
    record { until = 12; added = truck_at 12 ∷ truck_at 11 ∷ [] }
    ∷ record { until = 20; added = truck_at 15 ∷ [] }
    ∷ []

update_rows-Splits_example :
    Splits
      (λ e. e.updated_at)
      (employee_matches icontains [])
      (employee_shown false)
      (instant 8)
      staff
      (update_rows
        (λ e. e.updated_at)
        (employee_matches icontains [])
        (employee_shown false)
        (instant 8)
        staff)
update_rows-Splits_example =
    update_rows-Splits (λ e. e.updated_at) (employee_matches icontains []) (employee_shown false)
      (instant 8) staff

poll-Delivers_example :
    Delivers created
      (λ t. true)
      (instant 10)
      (truck_at 12 ∷ truck_at 11 ∷ truck_at 3 ∷ [])
      (poll created (λ t. true) (instant 10) (truck_at 12 ∷ truck_at 11 ∷ truck_at 3 ∷ []))
poll-Delivers_example =
    poll-Delivers created (λ t. true) (instant 10) (truck_at 12 ∷ truck_at 11 ∷ truck_at 3 ∷ [])

follow-InTurn_example :
    count (λ t. t.row == 15) (follow created (λ t. true) 10 (truck_at 3 ∷ []) batches)
    ≡ count (λ t. t.row == 15) (added_rows created (λ t. true) batches)
follow-InTurn_example =
    follow-InTurn created (λ t. true) (λ t. t.row == 15) 10 10 (truck_at 3 ∷ []) batches
      (omega arith) refl
      (
        (omega arith, (omega arith, tt)),
        (omega arith, (omega arith, tt)),
        omega arith,
        omega arith,
        ((omega arith, tt), (omega arith, tt), omega arith, omega arith, tt),
      )
