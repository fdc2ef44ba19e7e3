-- ===== src/Trucks/Examples.antt =====
-- Runs of the assignment views and uses of their theorems at a small fleet.
use truck.Base.{◌≡◌, ◌⊎◌, refl, true, false, none, some, [], ◌∷◌, arith, Text, codes}
use truck.Employees.Model.{Employee}
use truck.Validators.{Upload, validate_image_file, matches_image_signature}
use truck.Trucks.Photos.{
  Photos, gallery, cover, get_cover_photo, append_photos, save_truck_photos, create_photos,
  update_photos,
}
use truck.Trucks.Model.{
  Truck, license_plate_field, year_field, matches, plate_ok, chassis_ok, clean, prepared,
}
use truck.Trucks.Assignment.{
  Db, check, refused, already_driven, no_driver, truck_of, assign, unassign,
}
use truck.Trucks.Assignment.Valid.{IsValid, assigning, unassigning, start, step, assigning-IsValid}
use truck.Trucks.Assignment.Answers.{Allowed, Assigns, assign-Assigns, Clears, unassign-Clears}

-- Texts that are in capital letters.
abbrev keep : Text → Text
keep t = t

abbrev ana : Employee
ana = record {
  pk = 7;
  name = codes "Ana";
  role = codes "Motorista";
  department = [];
  phone = [];
  rg = [];
  cpf = [];
  is_foreigner = false;
  foreign_document_number = [];
  foreign_document_type = [];
  address = [];
  cep = [];
  hire_date = 19000;
  is_driver = true;
  is_active = true;
  photo = none;
  document_photo = none;
}

abbrev volvo : Truck
volvo = record {
  pk = 3;
  license_plate = codes "ABC1D23";
  brand = none;
  truck_model = record { pk = 1; brand = 2; label = codes "Volvo FH 460" };
  model = [];
  color = codes "branca";
  chassis = codes "9BW12345678901234";
  year = some 2020;
  is_active = true;
  photo = none;
  notes = [];
}

abbrev tables : Db
tables = record { trucks = volvo ∷ []; employees = ana ∷ []; assignments = []; next_assignment = 1 }

tables-IsValid : IsValid tables
tables-IsValid = record {
  one_current = λ t. omega arith;
  keys_below = tt;
  one_key = λ i. omega arith;
}

clean_test : clean keep 2026 (prepared keep 2026 volvo) ≡ none
unfolding clean prepared plate_ok chassis_ok matches
clean_test = refl

plate_test :
    clean keep 2026 (record volvo { license_plate = codes "AB1234" }) ≡ some license_plate_field
unfolding clean plate_ok matches
plate_test = refl

newline_test : clean keep 2026 (record volvo { license_plate = codes "ABC1234\n" }) ≡ none
unfolding clean plate_ok chassis_ok matches
newline_test = refl

year_test : clean keep 2026 (record volvo { year = some 1899 }) ≡ some year_field
unfolding clean plate_ok chassis_ok matches
year_test = refl

abbrev driven : Db
driven = (assign keep 2026 3 7 [] 100 tables).1

twice_test : (assign keep 2026 3 7 [] 200 driven).0 ≡ refused already_driven
unfolding assign check
twice_test = refl

abbrev parked : Db
parked = (unassign keep 2026 3 300 driven).1

parked_test : (unassign keep 2026 3 400 parked).0 ≡ no_driver
unfolding assign check unassign
parked_test = refl

assigning-IsValid_example : IsValid parked
assigning-IsValid_example =
    assigning-IsValid keep 2026 (step (step start (assigning 3 7 [] 100)) (unassigning 3 300))
      tables-IsValid

assign-Assigns_example :
    ((driven ≡ tables) × ¬ Allowed 3 7 [] tables) ⊎ Assigns 3 7 [] tables driven
assign-Assigns_example = assign-Assigns keep 2026 3 7 [] 100 tables tables-IsValid

unassign-Clears_example : Clears 3 (truck_of 3 driven) driven (unassign keep 2026 3 300 driven).1
unassign-Clears_example =
    unassign-Clears keep 2026 3 300 driven
      (assigning-IsValid keep 2026 (step start (assigning 3 7 [] 100)) tables-IsValid)

-- Of three photos the first two are deleted, and one is added: the new one is the cover.
abbrev picture : Upload
picture = record { size = 3; content = 255 ∷ 216 ∷ 255 ∷ [] }

abbrev three : Photos
three =
    (create_photos true 3 100 (picture ∷ picture ∷ picture ∷ [])
      record { rows = []; next_photo = 1 }).1

cover_test :
    get_cover_photo 3 false (update_photos true 3 200 (1 ∷ 2 ∷ []) (picture ∷ []) three).1.rows
    ≡ gallery record { pk = 4; truck = 3; image = picture; order = 1; uploaded_at = 200 }
unfolding get_cover_photo cover create_photos update_photos save_truck_photos append_photos
    validate_image_file matches_image_signature
cover_test = refl
