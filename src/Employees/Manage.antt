-- ===== src/Employees/Manage.antt =====
-- The validation of an employee and the pages that save one (employees/models.py, employees/forms.py,
-- employees/views.py). Texts of a form are as the framework's fields hand them on. The decimal value of a
-- character and the library's check of an image are parameters; today is the UTC date.
use truck.Base.{
  ℕ, suc, ◌≤◌, ◌≡◌, refl, sym, ap, ◌∙◌, Bool, true, false, not, ◌&&◌, Option, none, some, inl, inr,
  List, ◌∷◌, ◌==◌, Text, text_eq, text_eq-eq, strip, truthy, leb, if◌then◌else◌, select, first, any,
  update, count, count-any, count-cons_one, count-update_one, and_true, not-true, Bool-cases,
  Option-cases,
}
use truck.Validators.{
  validate_cpf, validate_cep, Upload, validate_image_file, validate_image_or_pdf_file,
}
use truck.Employees.Model.{Employee}

abbrev pub has_pk : ℕ → Employee → Bool
has_pk pk e = e.pk == pk

abbrev pub is_other : Option ℕ → Employee → Bool
is_other none e = true
is_other (some pk) e = not (has_pk pk e)

abbrev pub cpf_is : Text → Employee → Bool
cpf_is cpf e = text_eq e.cpf cpf

-- The cleaned data of `EmployeeForm` as a row without a key, and the files uploaded with it.
pub record EmployeeForm : Type 0 where
  pub row : Employee
  pub photo : Option Upload
  pub document_photo : Option Upload

pub record Db : Type 0 where
  pub employees : List Employee
  pub next_employee : ℕ

pub data Reply : Type 0 where
  not_found invalid_form saved : Reply

-- `clean_name` strips the name.
abbrev pub filled : EmployeeForm → ℕ → Employee
filled form pk = record form.row { pk = pk; name = strip form.row.name }

module _ (decimal : ℕ → Option ℕ) (is_image : Upload → Bool) (today : ℕ) where
  abbrev pub cpf_ok : Option ℕ → Employee → List Employee → Bool
  cpf_ok edited e rows =
      if truthy e.cpf
      then validate_cpf decimal e.cpf && not (any (λ r. is_other edited r && cpf_is e.cpf r) rows)
      else true

  -- `Employee.clean`; `validate_cep` accepts the empty text.
  unfoldable pub clean : Option ℕ → Employee → List Employee → Bool
  clean edited e rows =
      truthy (strip e.name)
      && leb e.hire_date today
      && cpf_ok edited e rows
      && validate_cep decimal e.cep

  abbrev pub photo_ok : Option Upload → Bool
  photo_ok none = true
  photo_ok (some u) = is_image u && validate_image_file (some u)

  abbrev pub document_ok : Option Upload → Bool
  document_ok none = true
  document_ok (some u) = validate_image_or_pdf_file (some u)

  -- `form.is_valid()`: `clean_name` and `clean_hire_date` ask what `clean` asks again.
  unfoldable pub is_valid : Option ℕ → EmployeeForm → List Employee → Bool
  is_valid edited form rows =
      photo_ok form.photo && document_ok form.document_photo && clean edited (filled form 0) rows

  -- `EmployeeCreateView.post`
  unfoldable pub create : EmployeeForm → Db → Reply × Db
  create form db =
      if is_valid none form db.employees
      then (
        saved,
        record {
          employees = filled form db.next_employee ∷ db.employees;
          next_employee = suc db.next_employee;
        },
      )
      else (invalid_form, db)

  -- `EmployeeUpdateView.post`
  abbrev pub edit_found : ℕ → EmployeeForm → Db → Option Employee → Reply × Db
  edit_found pk form db none = (not_found, db)
  edit_found pk form db (some e) =
      if is_valid (some pk) form db.employees
      then (
        saved,
        record db { employees = update (has_pk pk) (λ r. filled form r.pk) db.employees },
      )
      else (invalid_form, db)

  unfoldable pub edit : ℕ → EmployeeForm → Db → Reply × Db
  edit pk form db = edit_found pk form db (first (select (has_pk pk) db.employees))

  -- No two employees have one CPF, as a text.
  abbrev pub OneCpf : List Employee → Type 0
  OneCpf rows = (t : Text) → truthy t ≡ true → count (cpf_is t) rows ≤ 1

  free_cpf :
      (edited : Option ℕ) (form : EmployeeForm) (rows : List Employee) (t : Text)
      → is_valid edited form rows ≡ true
      → truthy t ≡ true
      → text_eq form.row.cpf t ≡ true
      → count (λ r. is_other edited r && cpf_is t r) rows ≡ 0
  unfolding is_valid clean
  free_cpf edited form rows t h u same =
      let e = filled form 0 in
      let q : t ≡ form.row.cpf = sym (text_eq-eq form.row.cpf t same) in
      let files = photo_ok form.photo && document_ok form.document_photo in
      let cl = (and_true files _ h).1 in
      let (upto_cpf, cep) = and_true _ (validate_cep decimal e.cep) cl in
      let k = (and_true _ (cpf_ok edited e rows) upto_cpf).1 in
      let has : truthy form.row.cpf ≡ true = ap truthy (sym q) ∙ u in
      let k' : validate_cpf decimal form.row.cpf
            && not (any (λ r. is_other edited r && cpf_is form.row.cpf r) rows)
          ≡ true =
        rw has at k in
      let free : any (λ r. is_other edited r && cpf_is form.row.cpf r) rows ≡ false =
        not-true _ (and_true _ _ k').1 in
      ap (λ s. count (λ r. is_other edited r && cpf_is s r) rows) q
      ∙ count-any (λ r. is_other edited r && cpf_is form.row.cpf r) rows free

  create-OneCpf :
      (form : EmployeeForm) (db : Db) → OneCpf db.employees → OneCpf (create form db).1.employees
  unfolding create
  create-OneCpf form db one t u = elim (Bool-cases (is_valid none form db.employees)) [
    | inl h ↦ rw h (
        count-cons_one (cpf_is t) (filled form db.next_employee) db.employees
          (free_cpf none form db.employees t h u) (one t u))
    | inr n ↦ rw n (one t u)
  ]

  edit-OneCpf :
      (pk : ℕ) (form : EmployeeForm) (db : Db)
      → count (has_pk pk) db.employees ≤ 1
      → OneCpf db.employees
      → OneCpf (edit pk form db).1.employees
  unfolding edit
  edit-OneCpf pk form db key one t u =
      elim (Option-cases (first (select (has_pk pk) db.employees))) [
        | inl missing ↦ rw missing (one t u)
        | inr (e, f) ↦ rw f (elim (Bool-cases (is_valid (some pk) form db.employees)) [
          | inl h ↦ rw h (
              count-update_one (cpf_is t) (has_pk pk) (λ r. filled form r.pk)
                (text_eq form.row.cpf t) db.employees (λ r. refl)
                (free_cpf (some pk) form db.employees t h u) key (one t u))
          | inr n ↦ rw n (one t u)
        ])
      ]
