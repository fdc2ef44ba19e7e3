-- ===== src/Visitors.antt =====
-- Visitors and their visits (visitors/models.py, visitors/forms.py, visitors/views.py). A time of day is a
-- number of seconds, a date a number of days, an instant a reading of the clock. Texts of a form are as the
-- framework's fields hand them on. The database's case folding, the decimal value of a character, the
-- library's check of an image and the local time of day are parameters.
pub mod Accepted
pub mod Valid
pub mod Visits
pub mod History
mod Examples
use truck.Base.{
  ℕ, suc, Bool, true, false, not, ◌&&◌, ◌||◌, Option, none, some, List, [], ◌∷◌, Text, text_eq,
  strip, truthy, ◌==◌, if◌then◌else◌, select, first, any, update, leb,
}
use truck.Validators.{validate_cpf, Upload, validate_image_file, validate_image_or_pdf_file}

pub record Visitor : Type 0 where
  pub pk : ℕ
  pub name : Text
  pub phone : Text
  pub company : Text
  pub rg : Text
  pub cpf : Text
  pub is_foreigner : Bool
  pub foreign_document_number : Text
  pub foreign_document_type : Text

-- The cleaned data of `VisitorForm`; a file is given if it was uploaded with this form.
pub record VisitorForm : Type 0 where
  pub name : Text
  pub phone : Text
  pub company : Text
  pub rg : Text
  pub cpf : Text
  pub is_foreigner : Bool
  pub foreign_document_number : Text
  pub foreign_document_type : Text
  pub photo : Option Upload
  pub document_photo : Option Upload

-- The table, newest row first, and the next key.
pub record Db : Type 0 where
  pub visitors : List Visitor
  pub next_visitor : ℕ

pub data Reply : Type 0 where
  not_found invalid_form saved : Reply

abbrev pub has_pk : ℕ → Visitor → Bool
has_pk pk v = v.pk == pk

-- `exclude(pk=self.instance.pk)`, for the row that is edited, if one is.
abbrev pub is_other : Option ℕ → Visitor → Bool
is_other none v = true
is_other (some pk) v = not (has_pk pk v)

abbrev pub phone_is : Text → Visitor → Bool
phone_is phone v = text_eq v.phone phone

abbrev pub cpf_is : Text → Visitor → Bool
cpf_is cpf v = text_eq v.cpf cpf

-- The row that the form makes. `clean_name` and `clean_phone` strip their texts.
abbrev pub filled : VisitorForm → ℕ → Visitor
filled form pk = record {
  pk = pk;
  name = strip form.name;
  phone = strip form.phone;
  company = form.company;
  rg = form.rg;
  cpf = form.cpf;
  is_foreigner = form.is_foreigner;
  foreign_document_number = form.foreign_document_number;
  foreign_document_type = form.foreign_document_type;
}

-- The documents that `VisitorForm.clean` asks for.
abbrev pub documented : Visitor → Bool
documented v =
    if v.is_foreigner
    then truthy v.foreign_document_number && truthy v.foreign_document_type
    else truthy v.rg && truthy v.cpf

-- The requests to the two pages.
pub data Request : Type 0 where
  new_visitor : VisitorForm → Request
  edit_visitor : ℕ → VisitorForm → Request

-- `name__iexact`
abbrev pub name_is : (Text → Text) → Text → Visitor → Bool
name_is fold name v = text_eq (fold v.name) (fold name)

module _ (fold : Text → Text) (decimal : ℕ → Option ℕ) (is_image : Upload → Bool) where
  abbrev pub name_free : Option ℕ → Visitor → List Visitor → Bool
  name_free edited v rows = not (any (λ r. is_other edited r && name_is fold v.name r) rows)

  abbrev pub phone_free : Option ℕ → Visitor → List Visitor → Bool
  phone_free edited v rows =
      if truthy v.phone then not (any (λ r. is_other edited r && phone_is v.phone r) rows) else true

  -- `clean_photo`, behind the check of the field, and `clean_document_photo`.
  abbrev pub photo_ok : Option Upload → Bool
  photo_ok none = true
  photo_ok (some u) = is_image u && validate_image_file (some u)

  abbrev pub document_ok : Option Upload → Bool
  document_ok none = true
  document_ok (some u) = validate_image_or_pdf_file (some u)

  -- `Visitor.clean`
  unfoldable pub clean : Option ℕ → Visitor → List Visitor → Bool
  clean edited v rows =
      truthy (strip v.name)
      && (if truthy v.cpf
          then validate_cpf decimal v.cpf
            && not (any (λ r. is_other edited r && cpf_is v.cpf r) rows)
          else true)

  -- `form.is_valid()`: every check passes.
  unfoldable pub is_valid : Option ℕ → VisitorForm → List Visitor → Bool
  is_valid edited form rows =
      let v = filled form 0 in
      photo_ok form.photo
      && document_ok form.document_photo
      && name_free edited v rows
      && phone_free edited v rows
      && documented v
      && clean edited v rows

  -- `VisitorCreateView.post`
  unfoldable pub create : VisitorForm → Db → Reply × Db
  create form db =
      if is_valid none form db.visitors
      then (
        saved,
        record {
          visitors = filled form db.next_visitor ∷ db.visitors;
          next_visitor = suc db.next_visitor;
        },
      )
      else (invalid_form, db)

  -- `VisitorUpdateView.post`
  abbrev pub edit_found : ℕ → VisitorForm → Db → Option Visitor → Reply × Db
  edit_found pk form db none = (not_found, db)
  edit_found pk form db (some v) =
      if is_valid (some pk) form db.visitors
      then (saved, record db { visitors = update (has_pk pk) (λ r. filled form r.pk) db.visitors })
      else (invalid_form, db)

  unfoldable pub edit : ℕ → VisitorForm → Db → Reply × Db
  edit pk form db = edit_found pk form db (first (select (has_pk pk) db.visitors))

  abbrev pub save : Request → Db → Db
  save (new_visitor form) db = (create form db).1
  save (edit_visitor pk form) db = (edit pk form db).1

  abbrev pub save_all : List Request → Db → Db
  save_all [] db = db
  save_all (r ∷ rs) db = save_all rs (save r db)
