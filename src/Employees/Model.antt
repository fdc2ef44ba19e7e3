-- ===== src/Employees/Model.antt =====
-- The employee row (employees/models.py). Texts are lists of code points, a date is a number of
-- days, and an uploaded file is its stored name.
use truck.Base.{ℕ, Bool, Option, Text}

pub record Employee : Type 0 where
  pub pk : ℕ
  pub name : Text
  pub role : Text
  pub department : Text
  pub phone : Text
  pub rg : Text
  pub cpf : Text
  pub is_foreigner : Bool
  pub foreign_document_number : Text
  pub foreign_document_type : Text
  pub address : Text
  pub cep : Text
  pub hire_date : ℕ
  pub is_driver : Bool
  pub is_active : Bool
  pub photo : Option Text
  pub document_photo : Option Text
