-- ===== src/Trucks/Brands.antt =====
-- Brands and models of trucks (`TruckBrand` and `TruckModel` of trucks/models.py, the page that manages
-- them in trucks/views.py). `name_ok` is what the columns' own validators accept.
use truck.Base.{
  ℕ, suc, Bool, false, not, ◌&&◌, Option, none, some, List, ◌∷◌, Text, text_eq, strip, truthy, ◌==◌,
  if◌then◌else◌, select, first, any,
}

pub record TruckBrand : Type 0 where
  pub pk : ℕ
  pub name : Text

pub record TruckModel : Type 0 where
  pub pk : ℕ
  pub brand : ℕ
  pub name : Text

-- What a truck refers to.
pub record Reference : Type 0 where
  pub brand : Option ℕ
  pub truck_model : ℕ

-- The tables; `trucks` is not changed here.
pub record Db : Type 0 where
  pub brands : List TruckBrand
  pub models : List TruckModel
  pub trucks : List Reference
  pub next_brand : ℕ
  pub next_model : ℕ

-- A key of the form: missing, the empty text, no number (`ValueError`, which nothing catches), or a number.
pub data Pk : Type 0 where
  missing empty not_a_number : Pk
  number : ℕ → Pk

pub data Action : Type 0 where
  add_brand : Text → Action
  add_model : Pk → Text → Action
  delete_brand delete_model : Pk → Action
  other : Action

pub data Reply : Type 0 where
  server_error not_found refused done ignored : Reply

abbrev pub brand_is : ℕ → TruckBrand → Bool
brand_is pk b = b.pk == pk

abbrev pub model_is : ℕ → TruckModel → Bool
model_is pk m = m.pk == pk

abbrev pub refers_to_brand : ℕ → Reference → Bool
refers_to_brand pk t = elim t.brand [ none ↦ false | some b ↦ b == pk ]

-- `get_or_create`; `save` validates a new row, and what `full_clean` raises is not caught.
abbrev pub brand_named : (Text → Bool) → Text → Db → Reply × Db
brand_named name_ok name db =
    if any (λ b. text_eq b.name name) db.brands
    then (done, db)
    else if name_ok name
    then (
      done,
      record db {
        brands = record { pk = db.next_brand; name = name } ∷ db.brands;
        next_brand = suc db.next_brand;
      },
    )
    else (server_error, db)

abbrev pub model_named : (Text → Bool) → ℕ → Text → Db → Reply × Db
model_named name_ok brand name db =
    if any (λ m. m.brand == brand && text_eq m.name name) db.models
    then (done, db)
    else if name_ok name
    then (
      done,
      record db {
        models = record { pk = db.next_model; brand = brand; name = name } ∷ db.models;
        next_model = suc db.next_model;
      },
    )
    else (server_error, db)

abbrev pub model_for : (Text → Bool) → Text → Db → Option TruckBrand → Reply × Db
model_for name_ok name db none = (not_found, db)
model_for name_ok name db (some b) = model_named name_ok b.pk name db

-- A brand takes its models with it. A truck that refers to one of them protects it.
abbrev pub refers_to_model_of : ℕ → List TruckModel → Reference → Bool
refers_to_model_of brand models t = any (λ m. m.brand == brand && m.pk == t.truck_model) models

abbrev pub drop_brand : Db → Option TruckBrand → Reply × Db
drop_brand db none = (not_found, db)
drop_brand db (some b) =
    if any (refers_to_brand b.pk) db.trucks
    then (refused, db)
    else if any (refers_to_model_of b.pk db.models) db.trucks
    then (server_error, db)
    else (
      done,
      record db {
        brands = select (λ c. not (brand_is b.pk c)) db.brands;
        models = select (λ m. not (m.brand == b.pk)) db.models;
      },
    )

abbrev pub drop_model : Db → Option TruckModel → Reply × Db
drop_model db none = (not_found, db)
drop_model db (some m) =
    if any (λ t. t.truck_model == m.pk) db.trucks
    then (refused, db)
    else (done, record db { models = select (λ n. not (model_is m.pk n)) db.models })

module _ (name_ok : Text → Bool) where
  abbrev pub add_model_named : Pk → Text → Db → Reply × Db
  add_model_named missing name db = (refused, db)
  add_model_named empty name db = (refused, db)
  add_model_named not_a_number name db = if truthy name then (server_error, db) else (refused, db)
  add_model_named (number pk) name db =
      if truthy name
      then model_for name_ok name db (first (select (brand_is pk) db.brands))
      else (refused, db)

  -- `TruckBrandModelManageView.post`
  unfoldable pub post : Action → Db → Reply × Db
  post (add_brand name) db =
      if truthy (strip name) then brand_named name_ok (strip name) db else (refused, db)
  post (add_model pk name) db = add_model_named pk (strip name) db
  post (delete_brand missing) db = (not_found, db)
  post (delete_brand empty) db = (server_error, db)
  post (delete_brand not_a_number) db = (server_error, db)
  post (delete_brand (number pk)) db = drop_brand db (first (select (brand_is pk) db.brands))
  post (delete_model missing) db = (not_found, db)
  post (delete_model empty) db = (server_error, db)
  post (delete_model not_a_number) db = (server_error, db)
  post (delete_model (number pk)) db = drop_model db (first (select (model_is pk) db.models))
  post other db = (ignored, db)
