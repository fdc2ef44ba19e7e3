-- ===== src/Trucks/Model.antt =====
-- The truck row, its validation and its saving (`Truck` in trucks/models.py). `upper` is the text
-- method, and the current year is an argument.
use truck.Base.{
  ℕ, suc, zero, Bool, true, false, not, ◌&&◌, ◌||◌, Option, none, some, List, [], ◌∷◌, Text, truthy,
  ◌==◌, leb, if◌then◌else◌,
}

pub record TruckModel : Type 0 where
  pub pk : ℕ
  pub brand : ℕ
  pub label : Text

pub record Truck : Type 0 where
  pub pk : ℕ
  pub license_plate : Text
  pub brand : Option ℕ
  pub truck_model : TruckModel
  pub model : Text
  pub color : Text
  pub chassis : Text
  pub year : Option ℕ
  pub is_active : Bool
  pub photo : Option Text
  pub notes : Text

-- `[A-Z]`, `[0-9]` and `[A-Z0-9]`.
pub data Class : Type 0 where
  letter digit either : Class

abbrev pub is_in : Class → ℕ → Bool
is_in letter c = leb 65 c && leb c 90
is_in digit c = leb 48 c && leb c 57
is_in either c = (leb 65 c && leb c 90) || (leb 48 c && leb c 57)

-- A match of `^...$`: `$` also accepts one newline behind the last character.
abbrev pub at_end : Text → Bool
at_end [] = true
at_end (c ∷ []) = c == 10
at_end (c ∷ d ∷ t) = false

unfoldable pub matches : List Class → Text → Bool
matches [] t = at_end t
matches (k ∷ ks) [] = false
matches (k ∷ ks) (c ∷ t) = is_in k c && matches ks t

abbrev pub mercosul_re : List Class
mercosul_re = letter ∷ letter ∷ letter ∷ digit ∷ letter ∷ digit ∷ digit ∷ []

abbrev pub old_plate_re : List Class
old_plate_re = letter ∷ letter ∷ letter ∷ digit ∷ digit ∷ digit ∷ digit ∷ []

abbrev pub repeat : ℕ → List Class
repeat zero = []
repeat (suc n) = either ∷ repeat n

abbrev pub chassis_re : List Class
chassis_re = repeat 17

-- The field that a `ValidationError` of `clean` blames.
pub data Field : Type 0 where
  license_plate_field truck_model_field chassis_field year_field : Field

module _ (upper : Text → Text) (current_year : ℕ) where
  unfoldable pub plate_ok : Text → Bool
  plate_ok plate =
      not (truthy plate)
      || (matches mercosul_re (upper plate) || matches old_plate_re (upper plate))

  abbrev pub brand_ok : TruckModel → Option ℕ → Bool
  brand_ok m none = true
  brand_ok m (some b) = m.brand == b

  unfoldable pub chassis_ok : Text → Bool
  chassis_ok chassis = not (truthy chassis) || matches chassis_re (upper chassis)

  abbrev pub year_ok : Option ℕ → Bool
  year_ok none = true
  year_ok (some y) = leb 1900 y && leb y current_year

  -- `Truck.clean`
  unfoldable pub clean : Truck → Option Field
  clean t =
      if not (plate_ok t.license_plate)
      then some license_plate_field
      else if not (brand_ok t.truck_model t.brand)
      then some truck_model_field
      else if not (chassis_ok t.chassis)
      then some chassis_field
      else if not (year_ok t.year)
      then some year_field
      else none

  -- What `Truck.save` sets before it validates. `upper` of the empty text is empty.
  unfoldable pub prepared : Truck → Truck
  prepared t = record t {
    license_plate = if truthy t.license_plate then upper t.license_plate else t.license_plate;
    chassis = if truthy t.chassis then upper t.chassis else t.chassis;
    brand = some t.truck_model.brand;
    model = t.truck_model.label;
  }
