-- ===== src/Validators.antt =====
-- The shared validators (employee_truck_control/validators.py). `true` is a return, `false` a
-- `ValidationError`. The decimal value of a character, as the regular expressions and `int` read it, is
-- an argument. Bytes are numbers.
pub mod Cpf
pub mod Files
mod Examples
use truck.Base.{
  ℕ, zero, suc, ◌+◌, ◌*◌, ◌%◌, Bool, true, false, not, ◌&&◌, ◌||◌, Option, none, some, List, [],
  ◌∷◌, map, Text, codes, text_eq, truthy, length, take, drop, get_elem?, ◌==◌, leb, if◌then◌else◌,
}

-- `sum(int(digits[i]) * (position + 1 - i) for i in range(position))`
abbrev pub total : ℕ → List ℕ → ℕ
total zero ds = 0
total (suc n) [] = 0
total (suc n) (d ∷ ds) = d * suc (suc n) + total n ds

unfoldable pub check_digit : ℕ → List ℕ → ℕ
check_digit position ds = (total position ds * 10 % 11) % 10

abbrev pub is_digit : ℕ → Option ℕ → Bool
is_digit c none = false
is_digit c (some d) = c == d

abbrev pub position_ok : ℕ → List ℕ → Bool
position_ok position ds = is_digit (check_digit position ds) (get_elem? ds position)

-- `digits == digits[0] * 11`, for eleven digits.
abbrev pub all_are : ℕ → Text → Bool
all_are c [] = true
all_are c (d ∷ t) = d == c && all_are c t

abbrev pub all_same : Text → Bool
all_same [] = true
all_same (c ∷ t) = all_are c t

module _ (decimal : ℕ → Option ℕ) where
  abbrev pub keep : Option ℕ → ℕ → List (ℕ × ℕ) → List (ℕ × ℕ)
  keep none c ds = ds
  keep (some d) c ds = (c, d) ∷ ds

  -- `re.sub(r'\D', '', value)`: the characters that are digits, with their values.
  unfoldable pub digits : Text → List (ℕ × ℕ)
  digits [] = []
  digits (c ∷ t) = keep (decimal c) c (digits t)

  abbrev pub characters : List (ℕ × ℕ) → Text
  characters ds = map (λ d. d.0) ds

  abbrev pub numbers : List (ℕ × ℕ) → List ℕ
  numbers ds = map (λ d. d.1) ds

  abbrev pub cpf_digits_ok : List (ℕ × ℕ) → Bool
  cpf_digits_ok ds =
      length (numbers ds) == 11
      && not (all_same (characters ds))
      && position_ok 9 (numbers ds)
      && position_ok 10 (numbers ds)

  unfoldable pub validate_cpf : Text → Bool
  validate_cpf value = if truthy value then cpf_digits_ok (digits value) else true

  unfoldable pub validate_cep : Text → Bool
  validate_cep value = if truthy value then length (digits value) == 8 else true

abbrev pub max_image_bytes : ℕ
max_image_bytes = 5 * 1024 * 1024

pub record Upload : Type 0 where
  pub size : ℕ
  pub content : List ℕ

-- `header[:len(signature)] == signature`
abbrev pub starts_with : List ℕ → List ℕ → Bool
starts_with signature header = text_eq (take (length signature) header) signature

abbrev pub jpeg : List ℕ
jpeg = 0xff ∷ 0xd8 ∷ 0xff ∷ []

abbrev pub png : List ℕ
png = 0x89 ∷ 0x50 ∷ 0x4e ∷ 0x47 ∷ 0x0d ∷ 0x0a ∷ 0x1a ∷ 0x0a ∷ []

unfoldable pub matches_image_signature : List ℕ → Bool
matches_image_signature header =
    starts_with jpeg header
    || starts_with png header
    || starts_with (codes "GIF87a") header
    || starts_with (codes "GIF89a") header
    || (starts_with (codes "RIFF") header && text_eq (take 4 (drop 8 header)) (codes "WEBP"))

unfoldable pub validate_image_file : Option Upload → Bool
validate_image_file none = true
validate_image_file (some f) =
    if leb f.size max_image_bytes then matches_image_signature (take 12 f.content) else false

unfoldable pub validate_image_or_pdf_file : Option Upload → Bool
validate_image_or_pdf_file none = true
validate_image_or_pdf_file (some f) =
    if leb f.size max_image_bytes
    then if starts_with (codes "%PDF-") (take 12 f.content)
      then true
      else matches_image_signature (take 12 f.content)
    else false
