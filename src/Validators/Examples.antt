-- ===== src/Validators/Examples.antt =====
-- Runs of the validators and uses of their theorems at concrete values.
use truck.Base.{
  ℕ, ◌-◌, ◌≤◌, ◌≡◌, ◌↔◌, ◌⊎◌, refl, true, false, ◌&&◌, Option, none, some, codes, leb,
  if◌then◌else◌,
}
use truck.Validators.{
  digits, numbers, check_digit, validate_cpf, validate_cep, Upload, jpeg, matches_image_signature,
  validate_image_file, validate_image_or_pdf_file,
}
use truck.Validators.Cpf.{validate_cpf-eq}
use truck.Validators.Files.{is_pdf, validate_image_or_pdf_file_iff}

-- The digits of ASCII.
abbrev ascii : ℕ → Option ℕ
ascii c = if leb 48 c && leb c 57 then some (c - 48) else none

cpf_test : validate_cpf ascii (codes "529.982.247-25") ≡ true
unfolding validate_cpf digits check_digit
cpf_test = refl

wrong_cpf_test : validate_cpf ascii (codes "529.982.247-26") ≡ false
unfolding validate_cpf digits check_digit
wrong_cpf_test = refl

repeated_cpf_test : validate_cpf ascii (codes "111.111.111-11") ≡ false
unfolding validate_cpf digits check_digit
repeated_cpf_test = refl

cep_test : validate_cep ascii (codes "01310-100") ≡ true
unfolding validate_cep digits
cep_test = refl

validate_cpf-eq_example :
    numbers ascii (digits ascii (codes "529.982.247-25"))
    ≡ numbers ascii (digits ascii (codes "52998224725"))
unfolding validate_cpf digits check_digit
validate_cpf-eq_example =
    validate_cpf-eq ascii (codes "529.982.247-25") (codes "52998224725") refl refl refl refl refl

abbrev scan : Upload
scan = record { size = 4096; content = codes "%PDF-1.7" }

abbrev photo : Upload
photo = record { size = 4096; content = jpeg }

photo_test : validate_image_file (some photo) ≡ true
unfolding validate_image_file matches_image_signature
photo_test = refl

scan_test : validate_image_file (some scan) ≡ false
unfolding validate_image_file matches_image_signature
scan_test = refl

validate_image_or_pdf_file_iff_example :
    (validate_image_or_pdf_file (some scan) ≡ true)
    ↔ ((validate_image_file (some scan) ≡ true) ⊎ ((scan.size ≤ 5242880) × (is_pdf scan ≡ true)))
validate_image_or_pdf_file_iff_example = validate_image_or_pdf_file_iff scan
