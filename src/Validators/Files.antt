-- ===== src/Validators/Files.antt =====
-- The signatures of uploaded files (employee_truck_control/validators.py).
use truck.Base.{
  ◌≤◌, ◌≡◌, ◌↔◌, ◌⊎◌, refl, sym, ◌∙◌, Bool, true, some, inl, inr, codes, take, leb, leb→le, le→leb,
  Bool-cases,
}
use mathlib.Core.Bool.{false≢true}
use truck.Validators.{
  Upload, max_image_bytes, starts_with, validate_image_file, validate_image_or_pdf_file,
}

abbrev pub is_pdf : Upload → Bool
is_pdf f = starts_with (codes "%PDF-") (take 12 f.content)

-- A document is accepted exactly if it is accepted as an image, or if it starts like a PDF and is not
-- larger than five megabytes.
pub validate_image_or_pdf_file_iff :
    (f : Upload)
    → (validate_image_or_pdf_file (some f) ≡ true)
      ↔ ((validate_image_file (some f) ≡ true) ⊎ ((f.size ≤ 5242880) × (is_pdf f ≡ true)))
unfolding validate_image_or_pdf_file validate_image_file
validate_image_or_pdf_file_iff f = elim (Bool-cases (leb f.size max_image_bytes)) [
  | inr n ↦ rw n (
    λ h. absurd (false≢true h),
    λ h. elim h [
      | inl k ↦ k
      | inr (le, k) ↦ absurd (false≢true (sym n ∙ le→leb f.size max_image_bytes le))
    ],
  )
  | inl s ↦ rw s (elim (Bool-cases (is_pdf f)) [
    | inl p ↦ rw p (λ h. inr (leb→le f.size max_image_bytes s, refl), λ h. refl)
    | inr n ↦ rw n (λ h. inl h, λ h. elim h [ inl k ↦ k | inr (le, k) ↦ absurd (false≢true k) ])
  ])
]
