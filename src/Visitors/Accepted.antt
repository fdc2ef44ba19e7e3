-- ===== src/Visitors/Accepted.antt =====
-- What holds of the visitors at all times, and what a form that is accepted says (visitors/models.py, visitors/forms.py).
use truck.Base.{
  not-true, ℕ, ◌≤◌, ◌<◌, ◌≡◌, refl, sym, ap, ◌∙◌, Bool, true, false, not, ◌&&◌, Option, List, [],
  ◌∷◌, arith, and_true, Text, text_eq, text_eq-eq, strip, truthy, any, count, count-any, count-ap,
  All,
}
use truck.Validators.{validate_cpf, Upload}
use truck.Visitors.{
  Visitor, VisitorForm, Db, has_pk, is_other, phone_is, cpf_is, filled, documented, name_is,
  name_free, phone_free, photo_ok, document_ok, clean, is_valid,
}

abbrev pub HasCpf : (ℕ → Option ℕ) → Visitor → Type 0
HasCpf decimal v = truthy v.cpf ≡ true → validate_cpf decimal v.cpf ≡ true

-- A foreigner has the number and the type of their document, anyone else an RG and a CPF.
abbrev pub IsDocumented : Visitor → Type 0
IsDocumented v =
    (v.is_foreigner ≡ true
      → (truthy v.foreign_document_number ≡ true) × (truthy v.foreign_document_type ≡ true))
    × (v.is_foreigner ≡ false → (truthy v.rg ≡ true) × (truthy v.cpf ≡ true))

documented-IsDocumented : (v : Visitor) → documented v ≡ true → IsDocumented v
documented-IsDocumented v h = (
  λ t.
      let q : truthy v.foreign_document_number && truthy v.foreign_document_type ≡ true =
        rw t at h in
      and_true (truthy v.foreign_document_number) (truthy v.foreign_document_type) q,
  λ n.
      let q : truthy v.rg && truthy v.cpf ≡ true = rw n at h in
      and_true (truthy v.rg) (truthy v.cpf) q,
)

-- No two visitors have one key, one name, or one phone number or CPF, where they have any; every visitor
-- has a name and the documents that are asked for, and a CPF is one.
pub record IsValid (fold : Text → Text) (decimal : ℕ → Option ℕ) (db : Db) : Type 0 where
  pub one_key : (k : ℕ) → count (has_pk k) db.visitors ≤ 1
  pub one_name : (t : Text) → count (name_is fold t) db.visitors ≤ 1
  pub one_phone : (t : Text) → truthy t ≡ true → count (phone_is t) db.visitors ≤ 1
  pub one_cpf : (t : Text) → truthy t ≡ true → count (cpf_is t) db.visitors ≤ 1
  pub keys_below : All (λ v. v.pk < db.next_visitor) db.visitors
  pub all_named : All (λ v. truthy (strip v.name) ≡ true) db.visitors
  pub all_documented : All IsDocumented db.visitors
  pub all_cpf : All (HasCpf decimal) db.visitors

pub visitors_below : (n : ℕ) (vs : List Visitor) → All (λ v. v.pk < n) vs → count (has_pk n) vs ≡ 0
visitors_below n [] h = refl
visitors_below n (v ∷ vs) (a, h) = ground (arith, visitors_below n vs h)

module _ (fold : Text → Text) (decimal : ℕ → Option ℕ) (is_image : Upload → Bool) where
  -- What a form that is accepted gives, for the row that it makes.
  pub record Accepted (edited : Option ℕ) (v : Visitor) (rows : List Visitor) : Type 0 where
    pub named : truthy (strip v.name) ≡ true
    pub name : count (λ r. is_other edited r && name_is fold v.name r) rows ≡ 0
    pub phone :
        truthy v.phone ≡ true → count (λ r. is_other edited r && phone_is v.phone r) rows ≡ 0
    pub cpf : truthy v.cpf ≡ true → count (λ r. is_other edited r && cpf_is v.cpf r) rows ≡ 0
    pub has_cpf : HasCpf decimal v
    pub documents : IsDocumented v

  pub is_valid-Accepted :
      (edited : Option ℕ) (form : VisitorForm) (pk : ℕ) (rows : List Visitor)
      → is_valid fold decimal is_image edited form rows ≡ true
      → Accepted edited (filled form pk) rows
  unfolding is_valid clean
  is_valid-Accepted edited form pk rows h =
      let v = filled form pk in
      let photos =
        photo_ok fold decimal is_image form.photo
        && document_ok fold decimal is_image form.document_photo in
      let names = name_free fold decimal is_image edited v rows in
      let phones = phone_free fold decimal is_image edited v rows in
      let (h4, cl) =
        and_true (photos && names && phones && documented v)
          (clean fold decimal is_image edited v rows) h in
      let (h3, d) = and_true (photos && names && phones) (documented v) h4 in
      let (h2, ph) = and_true (photos && names) phones h3 in
      let (h1, na) = and_true photos names h2 in
      let (named, cp) = and_true (truthy (strip v.name)) _ cl in
      record {
        named = named;
        name = count-any (λ r. is_other edited r && name_is fold v.name r) rows (not-true _ na);
        phone = λ t.
            let q : not (any (λ r. is_other edited r && phone_is v.phone r) rows) ≡ true =
              rw t at ph in
            count-any (λ r. is_other edited r && phone_is v.phone r) rows (not-true _ q);
        cpf = λ t.
            let q : validate_cpf decimal v.cpf
                  && not (any (λ r. is_other edited r && cpf_is v.cpf r) rows)
                ≡ true =
              rw t at cp in
            count-any (λ r. is_other edited r && cpf_is v.cpf r) rows
              (not-true _ (and_true _ _ q).1);
        has_cpf = λ t.
            let q : validate_cpf decimal v.cpf
                  && not (any (λ r. is_other edited r && cpf_is v.cpf r) rows)
                ≡ true =
              rw t at cp in
            (and_true _ _ q).0;
        documents = documented-IsDocumented v d;
      }

  -- Nobody else has the name, the phone number or the CPF.
  pub free_name :
      (edited : Option ℕ) (v : Visitor) (rows : List Visitor) (t : Text)
      → Accepted edited v rows
      → name_is fold t v ≡ true
      → count (λ r. is_other edited r && name_is fold t r) rows ≡ 0
  free_name edited v rows t a h =
      count-ap (λ r. is_other edited r && name_is fold t r)
        (λ r. is_other edited r && name_is fold v.name r)
        (λ r.
          ap (λ x. is_other edited r && text_eq (fold r.name) x)
            (sym (text_eq-eq (fold v.name) (fold t) h)))
        rows
      ∙ a.name

  pub free_phone :
      (edited : Option ℕ) (v : Visitor) (rows : List Visitor) (t : Text)
      → Accepted edited v rows
      → truthy t ≡ true
      → phone_is t v ≡ true
      → count (λ r. is_other edited r && phone_is t r) rows ≡ 0
  free_phone edited v rows t a u h =
      let q : t ≡ v.phone = sym (text_eq-eq v.phone t h) in
      ap (λ s. count (λ r. is_other edited r && phone_is s r) rows) q
      ∙ a.phone (ap truthy (sym q) ∙ u)

  pub free_cpf :
      (edited : Option ℕ) (v : Visitor) (rows : List Visitor) (t : Text)
      → Accepted edited v rows
      → truthy t ≡ true
      → cpf_is t v ≡ true
      → count (λ r. is_other edited r && cpf_is t r) rows ≡ 0
  free_cpf edited v rows t a u h =
      let q : t ≡ v.cpf = sym (text_eq-eq v.cpf t h) in
      ap (λ s. count (λ r. is_other edited r && cpf_is s r) rows) q ∙ a.cpf (ap truthy (sym q) ∙ u)
