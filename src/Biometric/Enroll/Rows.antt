-- ===== src/Biometric/Enroll/Rows.antt =====
-- The rows of one employee in the table of templates (biometric/models.py).
use truck.Base.{
  ℕ, suc, ◌≤◌, ◌≡◌, ◌≢◌, refl, sym, ap, true, false, some, inl, inr, List, [], ◌∷◌, arith, ◌==◌,
  ==_iff, if◌then◌else◌, Bool-cases, select, first, update, count,
}
use mathlib.Core.Option.{some-ne-none}
use truck.Biometric.Enroll.{BiometricTemplate, template_of, save_template, values}

select_none :
    (e : ℕ) (ts : List BiometricTemplate)
    → count (template_of e) ts ≡ 0
    → select (template_of e) ts ≡ []
select_none e [] h = refl
select_none e (t ∷ ts) h = elim (Bool-cases (t.employee == e)) [
  | inl p ↦ let q : suc (count (template_of e) ts) ≡ 0 = rw p at h in absurd (omega (arith, q))
  | inr n ↦ let q : count (template_of e) ts ≡ 0 = rw n at h in rw n (select_none e ts q)
]

==_false : (a b : ℕ) → a ≢ b → (a == b) ≡ false
==_false a b n = elim (Bool-cases (a == b)) [ inl t ↦ absurd (n ((==_iff a b).0 t)) | inr f ↦ f ]

select-update_ne :
    (t : BiometricTemplate) (e : ℕ) (ts : List BiometricTemplate)
    → e ≢ t.employee
    → select (template_of e) (update (template_of t.employee) (λ u. t) ts)
      ≡ select (template_of e) ts
select-update_ne t e [] n = refl
select-update_ne t e (u ∷ us) n = elim (Bool-cases (u.employee == t.employee)) [
  | inl h ↦
      let q : u.employee ≡ t.employee = (==_iff u.employee t.employee).0 h in
      let f : (t.employee == e) ≡ false = ==_false t.employee e (λ p. n (sym p)) in
      let g : (u.employee == e) ≡ false = rw q f in rw h (rw f (rw g (select-update_ne t e us n)))
  | inr h ↦ rw h (ap (λ l. if u.employee == e then u ∷ l else l) (select-update_ne t e us n))
]

update_none :
    (t : BiometricTemplate) (e : ℕ) (ts : List BiometricTemplate)
    → count (template_of e) ts ≡ 0
    → update (template_of e) (λ u. t) ts ≡ ts
update_none t e [] c = refl
update_none t e (u ∷ us) c = elim (Bool-cases (u.employee == e)) [
  | inl h ↦ let q : suc (count (template_of e) us) ≡ 0 = rw h at c in absurd (omega (arith, q))
  | inr h ↦
      let q : count (template_of e) us ≡ 0 = rw h at c in
      rw h (ap (λ l. u ∷ l) (update_none t e us q))
]

==_self : (n : ℕ) → (n == n) ≡ true
==_self n = (==_iff n n).1 refl

select-update_self :
    (t : BiometricTemplate) (ts : List BiometricTemplate)
    → count (template_of t.employee) ts ≡ 1
    → select (template_of t.employee) (update (template_of t.employee) (λ u. t) ts) ≡ t ∷ []
select-update_self t [] c = absurd (omega (arith, c))
select-update_self t (u ∷ us) c = elim (Bool-cases (u.employee == t.employee)) [
  | inl h ↦
      let q : suc (count (template_of t.employee) us) ≡ 1 = rw h at c in
      let z : count (template_of t.employee) us ≡ 0 = omega (arith, q) in
      rw h (
        rw (==_self t.employee)
          (ap (λ l. t ∷ l) (rw (update_none t t.employee us z) (select_none t.employee us z))))
  | inr h ↦
      let c' : count (template_of t.employee) us ≡ 1 = rw h at c in
      rw h (rw h (select-update_self t us c'))
]

-- Saving a template leaves one for its employee, and the others as they were.
abbrev pub Saved : ℕ → List ℕ → List BiometricTemplate → List BiometricTemplate → Type 0
Saved employee bytes ts ts' =
    (values (select (template_of employee) ts') ≡ (employee, bytes) ∷ [])
    × ((e : ℕ) → e ≢ employee → select (template_of e) ts' ≡ select (template_of e) ts)

pub save_new-Saved :
    (t : BiometricTemplate) (ts : List BiometricTemplate)
    → count (template_of t.employee) ts ≡ 0
    → Saved t.employee t.template ts (save_template (t, true) ts)
save_new-Saved t ts z = (
  rw (==_self t.employee) (rw (select_none t.employee ts z) refl),
  λ e n. rw (==_false t.employee e (λ p. n (sym p))) refl,
)

pub save_old-Saved :
    (t : BiometricTemplate) (ts : List BiometricTemplate)
    → count (template_of t.employee) ts ≡ 1
    → Saved t.employee t.template ts (save_template (t, false) ts)
save_old-Saved t ts o = (rw (select-update_self t ts o) refl, λ e n. select-update_ne t e ts n)

-- A row that is found is counted.
pub count_found :
    (e : ℕ) (ts : List BiometricTemplate) (u : BiometricTemplate)
    → first (select (template_of e) ts) ≡ some u
    → 1 ≤ count (template_of e) ts
count_found e [] u h = absurd (some-ne-none u (sym h))
count_found e (t ∷ ts) u h = elim (Bool-cases (t.employee == e)) [
  | inl k ↦ rw k (omega arith)
  | inr n ↦
      let q : first (select (template_of e) ts) ≡ some u = rw n at h in rw n (count_found e ts u q)
]
