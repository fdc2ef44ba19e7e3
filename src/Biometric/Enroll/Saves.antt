-- ===== src/Biometric/Enroll/Saves.antt =====
-- A kiosk's enrolment keeps the enrolment tables valid (biometric/api_views.py).
use truck.Base.{
  ℕ, ◌≤◌, ◌≡◌, refl, sym, ◌∙◌, Bool, true, false, Option, none, some, inl, inr, List, ◌∷◌, arith,
  ◌==◌, ==_iff, Bool-cases, Option-cases, select, first, update, count, All-update, count-update_le,
  count-first, first-select, ℤ, is_key,
}
use mathlib.Core.Path.{subst}
use mathlib.Core.Bool.{false≢true}
use truck.Employees.Model.{Employee}
use truck.Biometric.Enroll.{
  BiometricTemplate, Db, template_of, clean, RequestId, request_for, close_enroll_request, Payload,
  malformed, overflow, enrolling, endless, template_row, enroll_endless, save_template,
  save_and_close, enroll_employee, enroll,
}
use truck.Biometric.Enroll.Valid.{IsValid, templates-IsValid, close-IsValid}

-- A template row of an employee, saved in place of the one that was there or as the first.
pub save_template-IsValid :
    (employee : ℕ) (t : BiometricTemplate) (created : Bool) (db : Db)
    → t.employee ≡ employee
    → clean t ≡ true
    → (created ≡ true → count (template_of employee) db.templates ≡ 0)
    → IsValid db
    → IsValid (record db { templates = save_template (t, created) db.templates })
save_template-IsValid employee t true db here ok z v =
    templates-IsValid (t ∷ db.templates) db
      (λ e. elim (Bool-cases (t.employee == e)) [
        | inl h ↦
            let q : employee ≡ e = sym here ∙ (==_iff t.employee e).0 h in
            let z' : count (template_of e) db.templates ≡ 0 = rw (sym q) (z refl) in
            rw h (omega (arith, z'))
        | inr n ↦ rw n (v.one_template e)
      ])
      (ok, v.clean_templates) v
save_template-IsValid employee t false db here ok z v =
    let ts = update (template_of t.employee) (λ u. t) db.templates in
    templates-IsValid ts db
      (λ e.
        let le : count (template_of e) ts ≤ count (template_of e) db.templates =
          count-update_le (template_of e) (template_of t.employee) (λ u. t)
            (λ u old new. ground (arith, (==_iff u.employee t.employee).0 old)) db.templates in
        omega (arith, le, v.one_template e))
      (All-update (λ u. clean u ≡ true) (template_of t.employee) (λ u. t) (λ u h. ok) db.templates
        v.clean_templates)
      v

save_and_close-IsValid :
    (employee : ℕ) (i : RequestId) (device now : ℕ) (t : BiometricTemplate) (created : Bool)
    (db : Db)
    → t.employee ≡ employee
    → (created ≡ true → count (template_of employee) db.templates ≡ 0)
    → IsValid db
    → IsValid (save_and_close employee i device now (t, created) db).1
unfolding close_enroll_request
save_and_close-IsValid employee i device now t created db here z v = elim (Bool-cases (clean t)) [
  | inl k ↦
      let db' : Db = record db { templates = save_template (t, created) db.templates } in
      rw k (
        close-IsValid device now (request_for employee i db.requests) db'
          (save_template-IsValid employee t created db here k z v))
  | inr n ↦ rw n v
]

-- The employee of the row that is found for an employee.
pub found_employee :
    (employee : ℕ) (db : Db) (u : BiometricTemplate)
    → first (select (template_of employee) db.templates) ≡ some u
    → u.employee ≡ employee
found_employee employee db u f =
    (==_iff u.employee employee).0 (first-select (template_of employee) db.templates u f)

enroll_employee-IsValid :
    (bytes : List ℕ) (finger : ℤ) (i : RequestId) (device now : ℕ) (o : Option Employee) (db : Db)
    → IsValid db
    → IsValid (enroll_employee bytes finger i device now o db).1
enroll_employee-IsValid bytes finger i device now none db v = v
enroll_employee-IsValid bytes finger i device now (some e) db v =
    elim (Option-cases (first (select (template_of e.pk) db.templates))) [
      | inl n ↦
          let t : BiometricTemplate = record {
            employee = e.pk;
            template = bytes;
            finger_index = finger;
          } in
          rw n (
            save_and_close-IsValid e.pk i device now t true db refl
              (λ c. count-first (template_of e.pk) db.templates n) v)
      | inr (u, f) ↦
          let t : BiometricTemplate = record u { template = bytes; finger_index = finger } in
          rw f (
            save_and_close-IsValid e.pk i device now t false db (found_employee e.pk db u f)
              (λ c. absurd (false≢true c)) v)
    ]

pub endless_kept :
    (bytes : List ℕ) (finger : ℤ) (o : Option Employee) (db : Db)
    → (enroll_endless bytes finger o db).1 ≡ db
endless_kept bytes finger none db = refl
endless_kept bytes finger (some e) db =
    elim (Bool-cases
      (clean (template_row e.pk bytes finger (first (select (template_of e.pk) db.templates))).0)) [
        | inl c ↦ rw c refl
        | inr n ↦ rw n refl
      ]

pub enroll-IsValid :
    (p : Payload) (device now : ℕ) (db : Db) → IsValid db → IsValid (enroll p device now db).1
unfolding enroll
enroll-IsValid malformed device now db v = v
enroll-IsValid overflow device now db v = v
enroll-IsValid (enrolling id bytes finger i) device now db v =
    enroll_employee-IsValid bytes finger i device now
      (first (select (λ e. is_key id e.pk) db.employees)) db v
enroll-IsValid (endless id bytes finger) device now db v =
    subst IsValid
      (sym (endless_kept bytes finger (first (select (λ e. is_key id e.pk) db.employees)) db)) v
