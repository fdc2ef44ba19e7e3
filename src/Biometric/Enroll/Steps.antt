-- ===== src/Biometric/Enroll/Steps.antt =====
-- The enrolment tables under every sequence of operations (biometric/api_views.py,
-- employees/views.py).
use truck.Base.{
  ℕ, ◌≡◌, refl, Bool, true, false, Option, inl, inr, List, length, ◌==◌, leb, Bool-cases,
  Option-cases, select, first, count, count-first, pos,
}
use mathlib.Core.Bool.{false≢true}
use truck.Employees.Model.{Employee}
use truck.Biometric.Enroll.{
  BiometricTemplate, Db, template_of, employee_of, clean, Payload, enroll, delete_biometric,
}
use truck.Biometric.Enroll.Page.{
  Reader, not_found, not_connected, timeout, error, captured, captured_row, store_template,
  take_capture, post,
}
use truck.Biometric.Enroll.Valid.{
  IsValid, get_or_create_pending-IsValid, cancel_pending-IsValid, delete_biometric-IsValid,
}
use truck.Biometric.Enroll.Saves.{save_template-IsValid, found_employee, enroll-IsValid}

store_template-IsValid :
    (employee : ℕ) (t : BiometricTemplate) (created : Bool) (db : Db)
    → t.employee ≡ employee
    → (created ≡ true → count (template_of employee) db.templates ≡ 0)
    → IsValid db
    → IsValid (store_template (t, created) db).1
store_template-IsValid employee t created db here z v = elim (Bool-cases (clean t)) [
  | inl k ↦ rw k (save_template-IsValid employee t created db here k z v)
  | inr n ↦ rw n v
]

captured-IsValid :
    (employee : ℕ) (bytes : List ℕ) (db : Db)
    → IsValid db
    → IsValid
        (store_template
          (captured_row employee bytes (first (select (template_of employee) db.templates)))
          db).1
captured-IsValid employee bytes db v =
    elim (Option-cases (first (select (template_of employee) db.templates))) [
      | inl n ↦
          let t : BiometricTemplate = record {
            employee = employee;
            template = bytes;
            finger_index = pos 0;
          } in
          rw n (
            store_template-IsValid employee t true db refl
              (λ c. count-first (template_of employee) db.templates n) v)
      | inr (u, f) ↦
          let t : BiometricTemplate = record u { template = bytes } in
          rw f (
            store_template-IsValid employee t false db (found_employee employee db u f)
              (λ c. absurd (false≢true c)) v)
    ]

take_capture-IsValid :
    (employee : ℕ) (user : Option ℕ) (now : ℕ) (reader : Reader) (db : Db)
    → IsValid db
    → IsValid (take_capture employee user now reader db).1
take_capture-IsValid employee user now not_found db v =
    get_or_create_pending-IsValid employee user now db v
take_capture-IsValid employee user now not_connected db v = v
take_capture-IsValid employee user now timeout db v = v
take_capture-IsValid employee user now error db v = v
take_capture-IsValid employee user now (captured bytes) db v =
    elim (Bool-cases (length bytes == 0)) [
      | inl z ↦ rw z v
      | inr n ↦ rw n (elim (Bool-cases (leb (length bytes) 10240)) [
        | inl s ↦ rw s (captured-IsValid employee bytes db v)
        | inr l ↦ rw l v
      ])
    ]

pub post-IsValid :
    (pk : ℕ) (cancel : Bool) (user : Option ℕ) (now : ℕ) (reader : Reader) (db : Db)
    → IsValid db
    → IsValid (post pk cancel user now reader db).1
unfolding post
post-IsValid pk cancel user now reader db v = elim (Option-cases (employee_of pk db)) [
  | inl n ↦ rw n v
  | inr (e, f) ↦ rw f (elim (Bool-cases cancel) [
    | inl c ↦ rw c (cancel_pending-IsValid e.pk now db v)
    | inr c ↦ rw c (elim (Option-cases (first (select (template_of e.pk) db.templates))) [
      | inl n ↦ rw n (take_capture-IsValid e.pk user now reader db v)
      | inr (t, g) ↦ rw g v
    ])
  ])
]

employees-IsValid :
    (es : List Employee) (db : Db) → IsValid db → IsValid (record db { employees = es })
employees-IsValid es db v = record {
  one_template = v.one_template;
  one_pending = v.one_pending;
  clean_templates = v.clean_templates;
  keys_below = v.keys_below;
  one_key = v.one_key;
}

-- What may happen to the tables: a post of a kiosk, a post of the enrolment page, a deletion of a
-- fingerprint, and any change of the staff.
pub data Step : Db → Db → Type 0 where
  kiosk : {db : Db} (p : Payload) (device now : ℕ) → Step db (enroll p device now db).1
  page :
      {db : Db} (pk : ℕ) (cancel : Bool) (user : Option ℕ) (now : ℕ) (reader : Reader)
      → Step db (post pk cancel user now reader db).1
  deletion : {db : Db} (employee now : ℕ) → Step db (delete_biometric employee now db)
  staff : {db : Db} (es : List Employee) → Step db (record db { employees = es })

pub data Reach : Db → Db → Type 0 where
  start : {db : Db} → Reach db db
  step : {db db' db'' : Db} → Reach db db' → Step db' db'' → Reach db db''

Step-IsValid : {db db' : Db} → Step db db' → IsValid db → IsValid db'
Step-IsValid (kiosk {db} p device now) v = enroll-IsValid p device now db v
Step-IsValid (page {db} pk cancel user now reader) v = post-IsValid pk cancel user now reader db v
Step-IsValid (deletion {db} employee now) v = delete_biometric-IsValid employee now db v
Step-IsValid (staff {db} es) v = employees-IsValid es db v

-- From valid tables, whatever kiosks and staff do in whatever order, no employee gets a second
-- template or a second pending request, every template has between 1 and 10,240 bytes, and the keys
-- of the requests stay distinct.
pub enrolling-IsValid : {db db' : Db} → Reach db db' → IsValid db → IsValid db'
enrolling-IsValid start v = v
enrolling-IsValid (step r s) v = Step-IsValid s (enrolling-IsValid r v)
