-- ===== src/Biometric/Enroll/Valid.antt =====
-- What holds of the enrolment tables at all times (biometric/models.py, biometric/api_views.py,
-- employees/views.py).
use truck.Base.{
  ℕ, suc, ◌≤◌, ◌<◌, ◌≡◌, refl, sym, ap, ◌∙◌, Bool, true, false, not, Option, none, some, inl, inr,
  List, [], ◌∷◌, arith, ◌==◌, ==_iff, Bool-cases, Option-cases, and_true, select, earliest, update,
  count, All, All-mono, All-update, All-select, count-update_le, count-update_eq, count-select_le,
  count-earliest,
}
use mathlib.Core.Bool.{false≢true}
use truck.Biometric.Enroll.{
  BiometricTemplate, EnrollRequest, Db, is_pending, pending_of, template_of, clean, create_unless,
  get_or_create_pending, done_by, mark_done, mark_found, cancelled_at, cancel_pending,
  delete_biometric,
}

-- One template and one pending request at most for an employee, templates that pass validation, and
-- requests with keys of their own.
pub record IsValid (db : Db) : Type 0 where
  pub one_template : (e : ℕ) → count (template_of e) db.templates ≤ 1
  pub one_pending : (e : ℕ) → count (pending_of e) db.requests ≤ 1
  pub clean_templates : All (λ t. clean t ≡ true) db.templates
  pub keys_below : All (λ r. r.pk < db.next_request) db.requests
  pub one_key : (i : ℕ) → count (λ r. r.pk == i) db.requests ≤ 1

count_below :
    (n i : ℕ) (rs : List EnrollRequest)
    → All (λ r. r.pk < n) rs
    → n ≤ i
    → count (λ r. r.pk == i) rs ≡ 0
count_below n i [] h k = refl
count_below n i (r ∷ rs) (a, h) k = ground (arith, count_below n i rs h k)

-- Every change of requests is an update that keeps keys and employees and leaves no row pending.
pub update-IsValid :
    (q : EnrollRequest → Bool) (f : EnrollRequest → EnrollRequest) (db : Db)
    → ((r : EnrollRequest) → (f r).pk ≡ r.pk)
    → ((r : EnrollRequest) → is_pending (f r) ≡ false)
    → IsValid db
    → IsValid (record db { requests = update q f db.requests })
update-IsValid q f db k p v = record {
  one_template = v.one_template;
  one_pending = λ e.
      let le : count (pending_of e) (update q f db.requests) ≤ count (pending_of e) db.requests =
        count-update_le (pending_of e) q f
          (λ r t i.
            absurd
              (false≢true (sym (p r) ∙ (and_true ((f r).employee == e) (is_pending (f r)) i).1)))
          db.requests in
      omega (arith, le, v.one_pending e);
  clean_templates = v.clean_templates;
  keys_below =
      All-update (λ r. r.pk < db.next_request) q f (λ r h. rw (k r) h) db.requests v.keys_below;
  one_key = λ i.
      rw (count-update_eq (λ r. r.pk == i) q f (λ r. ap (λ n. n == i) (k r)) db.requests)
        (v.one_key i);
}

mark_done-IsValid :
    (device now : ℕ) (r : EnrollRequest) (db : Db)
    → IsValid db
    → IsValid (mark_done device now r db)
unfolding mark_done
mark_done-IsValid device now r db v =
    update-IsValid (λ q. q.pk == r.pk) (done_by device now) db (λ q. refl) (λ q. refl) v

pub close-IsValid :
    (device now : ℕ) (o : Option EnrollRequest) (db : Db)
    → IsValid db
    → IsValid (mark_found device now o db)
close-IsValid device now none db v = v
close-IsValid device now (some r) db v = mark_done-IsValid device now r db v

pub cancel_pending-IsValid :
    (employee now : ℕ) (db : Db) → IsValid db → IsValid (cancel_pending employee now db)
unfolding cancel_pending
cancel_pending-IsValid employee now db v =
    update-IsValid (pending_of employee) (cancelled_at now) db (λ q. refl) (λ q. refl) v

pub templates-IsValid :
    (ts : List BiometricTemplate) (db : Db)
    → ((e : ℕ) → count (template_of e) ts ≤ 1)
    → All (λ t. clean t ≡ true) ts
    → IsValid db
    → IsValid (record db { templates = ts })
templates-IsValid ts db c a v = record {
  one_template = c;
  one_pending = v.one_pending;
  clean_templates = a;
  keys_below = v.keys_below;
  one_key = v.one_key;
}

pub delete_biometric-IsValid :
    (employee now : ℕ) (db : Db) → IsValid db → IsValid (delete_biometric employee now db)
unfolding delete_biometric
delete_biometric-IsValid employee now db v =
    let other : BiometricTemplate → Bool = λ t. not (template_of employee t) in
    cancel_pending-IsValid employee now (record db { templates = select other db.templates })
      (templates-IsValid (select other db.templates) db
        (λ e. omega (arith, count-select_le (template_of e) other db.templates, v.one_template e))
        (All-select (λ t. clean t ≡ true) other db.templates v.clean_templates) v)

-- A new request, for an employee who has none pending.
new_request-IsValid :
    (employee : ℕ) (user : Option ℕ) (now : ℕ) (db : Db)
    → count (pending_of employee) db.requests ≡ 0
    → IsValid db
    → IsValid (create_unless employee user now none db).1
new_request-IsValid employee user now db z v = record {
  one_template = v.one_template;
  one_pending = λ e. elim (Bool-cases (employee == e)) [
    | inl t ↦
        let q : employee ≡ e = (==_iff employee e).0 t in
        let z' : count (pending_of e) db.requests ≡ 0 = rw (sym q) z in rw t (omega (arith, z'))
    | inr n ↦ rw n (v.one_pending e)
  ];
  clean_templates = v.clean_templates;
  keys_below = (
    omega arith,
    All-mono (λ r. r.pk < db.next_request) (λ r. r.pk < suc db.next_request)
        (λ r h. omega (arith, h)) db.requests v.keys_below,
  );
  one_key = λ i. elim (Bool-cases (db.next_request == i)) [
    | inl t ↦
        let z' : count (λ r. r.pk == i) db.requests ≡ 0 =
          count_below db.next_request i db.requests v.keys_below
            (ground (arith, (==_iff db.next_request i).0 t)) in
        rw t (omega (arith, z'))
    | inr n ↦ rw n (v.one_key i)
  ];
}

pub get_or_create_pending-IsValid :
    (employee : ℕ) (user : Option ℕ) (now : ℕ) (db : Db)
    → IsValid db
    → IsValid (get_or_create_pending employee user now db).1
unfolding get_or_create_pending
get_or_create_pending-IsValid employee user now db v =
    elim (Option-cases
      (earliest (λ r. r.requested_at) (select (pending_of employee) db.requests))) [
        | inl n ↦ rw n (
            new_request-IsValid employee user now db
              (count-earliest (pending_of employee) (λ r. r.requested_at) db.requests n) v)
        | inr (r, f) ↦ rw f v
      ]
