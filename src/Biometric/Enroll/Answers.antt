-- ===== src/Biometric/Enroll/Answers.antt =====
-- What a kiosk's enrolment does on each of its replies (`KioskEnrollView` and
-- `_close_enroll_request` in biometric/api_views.py).
use truck.Base.{
  ℕ, ◌≡◌, ◌⊎◌, refl, sym, Bool, true, false, not, ◌&&◌, Option, none, some, inl, inr, List, arith,
  length, ◌==◌, ==_iff, Bool-cases, Option-cases, and_true, select, first, update, count,
  first-select, first-Mem, earliest-Mem, Mem, count-first, count-earliest, earliest-All, select-All,
  ℤ, is_key, is_small, leb,
}
use mathlib.Core.Option.{some-ne-none}
use truck.Employees.Model.{Employee}
use truck.Biometric.Enroll.{
  BiometricTemplate, EnrollRequest, Db, is_pending, pending_of, template_of, clean, done_by,
  mark_done, RequestId, absent, refused, number, request_for, close_enroll_request, Payload,
  malformed, overflow, enrolling, endless, enroll_endless, pending, undone, Reply, bad_request,
  server_error, employee_not_found, invalid_template, ok, save_template, save_and_close,
  enroll_employee, enroll,
}
use truck.Biometric.Enroll.Saves.{found_employee, endless_kept}
use truck.Biometric.Enroll.Valid.{IsValid}
use truck.Biometric.Enroll.Rows.{Saved, save_new-Saved, save_old-Saved, count_found}

-- Which request an enrolment may close.
abbrev pub Fulfils : ℕ → RequestId → EnrollRequest → Type 0
Fulfils employee absent r = r.employee ≡ employee
Fulfils employee refused r = ⊥
Fulfils employee (number i) r = is_key i r.pk ≡ true

-- There is no such request that is pending.
abbrev pub Unmatched : ℕ → RequestId → List EnrollRequest → Type 0
Unmatched employee absent rs = count (pending_of employee) rs ≡ 0
Unmatched employee refused rs = Unit
Unmatched employee (number i) rs = count (λ r. is_pending r && is_key i r.pk) rs ≡ 0

-- A request that was pending ends, done by the device, or there is none to end and none changes.
abbrev pub Closes : ℕ → RequestId → ℕ → ℕ → List EnrollRequest → List EnrollRequest → Type 0
Closes employee i device now rs rs' =
    (Unmatched employee i rs × (rs' ≡ rs))
    ⊎ ((r : EnrollRequest) × Mem r rs
        × (r.status ≡ pending)
        × Fulfils employee i r
        × (rs' ≡ update (λ q. q.pk == r.pk) (done_by device now) rs))

none-Unmatched :
    (employee : ℕ) (i : RequestId) (rs : List EnrollRequest)
    → request_for employee i rs ≡ none
    → Unmatched employee i rs
unfolding request_for
none-Unmatched employee absent rs h =
    count-earliest (pending_of employee) (λ r. r.requested_at) rs h
none-Unmatched employee refused rs h = tt
none-Unmatched employee (number i) rs h = count-first (λ r. is_pending r && is_key i r.pk) rs h

is_pending_status : (r : EnrollRequest) → is_pending r ≡ true → r.status ≡ pending
is_pending_status r h = ground arith

found_Fulfils :
    (employee : ℕ) (i : RequestId) (rs : List EnrollRequest) (r : EnrollRequest)
    → request_for employee i rs ≡ some r
    → Mem r rs × (r.status ≡ pending) × Fulfils employee i r
unfolding request_for
found_Fulfils employee absent rs r h =
    let p : pending_of employee r ≡ true =
      earliest-All (λ q. pending_of employee q ≡ true) (λ q. q.requested_at)
        (select (pending_of employee) rs) (select-All (pending_of employee) rs) r h in
    let (e, d) = and_true (r.employee == employee) (is_pending r) p in
    (
      earliest-Mem (pending_of employee) (λ q. q.requested_at) rs r h,
      is_pending_status r d,
      (==_iff r.employee employee).0 e,
    )
found_Fulfils employee refused rs r h = absurd (some-ne-none r (sym h))
found_Fulfils employee (number i) rs r h =
    let p : EnrollRequest → Bool = λ q. is_pending q && is_key i q.pk in
    let (d, k) = and_true (is_pending r) (is_key i r.pk) (first-select p rs r h) in
    (first-Mem p rs r h, is_pending_status r d, k)

close-Closes :
    (employee : ℕ) (i : RequestId) (device now : ℕ) (db : Db)
    → Closes employee i device now db.requests
        (close_enroll_request employee i device now db).requests
unfolding close_enroll_request mark_done
close-Closes employee i device now db = elim (Option-cases (request_for employee i db.requests)) [
  | inl n ↦ rw n (inl (none-Unmatched employee i db.requests n, refl))
  | inr (r, f) ↦
      let (k, p, m) = found_Fulfils employee i db.requests r f in rw f (inr (r, k, p, m, refl))
]

-- The employee is a row of the table, with the key that was sent.
abbrev pub Known : ℤ → ℕ → List Employee → Type 0
Known id employee staff =
    (e : Employee) × Mem e staff × (e.pk ≡ employee) × (is_key id employee ≡ true)

-- What the template's columns accept.
abbrev pub fits : List ℕ → ℤ → Bool
fits bytes finger = not (length bytes == 0) && leb (length bytes) 10240 && is_small finger

-- What a reply to an enrolment with an endless key says.
abbrev pub Fails : ℤ → List ℕ → ℤ → Db → Reply → Type 0
Fails id bytes finger db employee_not_found =
    first (select (λ e. is_key id e.pk) db.employees) ≡ none
Fails id bytes finger db invalid_template = fits bytes finger ≡ false
Fails id bytes finger db server_error = fits bytes finger ≡ true
Fails id bytes finger db bad_request = ⊥
Fails id bytes finger db (ok employee created) = ⊥

-- What a reply to an enrolment says of the tables.
abbrev pub Answers : ℕ → ℕ → Payload → Db → Reply × Db → Type 0
Answers device now malformed db (r, db') = (r ≡ bad_request) × (db' ≡ db)
Answers device now overflow db (r, db') = (r ≡ server_error) × (db' ≡ db)
Answers device now (endless id bytes finger) db (r, db') = (db' ≡ db) × Fails id bytes finger db r
Answers device now (enrolling id bytes finger i) db (ok employee created, db') =
    Known id employee db.employees
    × Saved employee bytes db.templates db'.templates
    × Closes employee i device now db.requests db'.requests
    × (db'.employees ≡ db.employees)
Answers device now (enrolling id bytes finger i) db (employee_not_found, db') =
    (first (select (λ e. is_key id e.pk) db.employees) ≡ none) × (db' ≡ db)
Answers device now (enrolling id bytes finger i) db (invalid_template, db') =
    (not (length bytes == 0) && leb (length bytes) 10240 && is_small finger ≡ false) × (db' ≡ db)
Answers device now (enrolling id bytes finger i) db (bad_request, db') = ⊥
Answers device now (enrolling id bytes finger i) db (server_error, db') = ⊥

module _ (id : ℤ) (bytes : List ℕ) (finger : ℤ) (i : RequestId) (device now : ℕ) (db : Db) where
  abbrev payload : Payload
  payload = enrolling id bytes finger i

  employees_kept :
      (employee : ℕ) (d : Db)
      → (close_enroll_request employee i device now d).employees ≡ d.employees
        × ((close_enroll_request employee i device now d).templates ≡ d.templates)
  unfolding close_enroll_request mark_done
  employees_kept employee d = elim (Option-cases (request_for employee i d.requests)) [
    | inl n ↦ rw n (refl, refl)
    | inr (r, f) ↦ rw f (refl, refl)
  ]

  save_and_close-Answers :
      (t : BiometricTemplate) (created : Bool)
      → Known id t.employee db.employees
      → t.template ≡ bytes
      → t.finger_index ≡ finger
      → Saved t.employee t.template db.templates (save_template (t, created) db.templates)
      → Answers device now payload db (save_and_close t.employee i device now (t, created) db)
  save_and_close-Answers t created k b g s = elim (Bool-cases (clean t)) [
    | inl c ↦
        let db' : Db = record db { templates = save_template (t, created) db.templates } in
        let (es, ts) = employees_kept t.employee db' in
        rw c (k, rw ts (rw (sym b) s), close-Closes t.employee i device now db', es)
    | inr n ↦ rw n (rw (sym b, sym g) n, refl)
  ]

  enroll_employee-Answers :
      (o : Option Employee)
      → first (select (λ e. is_key id e.pk) db.employees) ≡ o
      → IsValid db
      → Answers device now payload db (enroll_employee bytes finger i device now o db)
  enroll_employee-Answers none h v = (h, refl)
  enroll_employee-Answers (some e) h v =
      let p : Employee → Bool = λ x. is_key id x.pk in
      let k : Known id e.pk db.employees =
        (e, first-Mem p db.employees e h, refl, first-select p db.employees e h) in
      elim (Option-cases (first (select (template_of e.pk) db.templates))) [
        | inl n ↦
            let t : BiometricTemplate = record {
              employee = e.pk;
              template = bytes;
              finger_index = finger;
            } in
            rw n (
              save_and_close-Answers t true k refl refl
                (save_new-Saved t db.templates (count-first (template_of e.pk) db.templates n)))
        | inr (u, f) ↦
            let t : BiometricTemplate = record u { template = bytes; finger_index = finger } in
            let q : u.employee ≡ e.pk = found_employee e.pk db u f in
            let one : count (template_of u.employee) db.templates ≡ 1 =
              rw q (omega (arith, count_found e.pk db.templates u f, v.one_template e.pk)) in
            rw f (
              rw (sym q) (
                save_and_close-Answers t false (rw q k) refl refl
                  (save_old-Saved t db.templates one)))
      ]

endless-Fails :
    (id : ℤ) (bytes : List ℕ) (finger : ℤ) (o : Option Employee) (db : Db)
    → first (select (λ e. is_key id e.pk) db.employees) ≡ o
    → Fails id bytes finger db (enroll_endless bytes finger o db).0
endless-Fails id bytes finger none db h = h
endless-Fails id bytes finger (some e) db h =
    elim (Option-cases (first (select (template_of e.pk) db.templates))) [
      | inl n ↦ rw n (row_Fails record { employee = e.pk; template = bytes; finger_index = finger })
      | inr (u, f) ↦ rw f (row_Fails record u { template = bytes; finger_index = finger })
    ]
  where
    row_Fails : (t : BiometricTemplate) → Fails id t.template t.finger_index db (undone t db).0
    row_Fails t = elim (Bool-cases (clean t)) [ inl c ↦ rw c c | inr n ↦ rw n n ]

-- On valid tables, an enrolment by a kiosk is answered `ok` only for an employee that exists: then
-- that employee has the submitted template and no other, and the templates of the others and the
-- staff are as before. One request that was pending ends then, done by this device: the one whose key
-- was sent, or one of this employee if no key was sent; if there is no such request, or what was sent
-- is no key, no request changes. An infinite key is never answered `ok`. Every other reply leaves the tables unchanged.
pub enroll-Answers :
    (p : Payload) (device now : ℕ) (db : Db)
    → IsValid db
    → Answers device now p db (enroll p device now db)
unfolding enroll
enroll-Answers malformed device now db v = (refl, refl)
enroll-Answers overflow device now db v = (refl, refl)
enroll-Answers (enrolling id bytes finger i) device now db v =
    enroll_employee-Answers id bytes finger i device now db
      (first (select (λ e. is_key id e.pk) db.employees)) refl v
enroll-Answers (endless id bytes finger) device now db v = (
  endless_kept bytes finger (first (select (λ e. is_key id e.pk) db.employees)) db,
  endless-Fails id bytes finger (first (select (λ e. is_key id e.pk) db.employees)) db refl,
)
