-- ===== src/Kiosk/Cache/RoundTrip.antt =====
-- A template on its way from a kiosk to the site and to the caches of the kiosks.
use truck.Base.{
  ℕ, ◌≡◌, ◌≢◌, refl, sym, ap, ◌∙◌, Bool, true, false, not, ◌&&◌, Option, none, some, inl, inr, List,
  [], ◌∷◌, All, Option-cases, Bool-cases, All-update, All-select, select, first, ℤ, pos, ◌==◌,
  if◌then◌else◌, length, leb, is_small, is_key, ==_iff,
}
use mathlib.Core.Path.{subst}
use mathlib.Core.Bool.{false≢true}
use mathlib.Core.Option.{some-ne-none}
use truck.Employees.Model.{Employee}
use truck.Biometric.Enroll.{
  BiometricTemplate, Db, RequestId, enrolling, Reply, ok, bad_request, server_error,
  employee_not_found, invalid_template, template_of, clean, close_enroll_request, mark_done,
  request_for, save_template, save_and_close, enroll_employee, enroll, values, is_active_in, sync,
}
use truck.Biometric.Enroll.Valid.{IsValid}
use truck.Biometric.Enroll.Rows.{Saved}
use truck.Biometric.Enroll.Answers.{Answers, enroll-Answers}
use truck.Biometric.Enroll.Sync.{is_active_pk, entries, entries-sync}
use truck.Kiosk.Base64.{b64encode}
use truck.Kiosk.Codec.{IsByte, decode-b64encode}
use truck.Kiosk.Cache.{
  encode_rows, templates_json, decode_rows, rows, replaced, refresh, replace, parse_enroll,
}

abbrev pub HasBytes : BiometricTemplate → Type 0
HasBytes t = All IsByte t.template

rows_of_bytes :
    (ts : List BiometricTemplate) → All HasBytes ts → All (λ r. All IsByte r.1) (values ts)
rows_of_bytes [] h = tt
rows_of_bytes (t ∷ ts) (h, a) = (h, rows_of_bytes ts a)

decode_rows-encode_rows :
    (rs : List (ℕ × List ℕ)) → All (λ r. All IsByte r.1) rs → decode_rows (encode_rows rs) ≡ some rs
decode_rows-encode_rows [] h = refl
decode_rows-encode_rows ((e, t) ∷ rs) (h, a) =
    rw (decode-b64encode false t h) (rw (decode_rows-encode_rows rs a) refl)

-- The cache of a kiosk that refreshes is what the site sends.
refresh-templates_json :
    (db : Db) → All HasBytes db.templates → refresh (rows (templates_json db)) ≡ replaced (sync db)
unfolding refresh templates_json sync
refresh-templates_json db h = ap replace (
    decode_rows-encode_rows (values (select (is_active_in db.employees) db.templates)) (
      rows_of_bytes (select (is_active_in db.employees) db.templates)
        (All-select HasBytes (is_active_in db.employees) db.templates h)))

-- An enrolment keeps the templates to bytes.
module _ (bytes : List ℕ) (finger : ℤ) (i : RequestId) (device now : ℕ) (b : All IsByte bytes) where
  closed_templates :
      (employee : ℕ) (d : Db)
      → (close_enroll_request employee i device now d).templates ≡ d.templates
  unfolding close_enroll_request mark_done
  closed_templates employee d = elim (Option-cases (request_for employee i d.requests)) [
    | inl n ↦ rw n refl
    | inr (r, f) ↦ rw f refl
  ]

  saved-HasBytes :
      (t : BiometricTemplate) (created : Bool) (ts : List BiometricTemplate)
      → HasBytes t
      → All HasBytes ts
      → All HasBytes (save_template (t, created) ts)
  saved-HasBytes t true ts h a = (h, a)
  saved-HasBytes t false ts h a =
      All-update HasBytes (template_of t.employee) (λ u. t) (λ u k. h) ts a

  save_and_close-HasBytes :
      (employee : ℕ) (t : BiometricTemplate) (created : Bool) (db : Db)
      → HasBytes t
      → All HasBytes db.templates
      → All HasBytes (save_and_close employee i device now (t, created) db).1.templates
  save_and_close-HasBytes employee t created db h a = elim (Bool-cases (clean t)) [
    | inl k ↦ rw k (
        subst (All HasBytes)
          (sym (
            closed_templates employee
              (record db { templates = save_template (t, created) db.templates })))
          (saved-HasBytes t created db.templates h a))
    | inr n ↦ rw n a
  ]

  enroll_employee-HasBytes :
      (o : Option Employee) (db : Db)
      → All HasBytes db.templates
      → All HasBytes (enroll_employee bytes finger i device now o db).1.templates
  enroll_employee-HasBytes none db a = a
  enroll_employee-HasBytes (some e) db a =
      elim (Option-cases (first (select (template_of e.pk) db.templates))) [
        | inl n ↦
            let t : BiometricTemplate = record {
              employee = e.pk;
              template = bytes;
              finger_index = finger;
            } in
            rw n (save_and_close-HasBytes e.pk t true db b a)
        | inr (u, f) ↦
            let t : BiometricTemplate = record u { template = bytes; finger_index = finger } in
            rw f (save_and_close-HasBytes e.pk t false db b a)
      ]

  enroll-HasBytes :
      (id : ℤ) (db : Db)
      → All HasBytes db.templates
      → All HasBytes (enroll (enrolling id bytes finger i) device now db).1.templates
  unfolding enroll
  enroll-HasBytes id db a =
      enroll_employee-HasBytes (first (select (λ e. is_key id e.pk) db.employees)) db a

active_found :
    (e : ℕ) (es : List Employee)
    → is_active_pk e es ≡ true
    → first (select (λ x. x.pk == e) es) ≡ none
    → ⊥
active_found e [] h n = false≢true h
active_found e (x ∷ es) h n = elim (Bool-cases (x.pk == e)) [
  | inl k ↦ let q : some x ≡ none = rw k at n in some-ne-none x q
  | inr k ↦
      let q : first (select (λ y. y.pk == e) es) ≡ none = rw k at n in
      let a : is_active_pk e es ≡ true = rw k at h in active_found e es a q
]

module _ (e : ℕ) (bytes : List ℕ) (finger : ℤ) (i : RequestId) (device now : ℕ) (db : Db) where
  -- The enrolment is accepted, and the next refresh of a kiosk has the template and no other for the
  -- employee, and for every other employee what it had before.
  pub record Arrives (x : Reply × Db) : Type 0 where
    pub created : Bool
    pub accepted : x.0 ≡ ok e created
    pub refreshed : refresh (rows (templates_json x.1)) ≡ replaced (sync x.1)
    pub entry : entries e (sync x.1) ≡ (e, bytes) ∷ []
    pub others : (j : ℕ) → j ≢ e → entries j (sync x.1) ≡ entries j (sync db)

  Answers-Arrives :
      (x : Reply × Db)
      → is_active_pk e db.employees ≡ true
      → not (length bytes == 0) && leb (length bytes) 10240 && is_small finger ≡ true
      → Answers device now (enrolling (pos e) bytes finger i) db x
      → All HasBytes x.1.templates
      → Arrives x
  Answers-Arrives (bad_request, db') a c h b = absurd h
  Answers-Arrives (server_error, db') a c h b = absurd h
  Answers-Arrives (employee_not_found, db') a c h b = absurd (active_found e db.employees a h.0)
  Answers-Arrives (invalid_template, db') a c h b = absurd (false≢true (sym h.0 ∙ c))
  Answers-Arrives (ok employee created, db') a c (k, s, q, staff) b =
      let same : employee ≡ e = (==_iff employee e).0 k.3 in
      let saved : Saved e bytes db.templates db'.templates =
        subst (λ n. Saved n bytes db.templates db'.templates) same s in
      let active : is_active_pk e db'.employees ≡ true = ap (is_active_pk e) staff ∙ a in
      record {
        created = created;
        accepted = ap (λ n. ok n created) same;
        refreshed = refresh-templates_json db' b;
        entry = entries-sync e db' ∙ rw active saved.0;
        others = λ j n.
            entries-sync j db'
            ∙ ap
                (λ es.
                  if is_active_pk j es then values (select (template_of j) db'.templates) else [])
                staff
            ∙ ap (λ ts. if is_active_pk j db.employees then values ts else []) (saved.1 j n)
            ∙ sym (entries-sync j db);
      }

  -- On valid tables that hold bytes, a template that a kiosk captures for an active employee, not empty
  -- and not larger than the limit, is accepted by the site, and a kiosk that refreshes next has for this
  -- employee this template, byte for byte, and no other; for the other employees it has what it would
  -- have had before.
  pub enroll-Arrives :
      IsValid db
      → All HasBytes db.templates
      → All IsByte bytes
      → is_active_pk e db.employees ≡ true
      → not (length bytes == 0) && leb (length bytes) 10240 && is_small finger ≡ true
      → Arrives (enroll (parse_enroll (pos e) (b64encode bytes) finger i) device now db)
  unfolding parse_enroll
  enroll-Arrives v h b a c = rw (decode-b64encode true bytes b) (
      Answers-Arrives (enroll (enrolling (pos e) bytes finger i) device now db) a c
        (enroll-Answers (enrolling (pos e) bytes finger i) device now db v)
        (enroll-HasBytes bytes finger i device now b (pos e) db h))
