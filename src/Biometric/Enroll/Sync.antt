-- ===== src/Biometric/Enroll/Sync.antt =====
-- What the kiosks are sent (`KioskTemplateSyncView` in biometric/api_views.py).
use truck.Base.{
  ℕ, ◌≡◌, refl, ap, Bool, ◌&&◌, inl, inr, List, [], ◌∷◌, ◌==◌, ==_iff, if◌then◌else◌, Bool-cases,
  select, any,
}
use truck.Employees.Model.{Employee}
use truck.Biometric.Enroll.{BiometricTemplate, Db, template_of, is_active_in, values, sync}

abbrev pub is_active_pk : ℕ → List Employee → Bool
is_active_pk e es = any (λ x. x.pk == e && x.is_active) es

-- The entries of one employee.
abbrev pub entries : ℕ → List (ℕ × List ℕ) → List (ℕ × List ℕ)
entries e l = select (λ p. p.0 == e) l

entries-values :
    (e : ℕ) (es : List Employee) (ts : List BiometricTemplate)
    → entries e (values (select (is_active_in es) ts))
      ≡ (if is_active_pk e es then values (select (template_of e) ts) else [])
entries-values e es [] = elim (Bool-cases (is_active_pk e es)) [
  | inl t ↦ rw t refl
  | inr n ↦ rw n refl
]
entries-values e es (t ∷ ts) = elim (Bool-cases (t.employee == e)) [
  | inl h ↦
      let c : is_active_in es t ≡ is_active_pk e es =
        ap (λ n. is_active_pk n es) ((==_iff t.employee e).0 h) in
      rw c (elim (Bool-cases (is_active_pk e es)) [
        | inl a ↦
            let ih : entries e (values (select (is_active_in es) ts))
                ≡ values (select (template_of e) ts) =
              rw a at (entries-values e es ts) in
            rw a (rw h (ap (λ l. (t.employee, t.template) ∷ l) ih))
        | inr a ↦
            let ih : entries e (values (select (is_active_in es) ts)) ≡ [] =
              rw a at (entries-values e es ts) in
            rw a ih
      ])
  | inr n ↦ rw n (elim (Bool-cases (is_active_in es t)) [
    | inl a ↦ rw a (rw n (entries-values e es ts))
    | inr a ↦ rw a (entries-values e es ts)
  ])
]

-- The kiosks are sent the templates of an employee who is active, and none of one who is not.
pub entries-sync :
    (e : ℕ) (db : Db)
    → entries e (sync db)
      ≡ (if is_active_pk e db.employees then values (select (template_of e) db.templates) else [])
unfolding sync
entries-sync e db = entries-values e db.employees db.templates
