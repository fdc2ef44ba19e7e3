-- ===== src/Visitors/Visits/Departs.antt =====
-- A departure, and where the open pages show the visit after it (visitors/views.py).
use truck.Base.{
  ℕ, suc, ◌≤◌, ◌<◌, ◌≡◌, refl, sym, ap, ◌∙◌, Bool, true, false, not, none, some, inl, inr, List, [],
  ◌∷◌, arith, ltb, lt→ltb, ◌==◌, ==_iff, take, Bool-cases, Option-cases, select, first,
  first-select, update, count, All,
}
use mathlib.Core.Option.{some-injective, some-ne-none}
use truck.Live.{
  newest_first, first_key, newer, latest_rows, instant, Updated, answered, update_rows,
}
use truck.Visitors.Visits.{
  Visit, Reply, invalid_form, registered, not_found, already_departed, departed, is_active, has_pk,
  leaves, depart, Tab, active, completed, all_visits, visits_update,
}

abbrev pub UpTo : ℕ → Visit → Type 0
UpTo t v = v.updated_at ≤ t

module _ (matches : Visit → Bool) (time now t : ℕ) (late : t < now) where
  abbrev newest : List Visit → List Visit
  newest vs = newer (λ v. v.updated_at) t (select matches vs)

  -- Rows that have not changed are not newer.
  none_changed :
      (pk : ℕ) (vs : List Visit)
      → count (has_pk pk) vs ≡ 0
      → All (UpTo t) vs
      → newest (update (has_pk pk) (leaves time now) vs) ≡ []
  none_changed pk [] z h = refl
  none_changed pk (v ∷ vs) z (a, h) = elim (Bool-cases (v.pk == pk)) [
    | inl k ↦ let q : suc (count (has_pk pk) vs) ≡ 0 = rw k at z in absurd (omega (arith, q))
    | inr k ↦
        let q : count (has_pk pk) vs ≡ 0 = rw k at z in
        let old : ltb t v.updated_at ≡ false = ground arith in
        rw k (elim (Bool-cases (matches v)) [
          | inl m ↦ rw m (rw old (none_changed pk vs q h))
          | inr m ↦ rw m (none_changed pk vs q h)
        ])
  ]

  -- The visit that departed is the only one that is newer.
  one_changed :
      (pk : ℕ) (v : Visit) (vs : List Visit)
      → count (has_pk pk) vs ≤ 1
      → first (select (has_pk pk) vs) ≡ some v
      → matches (leaves time now v) ≡ true
      → All (UpTo t) vs
      → newest (update (has_pk pk) (leaves time now) vs) ≡ leaves time now v ∷ []
  one_changed pk v [] one f m h = absurd (some-ne-none v (sym f))
  one_changed pk v (x ∷ vs) one f m (a, h) = elim (Bool-cases (x.pk == pk)) [
    | inl k ↦
        let le : suc (count (has_pk pk) vs) ≤ 1 = rw k at one in
        let e : some x ≡ some v = rw k at f in
        let m' : matches (leaves time now x) ≡ true =
          ap (λ y. matches (leaves time now y)) (some-injective x v e) ∙ m in
        rw k (
          rw m' (
            rw (lt→ltb t now late) (
              ap (λ l. leaves time now x ∷ l) (none_changed pk vs (omega (arith, le)) h)
              ∙ ap (λ y. leaves time now y ∷ []) (some-injective x v e))))
    | inr k ↦
        let one' : count (has_pk pk) vs ≤ 1 = rw k at one in
        let f' : first (select (has_pk pk) vs) ≡ some v = rw k at f in
        let old : ltb t x.updated_at ≡ false = ground arith in
        let rest = one_changed pk v vs one' f' m h in
        rw k (elim (Bool-cases (matches x)) [ inl g ↦ rw g (rw old rest) | inr g ↦ rw g rest ])
  ]

  -- What a page with a tab is told of one changed visit.
  abbrev pub told : Tab → Visit → Updated Visit
  told active v = record { visible = []; removed = v ∷ []; newest = some now }
  told completed v = record { visible = v ∷ []; removed = []; newest = some now }
  told all_visits v = record { visible = v ∷ []; removed = []; newest = some now }

  -- A departure ends a visit that is active, once, and a page that was up to date moves it.
  abbrev pub Departs : ℕ → List Visit → Reply × List Visit → Type 0
  Departs pk vs (not_found, vs') = (first (select (has_pk pk) vs) ≡ none) × (vs' ≡ vs)
  Departs pk vs (already_departed, vs') =
      ((v : Visit) × (first (select (has_pk pk) vs) ≡ some v) × (is_active v ≡ false)) × (vs' ≡ vs)
  Departs pk vs (departed, vs') =
      (v : Visit) × (first (select (has_pk pk) vs) ≡ some v)
      × (is_active v ≡ true)
      × (first (select (has_pk pk) vs') ≡ some (leaves time now v))
      × ((tab : Tab)
          → matches (leaves time now v) ≡ true
          → visits_update tab matches (instant t) vs' ≡ answered (told tab (leaves time now v)))
  Departs pk vs (invalid_form, vs') = ⊥
  Departs pk vs (registered, vs') = ⊥

  told_tab :
      (tab : Tab) (v : Visit) (vs' : List Visit)
      → newest vs' ≡ leaves time now v ∷ []
      → visits_update tab matches (instant t) vs' ≡ answered (told tab (leaves time now v))
  unfolding visits_update update_rows latest_rows
  told_tab active v vs' e =
      ap
        (λ l. answered (record {
          visible = select is_active (take 50 (newest_first (λ x. x.updated_at) l));
          removed = select (λ x. not (is_active x)) (take 50 (newest_first (λ x. x.updated_at) l));
          newest = first_key (λ x. x.updated_at) (take 50 (newest_first (λ x. x.updated_at) l));
        }))
        e
  told_tab completed v vs' e =
      ap
        (λ l. answered (record {
          visible = select (λ x. not (is_active x)) (take 50 (newest_first (λ x. x.updated_at) l));
          removed =
              select (λ x. not (not (is_active x))) (take 50 (newest_first (λ x. x.updated_at) l));
          newest = first_key (λ x. x.updated_at) (take 50 (newest_first (λ x. x.updated_at) l));
        }))
        e
  told_tab all_visits v vs' e =
      ap
        (λ l. answered (record {
          visible = select (λ x. true) (take 50 (newest_first (λ x. x.updated_at) l));
          removed = select (λ x. not true) (take 50 (newest_first (λ x. x.updated_at) l));
          newest = first_key (λ x. x.updated_at) (take 50 (newest_first (λ x. x.updated_at) l));
        }))
        e

  first-update :
      (pk : ℕ) (v : Visit) (vs : List Visit)
      → first (select (has_pk pk) vs) ≡ some v
      → first (select (has_pk pk) (update (has_pk pk) (leaves time now) vs))
        ≡ some (leaves time now v)
  first-update pk v [] f = absurd (some-ne-none v (sym f))
  first-update pk v (x ∷ vs) f = elim (Bool-cases (x.pk == pk)) [
    | inl k ↦
        let e : some x ≡ some v = rw k at f in
        rw k (rw k (ap (λ y. some (leaves time now y)) (some-injective x v e)))
    | inr k ↦
        let f' : first (select (has_pk pk) vs) ≡ some v = rw k at f in
        rw k (rw k (first-update pk v vs f'))
  ]

  -- Where keys are distinct and a page was told of all changes up to an instant before the departure: a
  -- departure is registered exactly if the visit exists and has not ended, once; it ends the visit, and the
  -- next update takes it off a page that shows the active visits, and puts it on one that shows the
  -- completed ones or all, if it matches the search there. Otherwise nothing changes.
  pub depart-Departs :
      (pk : ℕ) (vs : List Visit)
      → count (has_pk pk) vs ≤ 1
      → All (UpTo t) vs
      → Departs pk vs (depart pk time now vs)
  unfolding depart
  depart-Departs pk vs one h = elim (Option-cases (first (select (has_pk pk) vs))) [
    | inl n ↦ rw n (n, refl)
    | inr (v, f) ↦
        let k : v.pk ≡ pk = (==_iff v.pk pk).0 (first-select (has_pk pk) vs v f) in
        rw f (elim (Bool-cases (is_active v)) [
          | inr gone ↦ rw gone ((v, f, gone), refl)
          | inl here ↦ rw here (
              rw k (
                v,
                f,
                here,
                first-update pk v vs f,
                λ tab m.
                    told_tab tab v (update (has_pk pk) (leaves time now) vs)
                      (one_changed pk v vs one f m h),
              ))
        ])
  ]
