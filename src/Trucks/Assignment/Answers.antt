-- ===== src/Trucks/Assignment/Answers.antt =====
-- What the assignment views do on each of their replies (trucks/views.py).
use truck.Base.{
  suc, ap, All, and_true, List, [], ◌∷◌, any, ◌&&◌, not, ℕ, ◌≤◌, ◌≡◌, ◌≢◌, ◌⊎◌, refl, sym, ◌∙◌,
  Bool, true, false, Option, none, some, inl, inr, arith, Text, ◌==◌, ==_iff, Bool-cases,
  Option-cases, first-select, count, count-update_lt, count-update_le, select-count, count-latest,
  any-latest,
}
use mathlib.Core.Bool.{false≢true}
use mathlib.Core.Option.{some-ne-none, some-injective}
use truck.Employees.Model.{Employee}
use truck.Trucks.Model.{Truck}
use truck.Trucks.Assignment.{
  TruckAssignment, Db, current_of, check, current, truck_of, employee_of, new_assignment, form_ok,
  no_nulls, assign, end_at, unassign,
}
use truck.Trucks.Assignment.Valid.{IsValid, check-Accepts, never_current}

-- The number of current drivers of a truck, before and after.
abbrev pub drivers : ℕ → Db → ℕ
drivers t db = count (current_of t) db.assignments

-- The employee exists, is a driver and is active, the notes hold no null character, and the truck
-- exists, is active and has no driver.
abbrev pub Allowed : ℕ → ℕ → Text → Db → Type 0
Allowed truck driver notes db =
    (e : Employee) × (t : Truck) × (employee_of driver db ≡ some e)
    × (truck_of truck db ≡ some t)
    × (e.is_driver ≡ true)
    × (t.is_active ≡ true)
    × (drivers truck db ≡ 0)
    × (e.is_active ≡ true)
    × All (λ c. c ≢ 0) notes

no_nulls-All : (t : Text) → no_nulls t ≡ true → All (λ c. c ≢ 0) t
no_nulls-All [] h = tt
no_nulls-All (c ∷ t) h =
    let (a, b) = and_true (not (c == 0)) (no_nulls t) h in (ground arith, no_nulls-All t b)

All-no_nulls : (t : Text) → All (λ c. c ≢ 0) t → no_nulls t ≡ true
All-no_nulls [] h = refl
All-no_nulls (c ∷ t) (a, h) =
    let q : (c == 0) ≡ false = ground arith in rw (q, All-no_nulls t h) refl

-- A driver, active truck and no driver before, one after, and no change for other trucks.
abbrev pub Assigns : ℕ → ℕ → Text → Db → Db → Type 0
Assigns truck driver notes db db' =
    Allowed truck driver notes db
    × (drivers truck db' ≡ 1)
    × ((a : TruckAssignment) × (current truck db' ≡ some a) × (a.driver ≡ driver))
    × ((u : ℕ) → u ≢ truck → drivers u db' ≡ drivers u db)

no_others :
    (t n : ℕ) (rows : List TruckAssignment)
    → count (current_of t) rows ≡ 0
    → any (λ r. current_of t r && not (r.pk == n)) rows ≡ false
no_others t n [] z = refl
no_others t n (r ∷ rs) z = elim (Bool-cases (current_of t r)) [
  | inl c ↦ let q : suc (count (current_of t) rs) ≡ 0 = rw c at z in absurd (omega (arith, q))
  | inr c ↦ let q : count (current_of t) rs ≡ 0 = rw c at z in rw c (no_others t n rs q)
]

-- `check` refuses none that is allowed.
allowed_check :
    (pk now : ℕ) (notes : Text) (e : Employee) (t : Truck) (rows : List TruckAssignment)
    → e.is_driver ≡ true
    → t.is_active ≡ true
    → count (current_of t.pk) rows ≡ 0
    → check (new_assignment pk t.pk e.pk now notes) e t rows ≡ none
unfolding check
allowed_check pk now notes e t rows d a z = rw (d, a, no_others t.pk pk rows z) refl

allowed_form :
    (e : Employee) (notes : Text)
    → e.is_driver ≡ true
    → e.is_active ≡ true
    → All (λ c. c ≢ 0) notes
    → form_ok e notes ≡ true
allowed_form e notes d a n = rw (d, a, All-no_nulls notes n) refl

-- No driver for the truck, and no other truck gains one.
abbrev pub Clears : ℕ → Option Truck → Db → Db → Type 0
Clears truck none db db' = db' ≡ db
Clears truck (some t) db db' = (drivers truck db' ≡ 0) × ((u : ℕ) → drivers u db' ≤ drivers u db)

==_false : (a b : ℕ) → a ≢ b → (a == b) ≡ false
==_false a b n = elim (Bool-cases (a == b)) [ inl t ↦ absurd (n ((==_iff a b).0 t)) | inr f ↦ f ]

-- What an accepted post has found and done.
assigned :
    (truck driver : ℕ) (notes : Text) (now : ℕ) (db : Db)
    → IsValid db
    → (t : Truck) (e : Employee) → employee_of driver db ≡ some e
    → t.pk ≡ truck
    → form_ok e notes ≡ true
    → let a = new_assignment db.next_assignment t.pk e.pk now notes in
      let db' : Db = record db {
        assignments = a ∷ db.assignments;
        next_assignment = suc db.next_assignment;
      } in
      check a e t db.assignments ≡ none
      → ((e.is_driver ≡ true)
          × (t.is_active ≡ true)
          × (drivers truck db ≡ 0)
          × (e.is_active ≡ true)
          × All (λ c. c ≢ 0) notes)
        × (drivers truck db' ≡ 1)
        × ((b : TruckAssignment) × (current truck db' ≡ some b) × (b.driver ≡ driver))
        × ((u : ℕ) → u ≢ truck → drivers u db' ≡ drivers u db)
assigned truck driver notes now db v t e g here o h =
    let a : TruckAssignment = new_assignment db.next_assignment t.pk e.pk now notes in
    let ok = check-Accepts db.next_assignment now notes e t db.assignments v.keys_below h in
    let z : drivers truck db ≡ 0 = rw (sym here) ok.undriven in
    let (de, nn) = and_true (e.is_driver && e.is_active) (no_nulls notes) o in
    (
      (
        ok.is_driver,
        ok.is_active,
        z,
        (and_true e.is_driver e.is_active de).1,
        no_nulls-All notes nn,
      ),
      rw (here, (==_iff truck truck).1 refl) (omega (arith, z)),
      (
        a,
        rw (here, (==_iff truck truck).1 refl, select-count (current_of truck) db.assignments z)
            refl,
        (==_iff e.pk driver).0 (first-select (λ x. x.pk == driver) db.employees e g),
      ),
      λ u n. rw (here, ==_false truck u (λ p. n (sym p))) refl,
    )

module _ (upper : Text → Text) (current_year : ℕ) where
  -- On valid tables a post assigns a driver to a truck exactly if the employee exists, is a
  -- driver and is active, the notes hold no null character, and the truck exists, is active and
  -- has no driver: then the truck has this driver and no other afterwards, and the other trucks
  -- have as many drivers as before. Otherwise nothing changes.
  pub assign-Assigns :
      (truck driver : ℕ) (notes : Text) (now : ℕ) (db : Db)
      → IsValid db
      → (((assign upper current_year truck driver notes now db).1 ≡ db)
          × ¬ Allowed truck driver notes db)
        ⊎ Assigns truck driver notes db (assign upper current_year truck driver notes now db).1
  unfolding assign
  assign-Assigns truck driver notes now db v = elim (Option-cases (truck_of truck db)) [
    | inl n ↦ rw n (inl (refl, λ w. some-ne-none w.1 (sym w.3)))
    | inr (t, f) ↦ rw f (elim (Option-cases (employee_of driver db)) [
      | inl n ↦ rw n (inl (refl, λ w. some-ne-none w.0 (sym w.2)))
      | inr (e, g) ↦
          let a : TruckAssignment = new_assignment db.next_assignment t.pk e.pk now notes in
          let here : t.pk ≡ truck =
            (==_iff t.pk truck).0 (first-select (λ x. x.pk == truck) db.trucks t f) in
          rw g (elim (Bool-cases (form_ok e notes)) [
            | inr bad ↦ rw bad (
                inl (
                  refl,
                  λ w. false≢true (
                      sym bad
                      ∙ allowed_form e notes
                          (ap (λ x. x.is_driver) (some-injective e w.0 w.2) ∙ w.4)
                          (ap (λ x. x.is_active) (some-injective e w.0 w.2) ∙ w.7) w.8),
                ))
            | inl o ↦ rw o (elim (Option-cases (check a e t db.assignments)) [
              | inr (r, h) ↦ rw h (
                  inl (
                    refl,
                    λ w. some-ne-none r (
                        sym h
                        ∙ allowed_check db.next_assignment now notes e t db.assignments
                            (ap (λ x. x.is_driver) (some-injective e w.0 w.2) ∙ w.4)
                            (ap (λ x. x.is_active) (some-injective t w.1 w.3) ∙ w.5) (rw here w.6)),
                  ))
              | inl h ↦
                  let (k, one, cur, rest) = assigned truck driver notes now db v t e g here o h in
                  rw h (inr ((e, t, refl, refl, k.0, k.1, k.2, k.3, k.4), one, cur, rest))
            ])
          ])
    ])
  ]

  -- On valid tables a truck that exists has no driver after its driver is unassigned, whether it had
  -- one or not, and no other truck gains one; for a truck that does not exist nothing changes.
  pub unassign-Clears :
      (truck now : ℕ) (db : Db)
      → IsValid db
      → Clears truck (truck_of truck db) db (unassign upper current_year truck now db).1
  unfolding unassign
  unassign-Clears truck now db v = elim (Option-cases (truck_of truck db)) [
    | inl n ↦ rw n refl
    | inr (t, f) ↦
        let here : t.pk ≡ truck =
          (==_iff t.pk truck).0 (first-select (λ x. x.pk == truck) db.trucks t f) in
        rw f (
          rw here (elim (Option-cases (current truck db)) [
            | inl n ↦ rw n (
              count-latest (current_of truck) (λ a. a.assigned_at) db.assignments n,
              λ u. omega arith,
            )
            | inr (a, g) ↦
                let q : TruckAssignment → Bool = λ r. r.pk == a.pk in
                let lt =
                  count-update_lt (current_of truck) q (end_at upper current_year now)
                    (never_current truck now) db.assignments
                    (any-latest (current_of truck) (λ r. r.assigned_at) (λ x y. y.pk == x.pk)
                      (λ x. (==_iff x.pk x.pk).1 refl) db.assignments a g) in
                rw g (
                  omega (arith, lt, v.one_current truck),
                  λ u.
                      count-update_le (current_of u) q (end_at upper current_year now)
                        (λ r s h. absurd (false≢true (sym (never_current u now r) ∙ h)))
                        db.assignments,
                )
          ]))
  ]
