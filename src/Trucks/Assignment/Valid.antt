-- ===== src/Trucks/Assignment/Valid.antt =====
-- At most one driver for a truck (trucks/models.py, trucks/views.py).
use truck.Base.{
  ℕ, suc, ◌≤◌, ◌<◌, ◌≡◌, refl, sym, ◌∙◌, Bool, true, false, not, ◌&&◌, none, some, inl, inr, List,
  [], ◌∷◌, arith, Text, ◌==◌, ==_iff, Bool-cases, Option-cases, any, update, count, All, All-mono,
  All-update, count-update_le, count-update_eq,
}
use mathlib.Core.Bool.{false≢true}
use mathlib.Core.Option.{some-ne-none}
use truck.Employees.Model.{Employee}
use truck.Trucks.Model.{Truck}
use truck.Trucks.Assignment.{
  TruckAssignment, Db, current_of, check, current, truck_of, employee_of, new_assignment, form_ok,
  assign, unassign,
}

pub record IsValid (db : Db) : Type 0 where
  pub one_current : (t : ℕ) → count (current_of t) db.assignments ≤ 1
  pub keys_below : All (λ a. a.pk < db.next_assignment) db.assignments
  pub one_key : (i : ℕ) → count (λ a. a.pk == i) db.assignments ≤ 1

count_below :
    (n i : ℕ) (rows : List TruckAssignment)
    → All (λ r. r.pk < n) rows
    → n ≤ i
    → count (λ r. r.pk == i) rows ≡ 0
count_below n i [] h k = refl
count_below n i (r ∷ rs) (a, h) k = ground (arith, count_below n i rs h k)

-- What a new assignment finds if `check` accepts it.
pub record Accepts (driver : Employee) (t : Truck) (rows : List TruckAssignment) : Type 0 where
  pub is_driver : driver.is_driver ≡ true
  pub is_active : t.is_active ≡ true
  pub undriven : count (current_of t.pk) rows ≡ 0

no_conflict :
    (t n : ℕ) (rows : List TruckAssignment)
    → All (λ r. r.pk < n) rows
    → any (λ r. current_of t r && not (r.pk == n)) rows ≡ false
    → count (current_of t) rows ≡ 0
no_conflict t n [] b h = refl
no_conflict t n (r ∷ rs) (b, bs) h =
    let k : (r.pk == n) ≡ false = ground arith in
    elim (Bool-cases (current_of t r)) [
      | inl c ↦ let q : true ≡ false = rw (c, k) at h in absurd (false≢true (sym q))
      | inr c ↦
          let q : any (λ s. current_of t s && not (s.pk == n)) rs ≡ false = rw c at h in
          rw c (no_conflict t n rs bs q)
    ]

pub check-Accepts :
    (pk now : ℕ) (notes : Text) (driver : Employee) (t : Truck) (rows : List TruckAssignment)
    → All (λ r. r.pk < pk) rows
    → check (new_assignment pk t.pk driver.pk now notes) driver t rows ≡ none
    → Accepts driver t rows
unfolding check
check-Accepts pk now notes driver t rows b h = elim (Bool-cases driver.is_driver) [
  | inr n ↦ absurd (some-ne-none _ (rw n at h))
  | inl d ↦ elim (Bool-cases t.is_active) [
    | inr n ↦ absurd (some-ne-none _ (rw (d, n) at h))
    | inl a ↦ elim (Bool-cases (any (λ r. current_of t.pk r && not (r.pk == pk)) rows)) [
      | inl c ↦ absurd (some-ne-none _ (rw (d, a, c) at h))
      | inr c ↦ record { is_driver = d; is_active = a; undriven = no_conflict t.pk pk rows b c }
    ]
  ]
]

added-IsValid :
    (a : TruckAssignment) (db : Db)
    → a.pk ≡ db.next_assignment
    → count (current_of a.truck) db.assignments ≡ 0
    → IsValid db
    → IsValid
        (record db { assignments = a ∷ db.assignments; next_assignment = suc db.next_assignment })
added-IsValid a db k z v = record {
  one_current = λ t. elim (Bool-cases (a.truck == t)) [
    | inl s ↦
        let z' : count (current_of t) db.assignments ≡ 0 = rw (sym ((==_iff a.truck t).0 s)) z in
        ground (arith, z')
    | inr n ↦ rw n (v.one_current t)
  ];
  keys_below = (
    omega (arith, k),
    All-mono (λ r. r.pk < db.next_assignment) (λ r. r.pk < suc db.next_assignment)
        (λ r h. omega (arith, h)) db.assignments v.keys_below,
  );
  one_key = λ i. elim (Bool-cases (a.pk == i)) [
    | inl s ↦
        let z' : count (λ r. r.pk == i) db.assignments ≡ 0 =
          count_below db.next_assignment i db.assignments v.keys_below
            (ground (arith, (==_iff a.pk i).0 s, k)) in
        rw s (omega (arith, z'))
    | inr n ↦ rw n (v.one_key i)
  ];
}

pub never_current :
    (t now : ℕ) (a : TruckAssignment) → current_of t (record a { unassigned_at = some now }) ≡ false
never_current t now a = elim (Bool-cases (a.truck == t)) [ inl s ↦ rw s refl | inr n ↦ rw n refl ]

ended-IsValid :
    (pk now : ℕ) (db : Db)
    → IsValid db
    → IsValid (record db {
      assignments =
          update (λ r. r.pk == pk) (λ r. record r { unassigned_at = some now }) db.assignments;
    })
ended-IsValid pk now db v =
    let q : TruckAssignment → Bool = λ r. r.pk == pk in
    let f : TruckAssignment → TruckAssignment = λ r. record r { unassigned_at = some now } in
    record {
      one_current = λ t.
          let le =
            count-update_le (current_of t) q f
              (λ r s h. absurd (false≢true (sym (never_current t now r) ∙ h))) db.assignments in
          omega (arith, le, v.one_current t);
      keys_below =
          All-update (λ r. r.pk < db.next_assignment) q f (λ r h. h) db.assignments v.keys_below;
      one_key =
          λ i. rw (count-update_eq (λ r. r.pk == i) q f (λ r. refl) db.assignments) (v.one_key i);
    }

module _ (upper : Text → Text) (current_year : ℕ) where
  pub assign-IsValid :
      (truck driver : ℕ) (notes : Text) (now : ℕ) (db : Db)
      → IsValid db
      → IsValid (assign upper current_year truck driver notes now db).1
  unfolding assign
  assign-IsValid truck driver notes now db v = elim (Option-cases (truck_of truck db)) [
    | inl n ↦ rw n v
    | inr (t, f) ↦ rw f (elim (Option-cases (employee_of driver db)) [
      | inl n ↦ rw n v
      | inr (e, g) ↦
          let a : TruckAssignment = new_assignment db.next_assignment t.pk e.pk now notes in
          rw g (elim (Bool-cases (form_ok e notes)) [
            | inr n ↦ rw n v
            | inl o ↦ rw o (elim (Option-cases (check a e t db.assignments)) [
              | inr (r, h) ↦ rw h v
              | inl h ↦
                  let ok =
                    check-Accepts db.next_assignment now notes e t db.assignments v.keys_below h in
                  rw h (added-IsValid a db refl ok.undriven v)
            ])
          ])
    ])
  ]

  pub unassign-IsValid :
      (truck now : ℕ) (db : Db) → IsValid db → IsValid (unassign upper current_year truck now db).1
  unfolding unassign
  unassign-IsValid truck now db v = elim (Option-cases (truck_of truck db)) [
    | inl n ↦ rw n v
    | inr (t, f) ↦ rw f (elim (Option-cases (current t.pk db)) [
      | inl n ↦ rw n v
      | inr (a, g) ↦ rw g (ended-IsValid a.pk now db v)
    ])
  ]

  -- What may happen to the tables: a post of one of the two views, and any change of trucks and staff.
  pub data Step : Db → Db → Type 0 where
    assigning :
        {db : Db} (truck driver : ℕ) (notes : Text) (now : ℕ)
        → Step db (assign upper current_year truck driver notes now db).1
    unassigning : {db : Db} (truck now : ℕ) → Step db (unassign upper current_year truck now db).1
    edits :
        {db : Db} (ts : List Truck) (es : List Employee)
        → Step db (record db { trucks = ts; employees = es })

  pub data Reach : Db → Db → Type 0 where
    start : {db : Db} → Reach db db
    step : {db db' db'' : Db} → Reach db db' → Step db' db'' → Reach db db''

  Step-IsValid : {db db' : Db} → Step db db' → IsValid db → IsValid db'
  Step-IsValid (assigning {db} truck driver notes now) v =
      assign-IsValid truck driver notes now db v
  Step-IsValid (unassigning {db} truck now) v = unassign-IsValid truck now db v
  Step-IsValid (edits {db} ts es) v = record {
    one_current = v.one_current;
    keys_below = v.keys_below;
    one_key = v.one_key;
  }

  -- From valid tables, whatever drivers are assigned and unassigned and however trucks and staff are
  -- edited in between, no truck has two current assignments, and the keys stay distinct.
  pub assigning-IsValid : {db db' : Db} → Reach db db' → IsValid db → IsValid db'
  assigning-IsValid start v = v
  assigning-IsValid (step r s) v = Step-IsValid s (assigning-IsValid r v)
