-- ===== src/Attendance/Service/Sweep.antt =====
-- The scheduled command that flags abandoned records
-- (attendance/management/commands/auto_close_stale_attendance.py).
use truck.Base.{
  ℕ, suc, ◌+◌, ◌≤◌, ◌<◌, ◌≡◌, refl, sym, ap, ◌∙◌, Bool, true, false, ◌++◌, ◌⊎◌, inl, inr, Option,
  none, some, List, [], ◌∷◌, map, arith, leb, leb→le, Bool-cases, Option-cases, ◌==◌, ==_iff,
  select, All,
}
use mathlib.Core.Path.{subst, subst₂}
use mathlib.Core.Option.{some-ne-none}
use truck.Attendance.Record.{AttendanceRecord, clean, with_date}
use truck.Attendance.Store.{Db, Result, ok, put, Action, ◌>>=◌, pure, resume_ok}
use truck.Attendance.Service.{max_open_duration, last_event, auto_close_if_stale}
use truck.Attendance.Service.Rows.{first_open, unclosed, first_open-put, first_open_is_open}
use truck.Attendance.Service.Invariant.{IsValid, OthersKept, Punched}
use truck.Attendance.Service.Saves.{IsMonotone, abandoned, abandoned-IsValid, read-IsValid}
use truck.Attendance.Service.Steps.{
  stale_none, stale_fresh, stale_closed, reading-OthersKept, abandoned-OthersKept,
}

-- `values_list('employee_id')` of the open rows, the latest first.
abbrev pub stale_employee_ids : List AttendanceRecord → List ℕ
stale_employee_ids rows = map (λ r. r.employee) (select unclosed rows)

abbrev pub keep_some {ℓ} : {A : Type ℓ} → Option A → List A → List A
keep_some none xs = xs
keep_some (some x) xs = x ∷ xs

-- The comprehension of `handle`: the rows that were closed, in the order of the employees.
unfoldable pub close_each : (ℕ → ℕ) → (ℕ → ℕ) → List ℕ → Action (List AttendanceRecord)
close_each clock localtime [] = pure []
close_each clock localtime (e ∷ es) = do
  gone ← auto_close_if_stale clock localtime e
  rest ← close_each clock localtime es
  pure (keep_some gone rest)

unfoldable pub handle : (ℕ → ℕ) → (ℕ → ℕ) → Action (List AttendanceRecord)
handle clock localtime db = close_each clock localtime (stale_employee_ids db.records) db

-- An open record that was within the limit at `t`, if there is one.
abbrev pub IsFreshAt : ℕ → Option AttendanceRecord → Type 0
IsFreshAt t none = Unit
IsFreshAt t (some r) = t ≤ r.entry_time + max_open_duration

-- The rows saved one after the other.
abbrev pub put_all : List AttendanceRecord → List AttendanceRecord → List AttendanceRecord
put_all [] xs = xs
put_all (s ∷ ss) xs = put_all ss (put s xs)

abbrev pub of_employee : ℕ → AttendanceRecord → Bool
of_employee j r = r.employee == j

-- The open record of the employee was over the limit and is flagged, and it alone is listed.
pub record Flagged (clock : ℕ → ℕ) (j : ℕ) (db b : Db) (closed : List AttendanceRecord)
    : Type 0 where
  pub row : AttendanceRecord
  pub was_open : first_open j db.records ≡ some row
  pub over : row.entry_time + max_open_duration < clock b.reads
  pub listed : select (of_employee j) closed ≡ with_date (record row { auto_closed = true }) ∷ []
  pub gone : first_open j b.records ≡ none

-- What became of an employee's open record between two tables: it is as it was, and no row of the
-- employee is listed, or it is flagged.
abbrev pub Fate : (ℕ → ℕ) → ℕ → Db → Db → List AttendanceRecord → Type 0
Fate clock j db b closed =
    ((first_open j b.records ≡ first_open j db.records) × (select (of_employee j) closed ≡ []))
    ⊎ Flagged clock j db b closed

-- What one call of `auto_close_if_stale` has done.
record Closes (clock : ℕ → ℕ) (e : ℕ) (db : Db) (r : Result (Option AttendanceRecord) × Db)
    : Type 0 where
  result : Option AttendanceRecord
  done : r.0 ≡ ok result
  valid : IsValid clock r.1
  others : OthersKept e db r.1
  events : r.1.events ≡ db.events
  later : db.reads ≤ r.1.reads
  fresh : IsFreshAt (clock db.reads) (first_open e r.1.records)
  fate : Fate clock e db r.1 (keep_some result [])
  owner : All (λ x. x.employee ≡ e) (keep_some result [])
  written : r.1.records ≡ put_all (keep_some result []) db.records

select-keep_some :
    (q : AttendanceRecord → Bool) (o : Option AttendanceRecord) (xs : List AttendanceRecord)
    → select q (keep_some o xs) ≡ select q (keep_some o []) ++ select q xs
select-keep_some q none xs = refl
select-keep_some q (some x) xs = elim (Bool-cases (q x)) [ inl t ↦ rw t refl | inr n ↦ rw n refl ]

put_all-keep_some :
    (o : Option AttendanceRecord) (xs rows : List AttendanceRecord)
    → put_all (keep_some o xs) rows ≡ put_all xs (put_all (keep_some o []) rows)
put_all-keep_some none xs rows = refl
put_all-keep_some (some x) xs rows = refl

none_of :
    (e j : ℕ) (o : Option AttendanceRecord)
    → (e == j) ≡ false
    → All (λ x. x.employee ≡ e) (keep_some o [])
    → select (of_employee j) (keep_some o []) ≡ []
none_of e j none n h = refl
none_of e j (some x) n (h, hs) = let q : (x.employee == j) ≡ false = rw h n in rw q refl

listed :
    (P : ℕ → Type 0) (j : ℕ) (rows : List AttendanceRecord) (r : AttendanceRecord)
    → first_open j rows ≡ some r
    → All P (stale_employee_ids rows)
    → P j
listed P j [] r h a = cc
listed P j (x ∷ xs) r h a = elim (Bool-cases (unclosed x)) [
  | inl u ↦
      let b : P x.employee × All P (stale_employee_ids xs) = rw u at a in
      elim (Bool-cases (x.employee == j)) [
        | inl p ↦ subst P ((==_iff x.employee j).0 p) b.0
        | inr n ↦ listed P j xs r (ground arith) b.1
      ]
  | inr c ↦ let b : All P (stale_employee_ids xs) = rw c at a in listed P j xs r (ground arith) b
]

module _ (clock localtime : ℕ → ℕ) (mono : IsMonotone clock) where
  punched :
      (e : ℕ) (db : Db) (r : AttendanceRecord)
      → IsValid clock db
      → first_open e db.records ≡ some r
      → clean r ≡ none
  punched e db r v h = elim (Option-cases (last_event e db.events)) [
    | inl l ↦ absurd (subst₂ Punched h l (v.punched e))
    | inr (ev, l) ↦ (subst₂ Punched h l (v.punched e)).0
  ]

  auto_close-Closes :
      (e : ℕ) (db : Db)
      → IsValid clock db
      → Closes clock e db (auto_close_if_stale clock localtime e db)
  auto_close-Closes e db v = elim (Option-cases (first_open e db.records)) [
    | inl h ↦ rw (stale_none clock localtime mono e db v h) (record {
      result = none;
      done = refl;
      valid = v;
      others = record { staff = refl; rows = λ j d. refl; events = λ j d. refl };
      events = refl;
      later = omega arith;
      fresh = rw h tt;
      fate = inl (refl, refl);
      owner = tt;
      written = refl;
    })
    | inr (r, h) ↦ elim (Bool-cases (leb (clock db.reads) (r.entry_time + max_open_duration))) [
      | inl k ↦ rw (stale_fresh clock localtime mono e db r v h k) (record {
        result = none;
        done = refl;
        valid = read-IsValid clock mono db v;
        others = reading-OthersKept clock localtime mono e db;
        events = refl;
        later = omega arith;
        fresh = rw h (leb→le _ _ k);
        fate = inl (refl, refl);
        owner = tt;
        written = refl;
      })
      | inr k ↦
          let s = with_date (record r { auto_closed = true }) in
          let (owner, x, kept) = first_open_is_open e db.records r h in
          let gone : first_open e (abandoned clock s db).records ≡ none =
            rw (first_open-put db.next_record e db.records r s v.rows h refl owner)
              (ground arith) in
          rw (stale_closed clock localtime mono e db r v h k (punched e db r v h)) (record {
            result = some s;
            done = refl;
            valid = abandoned-IsValid clock mono e r s db v h refl owner refl;
            others = abandoned-OthersKept clock localtime mono e db r s v h refl owner;
            events = refl;
            later = omega arith;
            fresh = rw gone tt;
            fate = inr (record {
              row = r;
              was_open = h;
              over = ground (arith, mono db.reads (suc db.reads));
              listed = rw ((==_iff r.employee e).1 owner) refl;
              gone = gone;
            });
            owner = (owner, tt);
            written = refl;
          })
    ]
  ]

  -- What the loop has done: it returned, no open record of a listed employee was over the limit when
  -- the loop began, and the rows returned are those that were flagged and saved.
  pub record Sweeps (t : ℕ) (es : List ℕ) (db : Db) (r : Result (List AttendanceRecord) × Db)
      : Type 0 where
    pub result : List AttendanceRecord
    pub done : r.0 ≡ ok result
    pub valid : IsValid clock r.1
    pub staff : r.1.employees ≡ db.employees
    pub events : r.1.events ≡ db.events
    pub later : db.reads ≤ r.1.reads
    pub fresh : All (λ e. IsFreshAt t (first_open e r.1.records)) es
    pub fate : (j : ℕ) → Fate clock j db r.1 result
    pub written : r.1.records ≡ put_all result db.records

  IsFreshAt-le : (t u : ℕ) (o : Option AttendanceRecord) → t ≤ u → IsFreshAt u o → IsFreshAt t o
  IsFreshAt-le t u none h f = tt
  IsFreshAt-le t u (some r) h f = omega arith

  join-Fate :
      (j : ℕ) (a b c : Db) (o : Option AttendanceRecord) (xs : List AttendanceRecord)
      → b.reads ≤ c.reads
      → Fate clock j a b (keep_some o [])
      → Fate clock j b c xs
      → Fate clock j a c (keep_some o xs)
  join-Fate j a b c o xs le (inl (p, q)) (inl (p', q')) =
      inl (p' ∙ p, rw (select-keep_some (of_employee j) o xs) (rw (q, q') refl))
  join-Fate j a b c o xs le (inl (p, q)) (inr f) = inr (record {
    row = f.row;
    was_open = sym p ∙ f.was_open;
    over = f.over;
    listed = rw (select-keep_some (of_employee j) o xs) (rw q f.listed);
    gone = f.gone;
  })
  join-Fate j a b c o xs le (inr f) (inl (p', q')) = inr (record {
    row = f.row;
    was_open = f.was_open;
    over = omega (arith, mono b.reads c.reads le, f.over);
    listed = rw (select-keep_some (of_employee j) o xs) (rw (f.listed, q') refl);
    gone = p' ∙ f.gone;
  })
  join-Fate j a b c o xs le (inr f) (inr g) = absurd (some-ne-none g.row (sym g.was_open ∙ f.gone))

  left_open :
      (j : ℕ) (a b : Db) (closed : List AttendanceRecord)
      → Fate clock j a b closed
      → (first_open j b.records ≡ none) ⊎ (first_open j b.records ≡ first_open j a.records)
  left_open j a b closed (inl h) = inr h.0
  left_open j a b closed (inr f) = inl f.gone

  fresh_after :
      (t : ℕ) {a b : Option AttendanceRecord} → (b ≡ none) ⊎ (b ≡ a) → IsFreshAt t a → IsFreshAt t b
  fresh_after t (inl p) f = rw p tt
  fresh_after t (inr p) f = rw p f

  one-Fate :
      (e j : ℕ) (db : Db) (r : Result (Option AttendanceRecord) × Db) (c : Closes clock e db r)
      → Fate clock j db r.1 (keep_some c.result [])
  one-Fate e j db r c = elim (Bool-cases (e == j)) [
    | inl p ↦ subst (λ i. Fate clock i db r.1 (keep_some c.result [])) ((==_iff e j).0 p) c.fate
    | inr n ↦ inl (c.others.rows j (λ q. ground arith), none_of e j c.result n c.owner)
  ]

  pub close_each-Sweeps :
      (t : ℕ) (es : List ℕ) (db : Db)
      → t ≤ clock db.reads
      → IsValid clock db
      → Sweeps t es db (close_each clock localtime es db)
  unfolding close_each
  close_each-Sweeps t [] db h v = record {
    result = [];
    done = refl;
    valid = v;
    staff = refl;
    events = refl;
    later = omega arith;
    fresh = tt;
    fate = λ j. inl (refl, refl);
    written = refl;
  }
  close_each-Sweeps t (e ∷ es) db h v =
      let c = auto_close-Closes e db v in
      let db' = (auto_close_if_stale clock localtime e db).1 in
      let s = close_each-Sweeps t es db' (omega (arith, mono db.reads db'.reads c.later)) c.valid in
      rw (resume_ok (auto_close_if_stale clock localtime e db) _ c.done, close_each)
        (rw (resume_ok (close_each clock localtime es db') _ s.done) (record {
          result = keep_some c.result s.result;
          done = refl;
          valid = s.valid;
          staff = s.staff ∙ c.others.staff;
          events = s.events ∙ c.events;
          later = omega (arith, c.later, s.later);
          fresh = (
            fresh_after t (left_open e db' _ s.result (s.fate e))
                (IsFreshAt-le t (clock db.reads) _ h c.fresh),
            s.fresh,
          );
          fate = λ j.
              join-Fate j db db' (close_each clock localtime es db').1 c.result s.result s.later
                (one-Fate e j db _ c) (s.fate j);
          written =
              s.written
              ∙ ap (put_all s.result) c.written
              ∙ sym (put_all-keep_some c.result s.result db.records);
        }))

  -- What the scheduled command has done.
  pub record Handles (db : Db) (r : Result (List AttendanceRecord) × Db) : Type 0 where
    pub closed : List AttendanceRecord
    pub done : r.0 ≡ ok closed
    pub valid : IsValid clock r.1
    pub staff : r.1.employees ≡ db.employees
    pub events : r.1.events ≡ db.events
    pub written : r.1.records ≡ put_all closed db.records
    pub fresh : (j : ℕ) → IsFreshAt (clock db.reads) (first_open j r.1.records)
    pub fate : (j : ℕ) → Fate clock j db r.1 closed

  -- The scheduled command, started on valid tables under a clock that does not run backwards,
  -- returns, and saves the rows that it returns over those with their keys and changes no other row, no
  -- employee and no event. For each employee either the open record is as before and no row of the
  -- employee is returned, or it was over the limit, and the only row of the employee that is returned
  -- is this record flagged as closed, and the employee has no open record afterwards. No open record is
  -- left that was open for longer than the limit when the command started, and the tables stay valid.
  pub handle_leaves_fresh : (db : Db) → IsValid clock db → Handles db (handle clock localtime db)
  unfolding handle
  handle_leaves_fresh db v =
      let s =
        close_each-Sweeps (clock db.reads) (stale_employee_ids db.records) db (omega arith) v in
      record {
        closed = s.result;
        done = s.done;
        valid = s.valid;
        staff = s.staff;
        events = s.events;
        written = s.written;
        fresh = λ j. elim (left_open j db _ s.result (s.fate j)) [
          | inl gone ↦ rw gone tt
          | inr same ↦ elim (Option-cases (first_open j db.records)) [
            | inl closed ↦ rw (same, closed) tt
            | inr (r, h) ↦
                listed
                  (λ e.
                    IsFreshAt (clock db.reads) (first_open e (handle clock localtime db).1.records))
                  j db.records r h s.fresh
          ]
        ];
        fate = s.fate;
      }
