-- ===== src/Attendance/Review/Answers.antt =====
-- Every answer of the review screen (attendance/views.py), and what the tables are then.
use truck.Base.{
  ℕ, ◌≡◌, refl, sym, ◌≢◌, if◌then◌else◌, All, Mem, first-Mem, true, false, ◌&&◌, none, some, inl,
  inr, List, [], ◌∷◌, arith, ◌==◌, ==_iff, Option-cases, Bool-cases,
}
use mathlib.Core.Path.{subst}
use mathlib.Core.Option.{some-ne-none}
use mathlib.Core.List.{mem-cons_self, mem-cons_of_mem}
use truck.Attendance.Record.{AttendanceRecord, Field, clean, with_date}
use truck.Attendance.Store.{Db, Error, validation_error, put, save}
use truck.Attendance.Service.Rows.{put_fresh, put-IsFresh, Rows, IsFresh, first_open, unclosed}
use truck.Attendance.Service.Invariant.{IsValid}
use truck.Attendance.Review.{
  Submitted, raises, unreadable, instant, Reply, not_found, server_error, invalid_date, rejected,
  corrected, is_pending, find_pending, reply_of, correct, post,
}

find_pending_ne :
    (k pk : ℕ) (xs : List AttendanceRecord) (r : AttendanceRecord)
    → IsFresh k xs
    → find_pending pk xs ≡ some r
    → r.pk ≢ k
find_pending_ne k pk [] r f h = cc
find_pending_ne k pk (x ∷ xs) r f h = elim (Bool-cases (x.pk == pk && is_pending x)) [
  | inl p ↦ let q : some x ≡ some r = rw p at h in ground arith
  | inr n ↦ find_pending_ne k pk xs r f.1 (rw n at h)
]

-- The row found has the key asked for, was closed automatically and has no exit.
pub find_pending_lem :
    (pk : ℕ) (xs : List AttendanceRecord) (r : AttendanceRecord)
    → find_pending pk xs ≡ some r
    → (r.pk ≡ pk) × (r.auto_closed ≡ true) × (r.exit_time ≡ none)
find_pending_lem pk [] r h = cc
find_pending_lem pk (x ∷ xs) r h = elim (Bool-cases (x.pk == pk && is_pending x)) [
  | inl p ↦ let q : some x ≡ some r = rw p at h in ground arith
  | inr n ↦ find_pending_lem pk xs r (rw n at h)
]

-- Saving over a row that is not open by one that is not open.
module _ (pk : ℕ) (r s : AttendanceRecord) (k : s.pk ≡ r.pk) (c : unclosed s ≡ false) where
  first_open-put_closed :
      (n j : ℕ) (xs : List AttendanceRecord)
      → Rows n xs
      → find_pending pk xs ≡ some r
      → first_open j (put s xs) ≡ first_open j xs
  first_open-put_closed n j [] v h = refl
  first_open-put_closed n j (x ∷ xs) v h = elim (Bool-cases (x.pk == pk && is_pending x)) [
    | inl p ↦
        let q : some x ≡ some r = rw p at h in
        let fresh : IsFresh r.pk xs = ground (arith, v.1) in ground (arith, q, put_fresh s xs)
    | inr m ↦
        let h' : find_pending pk xs ≡ some r = rw m at h in
        ground (arith, first_open-put_closed n j xs v.3 h', find_pending_ne x.pk pk xs r v.1 h')
  ]

  put-Rows_closed :
      (n : ℕ) (xs : List AttendanceRecord)
      → Rows n xs
      → find_pending pk xs ≡ some r
      → Rows n (put s xs)
  put-Rows_closed n [] v h = tt
  put-Rows_closed n (x ∷ xs) v h = elim (Bool-cases (x.pk == pk && is_pending x)) [
    | inl p ↦ let q : some x ≡ some r = rw p at h in ground (arith, q, put_fresh s xs)
    | inr m ↦
        let h' : find_pending pk xs ≡ some r = rw m at h in
        ground (
          arith,
          put-Rows_closed n xs v.3 h',
          find_pending_ne x.pk pk xs r v.1 h',
          put-IsFresh x.pk s xs v.1,
          first_open-put_closed n x.employee xs v.3 h',
        )
  ]

find_pending_fresh :
    (pk : ℕ) (xs : List AttendanceRecord) → IsFresh pk xs → find_pending pk xs ≡ none
find_pending_fresh pk [] f = refl
find_pending_fresh pk (x ∷ xs) f = ground (arith, find_pending_fresh pk xs f.1)

find_pending-put :
    (n pk : ℕ) (r s : AttendanceRecord) (xs : List AttendanceRecord)
    → s.pk ≡ pk
    → is_pending s ≡ false
    → Rows n xs
    → find_pending pk xs ≡ some r
    → find_pending pk (put s xs) ≡ none
find_pending-put n pk r s [] k c v h = cc
find_pending-put n pk r s (x ∷ xs) k c v h = elim (Bool-cases (x.pk == s.pk)) [
  | inl p ↦
      let f : IsFresh s.pk xs = subst (λ i. IsFresh i xs) ((==_iff x.pk s.pk).0 p) v.1 in
      let d : (s.pk == pk && is_pending s) ≡ false = ground arith in
      rw p (rw (put_fresh s xs f) (rw d (find_pending_fresh pk xs (subst (λ i. IsFresh i xs) k f))))
  | inr m ↦
      let q : (x.pk == pk && is_pending x) ≡ false = ground arith in
      ground (arith, q, find_pending-put n pk r s xs k c v.3 (rw q at h))
]

-- A row with the key that was closed automatically and has no exit.
abbrev pub IsPending : ℕ → AttendanceRecord → Type 0
IsPending pk r = (r.pk ≡ pk) × (r.auto_closed ≡ true) × (r.exit_time ≡ none)

none-IsPending :
    (pk : ℕ) (xs : List AttendanceRecord)
    → find_pending pk xs ≡ none
    → All (λ x. ¬ IsPending pk x) xs
none-IsPending pk [] h = tt
none-IsPending pk (x ∷ xs) h = elim (Bool-cases (x.pk == pk && is_pending x)) [
  | inl p ↦ let q : some x ≡ none = rw p at h in absurd (some-ne-none x q)
  | inr n ↦
      let q : find_pending pk xs ≡ none = rw n at h in
      (λ w. ground (arith, n, w.0, w.1, w.2), none-IsPending pk xs q)
]

put-Mem :
    (pk : ℕ) (s r : AttendanceRecord) (xs : List AttendanceRecord)
    → s.pk ≡ pk
    → find_pending pk xs ≡ some r
    → Mem s (put s xs)
put-Mem pk s r [] k h = absurd (some-ne-none r (sym h))
put-Mem pk s r (x ∷ xs) k h = elim (Bool-cases (x.pk == s.pk)) [
  | inl p ↦ rw p mem-cons_self
  | inr n ↦
      let m : (x.pk == pk) ≡ false = rw k at n in
      let q : find_pending pk xs ≡ some r = rw m at h in
      mem-cons_of_mem (if x.pk == s.pk then s else x) (put-Mem pk s r xs k q)
]

-- The row of a correction: a pending row of the table with the submitted exit.
abbrev pub exit_at : ℕ → AttendanceRecord → AttendanceRecord
exit_at t r = with_date (record r { exit_time = some t })

-- The submitted instant was refused for a pending row: it does not pass the validation.
pub record Rejects (pk : ℕ) (t : Submitted) (rows : List AttendanceRecord) (e : Error)
    : Type 0 where
  pub old : AttendanceRecord
  pub known : Mem old rows
  pub was_pending : IsPending pk old
  pub exit : ℕ
  pub submitted : t ≡ instant exit
  pub fields : Field × Field
  pub fails : clean (exit_at exit old) ≡ some fields
  pub error : e ≡ validation_error fields

-- A pending row of the table has the submitted exit, passes the validation and stands in the table, over
-- the rows with its key; the other rows are as they were, and no row with the key is pending.
pub record Corrects (pk : ℕ) (t : Submitted) (db : Db) (row : AttendanceRecord) (db' : Db)
    : Type 0 where
  pub old : AttendanceRecord
  pub known : Mem old db.records
  pub was_pending : IsPending pk old
  pub exit : ℕ
  pub submitted : t ≡ instant exit
  pub corrected_row : row ≡ exit_at exit old
  pub passes : clean row ≡ none
  pub stored : Mem row db'.records
  pub written : db'.records ≡ put row db.records
  pub settled : All (λ x. ¬ IsPending pk x) db'.records
  pub staff : db'.employees ≡ db.employees
  pub events : db'.events ≡ db.events
  pub opened : (j : ℕ) → first_open j db'.records ≡ first_open j db.records

-- What an answer of the screen comes with.
abbrev pub Answers : ℕ → Submitted → Db → Reply × Db → Type 0
Answers pk t db (not_found, db') = (db' ≡ db) × All (λ x. ¬ IsPending pk x) db.records
Answers pk t db (server_error, db') = (db' ≡ db) × (t ≡ raises)
Answers pk t db (invalid_date, db') = (db' ≡ db) × (t ≡ unreadable)
Answers pk t db (rejected e, db') = (db' ≡ db) × Rejects pk t db.records e
Answers pk t db (corrected row, db') = Corrects pk t db row db'

module _ (clock : ℕ → ℕ) (pk : ℕ) (db : Db) (v : IsValid clock db) where
  correction :
      (r : AttendanceRecord) (t : ℕ)
      → find_pending pk db.records ≡ some r
      → let a = reply_of (save (record r { exit_time = some t }) db) in
        IsValid clock a.1 × Answers pk (instant t) db a
  unfolding save
  correction r t h =
      let s = exit_at t r in
      let was = find_pending_lem pk db.records r h in
      let known = first-Mem (λ x. x.pk == pk && is_pending x) db.records r h in
      let opened =
        λ (j : ℕ). first_open-put_closed pk r s refl refl db.next_record j db.records v.rows h in
      elim (Option-cases (clean s)) [
        | inl c ↦ rw c (
          record {
            rows = put-Rows_closed pk r s refl refl db.next_record db.records v.rows h;
            past = v.past;
            punched = λ j. rw (opened j) (v.punched j);
          },
          record {
            old = r;
            known = known;
            was_pending = was;
            exit = t;
            submitted = refl;
            corrected_row = refl;
            passes = c;
            stored = put-Mem pk s r db.records was.0 h;
            written = refl;
            settled =
                none-IsPending pk (put s db.records)
                  (find_pending-put db.next_record pk r s db.records was.0 (ground arith) v.rows h);
            staff = refl;
            events = refl;
            opened = opened;
          },
        )
        | inr (fields, c) ↦ rw c (
          v,
          (
            refl,
            record {
              old = r;
              known = known;
              was_pending = was;
              exit = t;
              submitted = refl;
              fields = fields;
              fails = c;
              error = refl;
            },
          ),
        )
      ]

  -- On valid tables every answer of the review screen keeps them valid. It is a correction: a row of the
  -- table with the key asked for, which was closed automatically and had no exit, has the submitted exit,
  -- passes validation and is stored; no row with the key is pending any more, and the other rows, the
  -- staff, the events and every employee's open record are as before. Or nothing has changed, and the
  -- answer says why: no such pending row, an instant that cannot be read, or a corrected row that does
  -- not pass validation.
  pub post-Answers :
      (t : Submitted) → IsValid clock (post pk t db).1 × Answers pk t db (post pk t db)
  unfolding post
  post-Answers t = elim (Option-cases (find_pending pk db.records)) [
    | inl h ↦ rw h (v, (refl, none-IsPending pk db.records h))
    | inr (r, h) ↦ rw h (answer r h t)
  ]
    where
      answer :
          (r : AttendanceRecord)
          → find_pending pk db.records ≡ some r
          → (t : Submitted)
          → IsValid clock (correct (some r) t db).1 × Answers pk t db (correct (some r) t db)
      answer r h raises = (v, (refl, refl))
      answer r h unreadable = (v, (refl, refl))
      answer r h (instant t) = correction r t h
