-- ===== src/Live/Follow.antt =====
-- What a page that polls again and again is given of the rows that are added meanwhile.
use truck.Base.{
  ℕ, ◌+◌, ◌≤◌, ◌<◌, ◌≡◌, refl, sym, ap, ◌∙◌, Bool, none, inl, inr, List, [], ◌∷◌, ◌++◌, arith, ltb,
  lt→ltb, Bool-cases, select, length, count, All, All-mono, All-select,
}
use mathlib.Core.Path.{subst}
use truck.Live.{
  newest_first, newer, latest_rows, Since, raises, unreadable, instant, Polled, Response, answered,
  server_error, poll,
}
use truck.Live.Order.{All-newest_first, All-take}
use truck.Live.Polls.{or_since, next_since, latest_rows-newer, latest_rows_le, count-latest_rows}

module _ {A : Type 0} (key : A → ℕ) (shown : A → Bool) where
  abbrev pub rows_of : Response (Polled A) → List A
  rows_of server_error = []
  rows_of (answered p) = p.rows

  abbrev pub newest_of : ℕ → Response (Polled A) → ℕ
  newest_of t server_error = t
  newest_of t (answered p) = or_since key t p.newest

  -- What a poll says: at most fifty rows; all that are new, each once, if they are not more; and what
  -- is asked for with the instant handed out, before a row is added, is nothing.
  abbrev pub Delivers : Since → List A → Response (Polled A) → Type 0
  Delivers (instant t) rows (answered r) =
      (length r.rows ≤ 50)
      × (length (newer key t (select shown rows)) ≤ 50
          → (p : A → Bool) → count p r.rows ≡ count p (newer key t (select shown rows)))
      × (newer key (or_since key t r.newest) (select shown rows) ≡ [])
      × (rows_of (poll key shown (instant (or_since key t r.newest)) rows) ≡ [])
  Delivers (instant t) rows server_error = ⊥
  Delivers unreadable rows r = r ≡ answered (record { rows = []; newest = none })
  Delivers raises rows r = r ≡ server_error

  latest_rows_none : (t : ℕ) (xs : List A) → newer key t xs ≡ [] → latest_rows key t xs ≡ []
  unfolding latest_rows
  latest_rows_none t xs h = rw h refl

  -- A poll gives at most fifty rows. If no more than fifty of the shown rows were created after the
  -- submitted instant, it gives each of them once. In any case none is newer than the instant that it
  -- hands out, so that the next poll does not give what this one left out. A text that is no instant
  -- gives no rows, and one with an impossible date ends in a server error.
  pub poll-Delivers :
      (since : Since) (rows : List A) → Delivers since rows (poll key shown since rows)
  unfolding poll
  poll-Delivers raises rows = refl
  poll-Delivers unreadable rows = refl
  poll-Delivers (instant t) rows =
      let q = latest_rows-newer key t (select shown rows) in
      (
        latest_rows_le key t (select shown rows),
        λ h p. count-latest_rows key p t (select shown rows) h,
        q.1,
        latest_rows_none (next_since key t (latest_rows key t (select shown rows)))
            (select shown rows) q.1,
      )

  -- The rows that are added before a poll, and an instant that none of them is created after.
  pub record Batch : Type 0 where
    pub until : ℕ
    pub added : List A

  -- The rows that the polls give, each of which submits what the one before it handed out.
  abbrev pub follow : ℕ → List A → List Batch → List A
  follow t rows [] = []
  follow t rows (b ∷ bs) =
      let reply = poll key shown (instant t) (b.added ++ rows) in
      rows_of reply ++ follow (newest_of t reply) (b.added ++ rows) bs

  abbrev pub added_rows : List Batch → List A
  added_rows [] = []
  added_rows (b ∷ bs) = select shown b.added ++ added_rows bs

  -- Each row of a batch is created after `u` and by the end of the batch, and no more than fifty are
  -- shown.
  abbrev pub InTurn : ℕ → List Batch → Type 0
  InTurn u [] = Unit
  InTurn u (b ∷ bs) =
      All (λ r. u < key r) b.added
      × All (λ r. key r ≤ b.until) b.added
      × (u ≤ b.until)
      × (length (select shown b.added) ≤ 50)
      × InTurn b.until bs

  select-append : (p : A → Bool) (xs ys : List A) → select p (xs ++ ys) ≡ select p xs ++ select p ys
  select-append p [] ys = refl
  select-append p (x ∷ xs) ys = elim (Bool-cases (p x)) [
    | inl k ↦ rw k (ap (λ l. x ∷ l) (select-append p xs ys))
    | inr k ↦ rw k (select-append p xs ys)
  ]

  count-append : (p : A → Bool) (xs ys : List A) → count p (xs ++ ys) ≡ count p xs + count p ys
  count-append p [] ys = omega arith
  count-append p (x ∷ xs) ys = elim (Bool-cases (p x)) [
    | inl k ↦ rw k (omega (arith, count-append p xs ys))
    | inr k ↦ rw k (count-append p xs ys)
  ]

  append_none : (xs : List A) → xs ++ [] ≡ xs
  append_none [] = refl
  append_none (x ∷ xs) = ap (λ l. x ∷ l) (append_none xs)

  newer-All : (t : ℕ) (xs : List A) → All (λ r. t < key r) xs → newer key t xs ≡ xs
  newer-All t [] a = refl
  newer-All t (x ∷ xs) (h, a) = rw (lt→ltb t (key x) h) (ap (λ l. x ∷ l) (newer-All t xs a))

  above : (t u : ℕ) (xs : List A) → t ≤ u → All (λ r. u < key r) xs → All (λ r. t < key r) xs
  above t u xs h a = All-mono (λ r. u < key r) (λ r. t < key r) (λ r k. omega (arith, h, k)) xs a

  -- The rows of a batch are those that are new.
  newer_batch :
      (t u : ℕ) (rows added : List A)
      → t ≤ u
      → newer key t (select shown rows) ≡ []
      → All (λ r. u < key r) added
      → newer key t (select shown (added ++ rows)) ≡ select shown added
  newer_batch t u rows added h e a =
      ap (newer key t) (select-append shown added rows)
      ∙ select-append (λ r. ltb t (key r)) (select shown added) (select shown rows)
      ∙ ap (λ l. newer key t (select shown added) ++ l) e
      ∙ append_none (newer key t (select shown added))
      ∙ newer-All t (select shown added)
          (All-select (λ r. t < key r) shown added (above t u added h a))

  next_since_le : (t w : ℕ) (l : List A) → t ≤ w → All (λ r. key r ≤ w) l → next_since key t l ≤ w
  next_since_le t w [] h a = h
  next_since_le t w (x ∷ l) h a = a.0

  All-latest_rows :
      (w t : ℕ) (xs : List A)
      → All (λ r. key r ≤ w) (newer key t xs)
      → All (λ r. key r ≤ w) (latest_rows key t xs)
  unfolding latest_rows
  All-latest_rows w t xs a =
      All-take key (λ r. key r ≤ w) 50 (newest_first key (newer key t xs))
        (All-newest_first key (λ r. key r ≤ w) (newer key t xs) a)

  -- A page that has seen all rows, and polls again and again with the instant that the poll before
  -- handed out, is given each row that is added and shown exactly once, if the rows are created in
  -- the order in which they are added and no more than fifty of them are added between two polls.
  pub follow-InTurn :
      (p : A → Bool) (t u : ℕ) (rows : List A) (bs : List Batch)
      → t ≤ u
      → newer key t (select shown rows) ≡ []
      → InTurn u bs
      → count p (follow t rows bs) ≡ count p (added_rows bs)
  unfolding poll
  follow-InTurn p t u rows [] h e i = refl
  follow-InTurn p t u rows (b ∷ bs) h e (late, by, grows, few, i) =
      let xs = select shown (b.added ++ rows) in
      let new : newer key t xs ≡ select shown b.added = newer_batch t u rows b.added h e late in
      let q = latest_rows-newer key t xs in
      let le : next_since key t (latest_rows key t xs) ≤ b.until =
        next_since_le t b.until (latest_rows key t xs) (omega (arith, h, grows)) (
          All-latest_rows b.until t xs (
            subst (All (λ r. key r ≤ b.until)) (sym new)
              (All-select (λ r. key r ≤ b.until) shown b.added by))) in
      let one : count p (latest_rows key t xs) ≡ count p (select shown b.added) =
        count-latest_rows key p t xs (rw new few) ∙ ap (count p) new in
      let rest =
        follow-InTurn p (next_since key t (latest_rows key t xs)) b.until (b.added ++ rows) bs le
          q.1 i in
      let tail = follow (next_since key t (latest_rows key t xs)) (b.added ++ rows) bs in
      count-append p (latest_rows key t xs) tail
      ∙ omega (arith, one, rest)
      ∙ sym (count-append p (select shown b.added) (added_rows bs))
