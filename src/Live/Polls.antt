-- ===== src/Live/Polls.antt =====
-- What the live updates show of the rows that are new or changed.
use truck.Base.{
  ℕ, ◌+◌, ◌≤◌, ◌<◌, ◌≡◌, refl, sym, ap, ◌∙◌, Bool, true, false, not, Option, none, some, inl, inr,
  List, [], ◌∷◌, arith, ltb, if◌then◌else◌, Bool-cases, select, take, length, count, All,
  select-All, select-count,
}
use mathlib.Core.Path.{subst}
use truck.Live.{
  newest_first, newer, live_poll_limit, latest_rows, first_key, Since, raises, unreadable, instant,
  Updated, Response, answered, server_error, update_rows,
}
use truck.Live.Order.{
  count-newest_first, AtMost, Heads, newest_first-Heads, All-newest_first, take-all, length-take_le,
  length-newest_first,
}

module _ {A : Type 0} (key : A → ℕ) where
  abbrev pub or_since : ℕ → Option ℕ → ℕ
  or_since t none = t
  or_since t (some u) = u

  -- The instant that the next request submits.
  abbrev pub next_since : ℕ → List A → ℕ
  next_since t found = or_since t (first_key key found)

  none_above : (t : ℕ) (xs : List A) → All (AtMost key t) xs → newer key t xs ≡ []
  none_above t [] a = refl
  none_above t (x ∷ xs) (h, a) =
      let f : ltb t (key x) ≡ false = ground arith in rw f (none_above t xs a)

  count_none_above :
      (t : ℕ) (xs : List A) → All (AtMost key t) xs → count (λ r. ltb t (key r)) xs ≡ 0
  count_none_above t [] a = refl
  count_none_above t (x ∷ xs) (h, a) =
      let f : ltb t (key x) ≡ false = ground arith in rw f (count_none_above t xs a)

  newer-newer : (t u : ℕ) (xs : List A) → t ≤ u → newer key u (newer key t xs) ≡ newer key u xs
  newer-newer t u [] h = refl
  newer-newer t u (x ∷ xs) h = elim (Bool-cases (ltb t (key x))) [
    | inl k ↦ rw k (ap (λ l. if ltb u (key x) then x ∷ l else l) (newer-newer t u xs h))
    | inr k ↦ let f : ltb u (key x) ≡ false = ground arith in rw (k, f) (newer-newer t u xs h)
  ]

  newer_above : (t : ℕ) (xs : List A) → All (λ r. t < key r) (newer key t xs)
  newer_above t [] = tt
  newer_above t (x ∷ xs) = elim (Bool-cases (ltb t (key x))) [
    | inl k ↦ rw k (ground arith, newer_above t xs)
    | inr k ↦ rw k (newer_above t xs)
  ]

  length_none : (xs : List A) → length xs ≡ 0 → xs ≡ []
  length_none [] h = refl
  length_none (x ∷ xs) h = absurd (omega (arith, h))

  -- After the instant that is handed out for the ordered rows, there is none newer.
  ordered_newer :
      (t : ℕ) (xs l : List A)
      → newest_first key (newer key t xs) ≡ l
      → (t ≤ next_since t (take live_poll_limit l))
        × (newer key (next_since t (take live_poll_limit l)) xs ≡ [])
  ordered_newer t xs [] e =
      let z : length (newer key t xs) ≡ 0 =
        sym (length-newest_first key (newer key t xs)) ∙ ap length e in
      (omega arith, length_none (newer key t xs) z)
  ordered_newer t xs (x ∷ l) e =
      let above : All (λ r. t < key r) (x ∷ l) =
        subst (All (λ r. t < key r)) e
          (All-newest_first key (λ r. t < key r) (newer key t xs) (newer_above t xs)) in
      let heads : Heads key (x ∷ l) =
        subst (Heads key) e (newest_first-Heads key (newer key t xs)) in
      let le : t ≤ key x = omega (arith, above.0) in
      let z : count (λ r. ltb (key x) (key r)) (newer key t xs) ≡ 0 =
        sym (count-newest_first key (λ r. ltb (key x) (key r)) (newer key t xs))
        ∙ ap (count (λ r. ltb (key x) (key r))) e
        ∙ count_none_above (key x) (x ∷ l) heads in
      (
        le,
        sym (newer-newer t (key x) xs le)
            ∙ select-count (λ r. ltb (key x) (key r)) (newer key t xs) z,
      )

  pub latest_rows-newer :
      (t : ℕ) (xs : List A)
      → (t ≤ next_since t (latest_rows key t xs))
        × (newer key (next_since t (latest_rows key t xs)) xs ≡ [])
  unfolding latest_rows
  latest_rows-newer t xs = ordered_newer t xs (newest_first key (newer key t xs)) refl

  -- At most as many rows as the limit, and all that are newer if they are not more.
  pub latest_rows_le : (t : ℕ) (xs : List A) → length (latest_rows key t xs) ≤ 50
  unfolding latest_rows
  latest_rows_le t xs = length-take_le key live_poll_limit (newest_first key (newer key t xs))

  pub count-latest_rows :
      (p : A → Bool) (t : ℕ) (xs : List A)
      → length (newer key t xs) ≤ 50
      → count p (latest_rows key t xs) ≡ count p (newer key t xs)
  unfolding latest_rows
  count-latest_rows p t xs h =
      ap (count p) (
        take-all key live_poll_limit (newest_first key (newer key t xs))
          (rw (length-newest_first key (newer key t xs)) h))
      ∙ count-newest_first key p (newer key t xs)

  select-not :
      (p q : A → Bool) (xs : List A)
      → count p (select q xs) + count p (select (λ r. not (q r)) xs) ≡ count p xs
  select-not p q [] = omega arith
  select-not p q (x ∷ xs) = elim (Bool-cases (q x)) [
    | inl k ↦ rw k (ground (arith, select-not p q xs))
    | inr k ↦ rw k (ground (arith, select-not p q xs))
  ]

  -- What an update says: its two lists split the changed rows, exactly if they are not more than the
  -- limit, by whether they are to be shown, and nothing has changed after the instant handed out.
  abbrev pub Splits : (A → Bool) → (A → Bool) → Since → List A → Response (Updated A) → Type 0
  Splits matches shown (instant t) rows (answered u) =
      All (λ r. shown r ≡ true) u.visible
      × All (λ r. not (shown r) ≡ true) u.removed
      × (length (newer key t (select matches rows)) ≤ 50
          → (p : A → Bool)
          → count p u.visible + count p u.removed ≡ count p (newer key t (select matches rows)))
      × (newer key (or_since t u.newest) (select matches rows) ≡ [])
  Splits matches shown (instant t) rows server_error = ⊥
  Splits matches shown unreadable rows (answered u) =
      (u.visible ≡ []) × (u.removed ≡ []) × (u.newest ≡ none)
  Splits matches shown unreadable rows server_error = ⊥
  Splits matches shown raises rows r = r ≡ server_error

  -- Every row that matches the search and has changed since is either to be shown or to be taken away,
  -- as the page's filter says, and is named once, if no more than fifty have; and none of them has
  -- changed after the instant that the response hands out. A text that is no instant gives no rows,
  -- and one with an impossible date ends in a server error.
  pub update_rows-Splits :
      (matches shown : A → Bool) (since : Since) (rows : List A)
      → Splits matches shown since rows (update_rows key matches shown since rows)
  unfolding update_rows
  update_rows-Splits matches shown raises rows = refl
  update_rows-Splits matches shown unreadable rows = (refl, refl, refl)
  update_rows-Splits matches shown (instant t) rows =
      let found = latest_rows key t (select matches rows) in
      (
        select-All shown found,
        select-All (λ r. not (shown r)) found,
        λ h p. select-not p shown found ∙ count-latest_rows p t (select matches rows) h,
        (latest_rows-newer t (select matches rows)).1,
      )
