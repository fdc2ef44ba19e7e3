-- ===== src/Live.antt =====
-- The live updates of the list pages: the `_poll_response` and `_update_response` methods of the views
-- (employees/views.py, visitors/views.py, trucks/views.py, accounts/views.py, attendance/views.py).
-- An instant is a number of microseconds. The text of an instant that a response hands out is taken to
-- be read back as that instant.
pub mod Order
pub mod Polls
pub mod Follow
pub mod Pages
mod Examples
use truck.Base.{
  ℕ, zero, suc, Bool, true, false, not, ◌&&◌, Option, none, some, List, [], ◌∷◌, if◌then◌else◌, ltb,
  select, take, map,
}

-- The limit of the polls.
abbrev pub live_poll_limit : ℕ
live_poll_limit = 50

-- What `parse_datetime` makes of the submitted text: it raises `ValueError` for a text of the right
-- form that is no date, and answers `None` for any other text that it cannot read.
pub data Since : Type 0 where
  raises unreadable : Since
  instant : ℕ → Since

-- The rows of a poll, and the instant it hands out, if it is not the text that was submitted.
pub record Polled {ℓ} (A : Type ℓ) : Type ℓ where
  pub rows : List A
  pub newest : Option ℕ

-- The rows to show, the ones to take away, and the instant.
pub record Updated {ℓ} (A : Type ℓ) : Type ℓ where
  pub visible : List A
  pub removed : List A
  pub newest : Option ℕ

pub data Response {ℓ} (A : Type ℓ) : Type ℓ where
  server_error : Response A
  answered : A → Response A

module _ {ℓ} {A : Type ℓ} (key : A → ℕ) where
  -- `order_by('-key')`: of rows with the same key the one listed first comes first.
  abbrev pub place : A → List A → List A
  place x [] = x ∷ []
  place x (y ∷ ys) = if ltb (key x) (key y) then y ∷ place x ys else x ∷ y ∷ ys

  abbrev pub newest_first : List A → List A
  newest_first [] = []
  newest_first (x ∷ xs) = place x (newest_first xs)

  abbrev pub newer : ℕ → List A → List A
  newer t rows = select (λ r. ltb t (key r)) rows

  -- `filter(key__gt=since).order_by('-key')[:LIVE_POLL_LIMIT]`
  unfoldable pub latest_rows : ℕ → List A → List A
  latest_rows t rows = take live_poll_limit (newest_first (newer t rows))

  abbrev pub first_key : List A → Option ℕ
  first_key [] = none
  first_key (r ∷ rs) = some (key r)

  -- `_poll_response`: `shown` is the view's own filter, on the key of a row's creation.
  unfoldable pub poll : (A → Bool) → Since → List A → Response (Polled A)
  poll shown raises rows = server_error
  poll shown unreadable rows = answered (record { rows = []; newest = none })
  poll shown (instant t) rows =
      let found = latest_rows t (select shown rows) in
      answered (record { rows = found; newest = first_key found })

  -- `_update_response`: `matches` is the search, and `shown` the test of the page's filter.
  unfoldable pub update_rows : (A → Bool) → (A → Bool) → Since → List A → Response (Updated A)
  update_rows matches shown raises rows = server_error
  update_rows matches shown unreadable rows =
      answered (record { visible = []; removed = []; newest = none })
  update_rows matches shown (instant t) rows =
      let candidates = latest_rows t (select matches rows) in
      answered (record {
        visible = select shown candidates;
        removed = select (λ r. not (shown r)) candidates;
        newest = first_key candidates;
      })
