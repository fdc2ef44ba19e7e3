-- ===== src/Live/Order.antt =====
-- Ordering and cutting the rows of a live update.
use truck.Base.{
  ℕ, zero, suc, ◌≤◌, ◌≡◌, refl, ap, ◌∙◌, Bool, inl, inr, List, [], ◌∷◌, arith, ltb, Bool-cases,
  take, length, count, All,
}
use truck.Live.{place, newest_first}

module _ {ℓ} {A : Type ℓ} (key : A → ℕ) where
  -- Ordering counts what was there.
  count-place : (p : A → Bool) (x : A) (ys : List A) → count p (place key x ys) ≡ count p (x ∷ ys)
  count-place p x [] = refl
  count-place p x (y ∷ ys) = elim (Bool-cases (ltb (key x) (key y))) [
    | inr n ↦ rw n refl
    | inl t ↦ rw t (ground (arith, count-place p x ys))
  ]

  pub count-newest_first : (p : A → Bool) (xs : List A) → count p (newest_first key xs) ≡ count p xs
  count-newest_first p [] = refl
  count-newest_first p (x ∷ xs) = elim (Bool-cases (p x)) [
    | inl t ↦ count-place p x (newest_first key xs) ∙ rw (t, count-newest_first p xs) refl
    | inr n ↦ count-place p x (newest_first key xs) ∙ rw (n, count-newest_first p xs) refl
  ]

  -- No row has a greater key than the first.
  abbrev pub AtMost : ℕ → A → Type 0
  AtMost t r = key r ≤ t

  abbrev pub Heads : List A → Type 0
  Heads [] = Unit
  Heads (x ∷ xs) = All (AtMost (key x)) (x ∷ xs)

  pub All-place {κ} :
      (P : A → Type κ) (x : A) (ys : List A) → P x → All P ys → All P (place key x ys)
  All-place P x [] h a = (h, tt)
  All-place P x (y ∷ ys) h (b, a) = elim (Bool-cases (ltb (key x) (key y))) [
    | inl k ↦ rw k (b, All-place P x ys h a)
    | inr k ↦ rw k (h, (b, a))
  ]

  pub All-newest_first {κ} : (P : A → Type κ) (xs : List A) → All P xs → All P (newest_first key xs)
  All-newest_first P [] a = tt
  All-newest_first P (x ∷ xs) (h, a) =
      All-place P x (newest_first key xs) h (All-newest_first P xs a)

  raise_to : (t u : ℕ) (xs : List A) → t ≤ u → All (AtMost t) xs → All (AtMost u) xs
  raise_to t u [] h a = tt
  raise_to t u (x ∷ xs) h (b, a) = (omega (arith, b, h), raise_to t u xs h a)

  place-Heads : (x : A) (ys : List A) → Heads ys → Heads (place key x ys)
  place-Heads x [] h = (omega arith, tt)
  place-Heads x (y ∷ ys) h = elim (Bool-cases (ltb (key x) (key y))) [
    | inl k ↦ rw k (omega arith, All-place (AtMost (key y)) x ys (ground arith) h.1)
    | inr k ↦
        let le : key y ≤ key x = ground arith in
        rw k (omega arith, raise_to (key y) (key x) (y ∷ ys) le h)
  ]

  pub newest_first-Heads : (xs : List A) → Heads (newest_first key xs)
  newest_first-Heads [] = tt
  newest_first-Heads (x ∷ xs) = place-Heads x (newest_first key xs) (newest_first-Heads xs)

  -- What is kept of a list that is not too long is the list.
  pub take-all : (n : ℕ) (xs : List A) → length xs ≤ n → take n xs ≡ xs
  take-all zero [] h = refl
  take-all zero (x ∷ xs) h = absurd (omega (arith, h))
  take-all (suc n) [] h = refl
  take-all (suc n) (x ∷ xs) h = ap (λ l. x ∷ l) (take-all n xs (omega (arith, h)))

  pub length-take_le : (n : ℕ) (xs : List A) → length (take n xs) ≤ n
  length-take_le zero xs = omega arith
  length-take_le (suc n) [] = omega arith
  length-take_le (suc n) (x ∷ xs) = omega (arith, length-take_le n xs)

  length-place : (x : A) (ys : List A) → length (place key x ys) ≡ suc (length ys)
  length-place x [] = refl
  length-place x (y ∷ ys) = elim (Bool-cases (ltb (key x) (key y))) [
    | inl k ↦ rw k (ap suc (length-place x ys))
    | inr k ↦ rw k refl
  ]

  pub length-newest_first : (xs : List A) → length (newest_first key xs) ≡ length xs
  length-newest_first [] = refl
  length-newest_first (x ∷ xs) =
      length-place x (newest_first key xs) ∙ ap suc (length-newest_first xs)

  pub All-take {κ} : (P : A → Type κ) (n : ℕ) (xs : List A) → All P xs → All P (take n xs)
  All-take P zero xs a = tt
  All-take P (suc n) [] a = tt
  All-take P (suc n) (x ∷ xs) (h, a) = (h, All-take P n xs a)
