-- ===== src/Base/Updates.antt =====
-- The updates and counts that the program makes of a table, and what they do to its rows.
use Prim.Native.Nat.{ℕ, suc, ◌≤◌, ◌<◌}
use mathlib.Core.Path.{◌≡◌, refl, sym, ◌∙◌}
use mathlib.Core.Logic.{◌≢◌, inl, inr}
use mathlib.Core.Bool.{Bool, true, false, ◌&&◌, false≢true}
use mathlib.Core.List.{List, [], ◌∷◌}
use mathlib.Core.List.{Mem, mem-cons_self, mem-cons_of_mem}
use mathlib.Core.Option.{Option, none, some, some-ne-none, some-injective}
use native.Mathlib.Omega.{arith}
use truck.Base.Tests.{ltb, Bool-cases, Option-cases, if◌then◌else◌}
use truck.Base.Lists.{All, All-mono, select, first, any, latest}

module _ {ℓ} {A : Type ℓ} where
  -- `filter(...).update(...)`, and a save of the row with a key.
  abbrev pub update : (A → Bool) → (A → A) → List A → List A
  update p f [] = []
  update p f (x ∷ xs) = (if p x then f x else x) ∷ update p f xs

  -- `filter(...).count()`
  abbrev pub count : (A → Bool) → List A → ℕ
  count p [] = 0
  count p (x ∷ xs) = if p x then suc (count p xs) else count p xs

  -- `.order_by('key').first()`: a row with the least key, of equal ones the last listed.
  abbrev pub earliest : (A → ℕ) → List A → Option A
  earliest key [] = none
  earliest key (x ∷ xs) = elim (earliest key xs) [
    | none ↦ some x
    | some y ↦ some (if ltb (key x) (key y) then x else y)
  ]

  pub count-update_le :
      (p q : A → Bool) (f : A → A)
      → ((x : A) → q x ≡ true → p (f x) ≡ true → p x ≡ true)
      → (xs : List A) → count p (update q f xs) ≤ count p xs
  count-update_le p q f h [] = omega arith
  count-update_le p q f h (x ∷ xs) = elim (Bool-cases (q x)) [
    | inr n ↦ rw n (ground (arith, count-update_le p q f h xs))
    | inl t ↦ rw t (elim (Bool-cases (p (f x))) [
      | inl i ↦ rw (i, h x t i) (omega (arith, count-update_le p q f h xs))
      | inr n ↦ rw n (ground (arith, count-update_le p q f h xs))
    ])
  ]

  pub count-update_eq :
      (p q : A → Bool) (f : A → A)
      → ((x : A) → p (f x) ≡ p x)
      → (xs : List A) → count p (update q f xs) ≡ count p xs
  count-update_eq p q f h [] = refl
  count-update_eq p q f h (x ∷ xs) = elim (Bool-cases (q x)) [
    | inl t ↦ rw (t, h x) (ground (arith, count-update_eq p q f h xs))
    | inr n ↦ rw n (ground (arith, count-update_eq p q f h xs))
  ]

  pub count-select_le : (p q : A → Bool) (xs : List A) → count p (select q xs) ≤ count p xs
  count-select_le p q [] = omega arith
  count-select_le p q (x ∷ xs) = ground (arith, count-select_le p q xs)

  pub All-update {κ} :
      (P : A → Type κ) (q : A → Bool) (f : A → A)
      → ((x : A) → P x → P (f x))
      → (xs : List A) → All P xs
      → All P (update q f xs)
  All-update P q f h [] a = tt
  All-update P q f h (x ∷ xs) (a, as') = elim (Bool-cases (q x)) [
    | inl t ↦ rw t (h x a, All-update P q f h xs as')
    | inr n ↦ rw n (a, All-update P q f h xs as')
  ]

  pub All-select {κ} :
      (P : A → Type κ) (q : A → Bool) (xs : List A) → All P xs → All P (select q xs)
  All-select P q [] a = tt
  All-select P q (x ∷ xs) (a, as') = elim (Bool-cases (q x)) [
    | inl t ↦ rw t (a, All-select P q xs as')
    | inr n ↦ rw n (All-select P q xs as')
  ]

  -- If no row is found, none is counted.
  pub count-first : (p : A → Bool) (xs : List A) → first (select p xs) ≡ none → count p xs ≡ 0
  count-first p [] h = refl
  count-first p (x ∷ xs) h = elim (Bool-cases (p x)) [
    | inl t ↦ let q : some x ≡ none = rw t at h in absurd (some-ne-none x q)
    | inr f ↦ let q : first (select p xs) ≡ none = rw f at h in rw f (count-first p xs q)
  ]

  if_either {κ} : (P : A → Type κ) (b : Bool) (x y : A) → P x → P y → P (if b then x else y)
  if_either P true x y a b' = a
  if_either P false x y a b' = b'

  some_earliest : (key : A → ℕ) (x : A) (xs : List A) → earliest key (x ∷ xs) ≢ none
  some_earliest key x xs h = elim (Option-cases (earliest key xs)) [
    | inl n ↦ let q : some x ≡ none = rw n at h in some-ne-none x q
    | inr (y, f) ↦
        let q : some (if ltb (key x) (key y) then x else y) ≡ none = rw f at h in
        some-ne-none (if ltb (key x) (key y) then x else y) q
  ]

  pub count-earliest :
      (p : A → Bool) (key : A → ℕ) (xs : List A)
      → earliest key (select p xs) ≡ none
      → count p xs ≡ 0
  count-earliest p key [] h = refl
  count-earliest p key (x ∷ xs) h = elim (Bool-cases (p x)) [
    | inl t ↦ absurd (some_earliest key x (select p xs) (rw t at h))
    | inr f ↦
        let q : earliest key (select p xs) ≡ none = rw f at h in rw f (count-earliest p key xs q)
  ]

  -- A row that is found is one of the rows and passes the test.
  pub earliest-All {κ} :
      (P : A → Type κ) (key : A → ℕ) (xs : List A)
      → All P xs
      → (x : A) → earliest key xs ≡ some x
      → P x
  earliest-All P key [] a x h = absurd (some-ne-none x (sym h))
  earliest-All P key (y ∷ ys) (a, as') x h = elim (Option-cases (earliest key ys)) [
    | inl n ↦ let q : some y ≡ some x = rw n at h in rw (sym (some-injective y x q)) a
    | inr (z, f) ↦
        let q : some (if ltb (key y) (key z) then y else z) ≡ some x = rw f at h in
        rw (sym (some-injective (if ltb (key y) (key z) then y else z) x q))
          (if_either P (ltb (key y) (key z)) y z a (earliest-All P key ys as' z f))
  ]

  pub first-All {κ} : (P : A → Type κ) (xs : List A) → All P xs → (x : A) → first xs ≡ some x → P x
  first-All P [] a x h = absurd (some-ne-none x (sym h))
  first-All P (y ∷ ys) (a, as') x h = rw (sym (some-injective y x h)) a

  pub select-All : (p : A → Bool) (xs : List A) → All (λ x. p x ≡ true) (select p xs)
  select-All p [] = tt
  select-All p (x ∷ xs) = elim (Bool-cases (p x)) [
    | inl t ↦ rw t (t, select-All p xs)
    | inr n ↦ rw n (select-All p xs)
  ]

  pub select-All_of {κ} :
      (P : A → Type κ) (p : A → Bool) (xs : List A) → All P xs → All P (select p xs)
  select-All_of P p [] h = tt
  select-All_of P p (x ∷ xs) (h, hs) = elim (Bool-cases (p x)) [
    | inl t ↦ rw t (h, select-All_of P p xs hs)
    | inr n ↦ rw n (select-All_of P p xs hs)
  ]

  mem_self : (xs : List A) → All (λ x. Mem x xs) xs
  mem_self [] = tt
  mem_self (x ∷ xs) = (
    mem-cons_self,
    All-mono (λ y. Mem y xs) (λ y. Mem y (x ∷ xs)) (λ y m. mem-cons_of_mem x m) xs (mem_self xs),
  )

  -- A row that a query returns stands in the table.
  pub first-Mem : (p : A → Bool) (xs : List A) (x : A) → first (select p xs) ≡ some x → Mem x xs
  first-Mem p xs x h =
      first-All (λ y. Mem y xs) (select p xs) (select-All_of (λ y. Mem y xs) p xs (mem_self xs)) x h

  pub earliest-Mem :
      (p : A → Bool) (key : A → ℕ) (xs : List A) (x : A)
      → earliest key (select p xs) ≡ some x
      → Mem x xs
  earliest-Mem p key xs x h =
      earliest-All (λ y. Mem y xs) key (select p xs)
        (select-All_of (λ y. Mem y xs) p xs (mem_self xs)) x h

  pub latest-All {κ} :
      (P : A → Type κ) (key : A → ℕ) (xs : List A)
      → All P xs
      → (x : A) → latest key xs ≡ some x
      → P x
  latest-All P key [] a x h = absurd (some-ne-none x (sym h))
  latest-All P key (y ∷ ys) (a, as') x h = elim (Option-cases (latest key ys)) [
    | inl n ↦ let q : some y ≡ some x = rw n at h in rw (sym (some-injective y x q)) a
    | inr (z, f) ↦
        let q : some (if ltb (key y) (key z) then z else y) ≡ some x = rw f at h in
        rw (sym (some-injective (if ltb (key y) (key z) then z else y) x q))
          (if_either P (ltb (key y) (key z)) z y (latest-All P key ys as' z f) a)
  ]

  -- An update of a counted row to one that does not count makes the count less.
  pub count-update_lt :
      (p q : A → Bool) (f : A → A)
      → ((x : A) → p (f x) ≡ false)
      → (xs : List A) → any (λ x. q x && p x) xs ≡ true
      → count p (update q f xs) < count p xs
  count-update_lt p q f h [] a = absurd (false≢true a)
  count-update_lt p q f h (x ∷ xs) a =
      let le = count-update_le p q f (λ y t k. absurd (false≢true (sym (h y) ∙ k))) xs in
      elim (Bool-cases (q x)) [
        | inl s ↦ elim (Bool-cases (p x)) [
          | inl t ↦ rw s (rw (h x) (rw t (omega (arith, le))))
          | inr n ↦
              let b : any (λ y. q y && p y) xs ≡ true = rw (s, n) at a in
              rw s (rw (h x) (rw n (count-update_lt p q f h xs b)))
        ]
        | inr n ↦
            let b : any (λ y. q y && p y) xs ≡ true = rw n at a in
            let ih = count-update_lt p q f h xs b in rw n (ground (arith, ih))
      ]

  -- If no row is counted, none is selected.
  pub select-count : (p : A → Bool) (xs : List A) → count p xs ≡ 0 → select p xs ≡ []
  select-count p [] h = refl
  select-count p (x ∷ xs) h = elim (Bool-cases (p x)) [
    | inl t ↦ let q : suc (count p xs) ≡ 0 = rw t at h in absurd (omega (arith, q))
    | inr n ↦ let q : count p xs ≡ 0 = rw n at h in rw n (select-count p xs q)
  ]

  some_latest : (key : A → ℕ) (x : A) (xs : List A) → latest key (x ∷ xs) ≢ none
  some_latest key x xs h = elim (Option-cases (latest key xs)) [
    | inl n ↦ let q : some x ≡ none = rw n at h in some-ne-none x q
    | inr (y, f) ↦
        let q : some (if ltb (key x) (key y) then y else x) ≡ none = rw f at h in
        some-ne-none (if ltb (key x) (key y) then y else x) q
  ]

  pub count-latest :
      (p : A → Bool) (key : A → ℕ) (xs : List A) → latest key (select p xs) ≡ none → count p xs ≡ 0
  count-latest p key [] h = refl
  count-latest p key (x ∷ xs) h = elim (Bool-cases (p x)) [
    | inl t ↦ absurd (some_latest key x (select p xs) (rw t at h))
    | inr f ↦ let q : latest key (select p xs) ≡ none = rw f at h in rw f (count-latest p key xs q)
  ]

  All-select_cons {κ} :
      (P : A → Type κ) (p : A → Bool) (x : A) (xs : List A)
      → (p x ≡ true → P x)
      → All P (select p xs)
      → All P (select p (x ∷ xs))
  All-select_cons P p x xs h a = elim (Bool-cases (p x)) [ inl t ↦ rw t (h t, a) | inr n ↦ rw n a ]

  widen :
      (p : A → Bool) (q : A → A → Bool) (x : A) (xs : List A) (z : A)
      → any (λ y. q z y && p y) xs ≡ true
      → any (λ y. q z y && p y) (x ∷ xs) ≡ true
  widen p q x xs z h = elim (Bool-cases (q z x && p x)) [ inl t ↦ rw t refl | inr n ↦ rw n h ]

  found :
      (p : A → Bool) (q : A → A → Bool)
      → ((x : A) → q x x ≡ true)
      → (xs : List A) → All (λ z. any (λ y. q z y && p y) xs ≡ true) (select p xs)
  found p q r [] = tt
  found p q r (x ∷ xs) =
      All-select_cons (λ z. any (λ y. q z y && p y) (x ∷ xs) ≡ true) p x xs
        (λ t. rw (r x) (rw t refl))
        (All-mono (λ z. any (λ y. q z y && p y) xs ≡ true)
          (λ z. any (λ y. q z y && p y) (x ∷ xs) ≡ true) (widen p q x xs) (select p xs)
          (found p q r xs))

  -- A selected row is found among the rows by its test and by any other that it passes.
  pub any-latest :
      (p : A → Bool) (key : A → ℕ) (q : A → A → Bool)
      → ((x : A) → q x x ≡ true)
      → (xs : List A) (x : A) → latest key (select p xs) ≡ some x
      → any (λ y. q x y && p y) xs ≡ true
  any-latest p key q r xs x h =
      latest-All (λ z. any (λ y. q z y && p y) xs ≡ true) key (select p xs) (found p q r xs) x h
