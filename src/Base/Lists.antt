-- ===== src/Base/Lists.antt =====
-- Lists over the native numbers, and the two queries that the program makes of a table: the rows
-- that pass a test, and the row with the greatest key.
use Prim.Native.Nat.{ℕ, zero, suc, ◌+◌}
use mathlib.Core.Path.{◌≡◌, sym}
use mathlib.Core.Logic.{inl, inr}
use mathlib.Core.Bool.{Bool, true, false}
use mathlib.Core.List.{List, [], ◌∷◌, ◌++◌}
use mathlib.Core.Option.{Option, none, some, some-ne-none, some-injective}
use native.Mathlib.Omega.{arith}
use truck.Base.Tests.{ltb, Bool-cases, if◌then◌else◌}

module _ {ℓ} {A : Type ℓ} where
  abbrev pub length : List A → ℕ
  length [] = 0
  length (x ∷ xs) = suc (length xs)

  abbrev pub take : ℕ → List A → List A
  take zero xs = []
  take (suc n) [] = []
  take (suc n) (x ∷ xs) = x ∷ take n xs

  abbrev pub drop : ℕ → List A → List A
  drop zero xs = xs
  drop (suc n) [] = []
  drop (suc n) (x ∷ xs) = drop n xs

  abbrev pub get_elem? : List A → ℕ → Option A
  get_elem? [] i = none
  get_elem? (x ∷ xs) zero = some x
  get_elem? (x ∷ xs) (suc i) = get_elem? xs i

  -- `filter(...)` of a query.
  abbrev pub select : (A → Bool) → List A → List A
  select p [] = []
  select p (x ∷ xs) = if p x then x ∷ select p xs else select p xs

  -- `.first()` of a query.
  abbrev pub first : List A → Option A
  first [] = none
  first (x ∷ xs) = some x

  -- `.order_by('-key').first()`: a row with the greatest key, of equal ones the first listed.
  abbrev pub latest : (A → ℕ) → List A → Option A
  latest key [] = none
  latest key (x ∷ xs) = elim (latest key xs) [
    | none ↦ some x
    | some y ↦ some (if ltb (key x) (key y) then y else x)
  ]

  -- `.exists()` of a filtered query.
  abbrev pub any : (A → Bool) → List A → Bool
  any p [] = false
  any p (x ∷ xs) = if p x then true else any p xs

  -- A predicate on every element.
  abbrev pub All {κ} : (A → Type κ) → List A → Type κ
  All P [] = Unit
  All P (x ∷ xs) = P x × All P xs

  pub All-mono {κ μ} :
      (P : A → Type κ) (Q : A → Type μ)
      → ((x : A) → P x → Q x)
      → (xs : List A) → All P xs
      → All Q xs
  All-mono P Q f [] h = tt
  All-mono P Q f (x ∷ xs) h = (f x h.0, All-mono P Q f xs h.1)

  pub length-append : (xs ys : List A) → length (xs ++ ys) ≡ length xs + length ys
  length-append [] ys = omega arith
  length-append (x ∷ xs) ys = omega (arith, length-append xs ys)

  -- A row that a filtered query returns passes the test.
  pub first-select :
      (p : A → Bool) (xs : List A) (x : A) → first (select p xs) ≡ some x → p x ≡ true
  first-select p [] x h = absurd (some-ne-none x (sym h))
  first-select p (y ∷ ys) x h = elim (Bool-cases (p y)) [
    | inl t ↦ let q : some y ≡ some x = rw t at h in rw (sym (some-injective y x q)) t
    | inr f ↦ let q : first (select p ys) ≡ some x = rw f at h in first-select p ys x q
  ]
