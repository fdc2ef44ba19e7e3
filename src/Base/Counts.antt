-- ===== src/Base/Counts.antt =====
-- Counts of the rows of a table for a uniqueness check that precedes a change.
use Prim.Native.Nat.{◌+◌, ◌≤◌}
use mathlib.Core.Path.{◌≡◌, refl, sym, ◌∙◌}
use mathlib.Core.Logic.{inl, inr}
use mathlib.Core.Bool.{Bool, true, false, not, ◌&&◌, false≢true}
use mathlib.Core.List.{List, [], ◌∷◌}
use native.Mathlib.Omega.{arith}
use truck.Base.Tests.{Bool-cases}
use truck.Base.Lists.{any}
use truck.Base.Updates.{update, count, count-update_le}

module _ {ℓ} {A : Type ℓ} where
  -- If no row passes, none is counted.
  pub count-any : (p : A → Bool) (xs : List A) → any p xs ≡ false → count p xs ≡ 0
  count-any p [] h = refl
  count-any p (x ∷ xs) h = elim (Bool-cases (p x)) [
    | inl t ↦ let q : true ≡ false = rw t at h in absurd (false≢true (sym q))
    | inr f ↦ let q : any p xs ≡ false = rw f at h in rw f (count-any p xs q)
  ]

  pub count-ap : (p q : A → Bool) → ((x : A) → p x ≡ q x) → (xs : List A) → count p xs ≡ count q xs
  count-ap p q h [] = refl
  count-ap p q h (x ∷ xs) = rw (h x) (ground (arith, count-ap p q h xs))

  -- A change of the rows with `q` adds at most those rows to what was counted elsewhere.
  pub count-update_add :
      (p q : A → Bool) (f : A → A) (xs : List A)
      → count p (update q f xs) ≤ count (λ x. not (q x) && p x) xs + count q xs
  count-update_add p q f [] = omega arith
  count-update_add p q f (x ∷ xs) = elim (Bool-cases (q x)) [
    | inl t ↦ rw t (ground (arith, count-update_add p q f xs))
    | inr n ↦ rw n (ground (arith, count-update_add p q f xs))
  ]

  pub count-and_le : (p q : A → Bool) (xs : List A) → count (λ x. q x && p x) xs ≤ count p xs
  count-and_le p q [] = omega arith
  count-and_le p q (x ∷ xs) = elim (Bool-cases (q x)) [
    | inl t ↦ rw t (ground (arith, count-and_le p q xs))
    | inr n ↦ rw n (ground (arith, count-and_le p q xs))
  ]

  -- A change that does not matter to the test of any row that it changes.
  pub count-update_away :
      (p q : A → Bool) (f : A → A)
      → ((x : A) → q x ≡ true → p (f x) ≡ p x)
      → (xs : List A) → count p (update q f xs) ≡ count p xs
  count-update_away p q f h [] = refl
  count-update_away p q f h (x ∷ xs) = elim (Bool-cases (q x)) [
    | inl t ↦ rw t (rw (h x t) (ground (arith, count-update_away p q f h xs)))
    | inr n ↦ rw n (ground (arith, count-update_away p q f h xs))
  ]

  -- A row stays the only one with a property when it is changed, if the change does not give it the
  -- property or no other row has it.
  pub count-update_one :
      (p q : A → Bool) (f : A → A) (c : Bool) (xs : List A)
      → ((x : A) → p (f x) ≡ c)
      → (c ≡ true → count (λ x. not (q x) && p x) xs ≡ 0)
      → count q xs ≤ 1
      → count p xs ≤ 1
      → count p (update q f xs) ≤ 1
  count-update_one p q f true xs h free one others =
      omega (arith, free refl, one, count-update_add p q f xs)
  count-update_one p q f false xs h free one others =
      omega (arith, others, count-update_le p q f (λ x k t. absurd (false≢true (sym (h x) ∙ t))) xs)

  pub count-cons_one :
      (p : A → Bool) (x : A) (xs : List A)
      → (p x ≡ true → count p xs ≡ 0)
      → count p xs ≤ 1
      → count p (x ∷ xs) ≤ 1
  count-cons_one p x xs free others = elim (Bool-cases (p x)) [
    | inl t ↦ let z : count p xs ≡ 0 = free t in rw t (omega (arith, z))
    | inr n ↦ rw n others
  ]
