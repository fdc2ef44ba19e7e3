-- ===== src/Base/Dicts.antt =====
-- Dictionaries keyed by texts, as association lists.
use mathlib.Core.Path.{◌≡◌, refl, sym, ap}
use mathlib.Core.Bool.{false}
use mathlib.Core.Option.{Option, none, some}
use mathlib.Core.List.{List, [], ◌∷◌}
use mathlib.Core.Logic.{◌≢◌, inl, inr}
use truck.Base.Tests.{if◌then◌else◌, Bool-cases}
use truck.Base.Texts.{Text, text_eq, text_eq-eq, text_eq_refl}

module _ {ℓ} {V : Type ℓ} where
  -- `d.get(k)`.
  abbrev pub lookup : Text → List (Text × V) → Option V
  lookup k [] = none
  lookup k ((j, v) ∷ d) = if text_eq j k then some v else lookup k d

  -- `d[k] = v`.
  abbrev pub insert : Text → V → List (Text × V) → List (Text × V)
  insert k v [] = (k, v) ∷ []
  insert k v ((j, w) ∷ d) = if text_eq j k then (k, v) ∷ d else (j, w) ∷ insert k v d

  -- `d.pop(k, None)`.
  abbrev pub pop : Text → List (Text × V) → List (Text × V)
  pop k [] = []
  pop k ((j, w) ∷ d) = if text_eq j k then pop k d else (j, w) ∷ pop k d

text_eq-false : (j k : Text) → j ≢ k → text_eq j k ≡ false
text_eq-false j k n = elim (Bool-cases (text_eq j k)) [
  | inl p ↦ absurd (n (text_eq-eq j k p))
  | inr q ↦ q
]

module _ {ℓ} {V : Type ℓ} where
  pub lookup-insert_self :
      (k : Text) (v : V) (d : List (Text × V)) → lookup k (insert k v d) ≡ some v
  lookup-insert_self k v [] = rw (text_eq_refl k)
  lookup-insert_self k v ((j, w) ∷ d) = elim (Bool-cases (text_eq j k)) [
    | inl p ↦ rw p (rw (text_eq_refl k))
    | inr n ↦ rw n (rw n (lookup-insert_self k v d))
  ]

  pub lookup-pop_self : (k : Text) (d : List (Text × V)) → lookup k (pop k d) ≡ none
  lookup-pop_self k [] = refl
  lookup-pop_self k ((j, w) ∷ d) = elim (Bool-cases (text_eq j k)) [
    | inl p ↦ rw p (lookup-pop_self k d)
    | inr n ↦ rw n (rw n (lookup-pop_self k d))
  ]

  pub lookup-insert_ne :
      (k i : Text) (v : V) (d : List (Text × V)) → i ≢ k → lookup i (insert k v d) ≡ lookup i d
  lookup-insert_ne k i v [] h = rw (text_eq-false k i (λ p. h (sym p)))
  lookup-insert_ne k i v ((j, w) ∷ d) h = elim (Bool-cases (text_eq j k)) [
    | inl p ↦ rw p (rw (text_eq-eq j k p) (rw (text_eq-false k i (λ q. h (sym q)))))
    | inr n ↦ rw n (ap (λ o. if text_eq j i then some w else o) (lookup-insert_ne k i v d h))
  ]

  pub lookup-pop_ne : (k i : Text) (d : List (Text × V)) → i ≢ k → lookup i (pop k d) ≡ lookup i d
  lookup-pop_ne k i [] h = refl
  lookup-pop_ne k i ((j, w) ∷ d) h = elim (Bool-cases (text_eq j k)) [
    | inl p ↦
        rw p
          (rw (text_eq-eq j k p) (rw (text_eq-false k i (λ q. h (sym q))) (lookup-pop_ne k i d h)))
    | inr n ↦ rw n (ap (λ o. if text_eq j i then some w else o) (lookup-pop_ne k i d h))
  ]
