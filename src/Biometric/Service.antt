-- ===== src/Biometric/Service.antt =====
-- The service in front of the fingerprint reader (biometric/service.py). The reader's own library is
-- an argument, as are the readings of the clock and of the sensor.
pub mod Identify
pub mod Capture
mod Examples
use truck.Base.{
  ℕ, suc, zero, ◌+◌, Bool, true, false, not, ◌&&◌, Option, none, some, List, [], ◌∷◌, text_eq, any,
  ◌==◌, leb, ltb, if◌then◌else◌, ℤ, pos, negsuc,
}

-- What the service calls of `pyzkfp` for an identification, over the memory `M` of the reader: to
-- clear it and to add a template may fail; the last answers with an identifier and a score, 0 for
-- no match, or fails.
pub record Sdk (M : Type 0) : Type 0 where
  pub db_clear : M → Bool × M
  pub db_add : ℕ → List ℕ → M → Bool × M
  pub db_identify : List ℕ → M → Option (ℕ × ℕ)

-- `_identify_exact`
unfoldable pub identify_exact : List ℕ → List (ℕ × List ℕ) → Option ℕ
identify_exact template [] = none
identify_exact template ((e, t) ∷ ts) =
    if text_eq template t then some e else identify_exact template ts

-- `min_score` of the service: a negative value is refused.
abbrev pub set_min_score : ℤ → Option ℕ
set_min_score (pos n) = some n
set_min_score (negsuc n) = none

module _ {M : Type 0} (sdk : Sdk M) where
  -- `loaded_ids` and the memory after the loop over the templates.
  abbrev pub keep_id : ℕ → Bool → List ℕ → List ℕ
  keep_id e true ids = e ∷ ids
  keep_id e false ids = ids

  unfoldable pub load : List (ℕ × List ℕ) → List ℕ → M → List ℕ × M
  load [] ids m = (ids, m)
  load ((e, t) ∷ ts) ids m = let (added, m') = sdk.db_add e t m in load ts (keep_id e added ids) m'

  abbrev pub accept : ℕ → List ℕ → Option (ℕ × ℕ) → Option ℕ
  accept min_score ids none = none
  accept min_score ids (some (id, score)) =
      if not (id == 0) && any (λ i. i == id) ids && leb min_score score then some id else none

  abbrev pub ask : ℕ → List ℕ → List ℕ × M → Option ℕ × M
  ask min_score template ([], m) = (none, m)
  ask min_score template (i ∷ ids, m) = (accept min_score (i ∷ ids) (sdk.db_identify template m), m)

  -- `_identify_with_sdk`
  unfoldable pub identify_with_sdk : ℕ → List ℕ → List (ℕ × List ℕ) → M → Option ℕ × M
  identify_with_sdk min_score template ts m = ask min_score template (load ts [] (sdk.db_clear m).1)

  -- `identify`: `has_sdk` says that the backend is the real one and connected.
  unfoldable pub identify : Bool → ℕ → List ℕ → List (ℕ × List ℕ) → M → Option ℕ × M
  identify has_sdk min_score template [] m = (none, m)
  identify true min_score template (t ∷ ts) m = identify_with_sdk min_score template (t ∷ ts) m
  identify false min_score template (t ∷ ts) m = (identify_exact template (t ∷ ts), m)

-- What one call of the backend's `capture_template` does.
pub data Reading : Type 0 where
  raises : Reading
  reads : Option (List ℕ) → Reading

-- How a capture ends. `exhausted` is the end of the model's fuel.
pub data Outcome {ℓ} (A : Type ℓ) : Type ℓ where
  exhausted not_connected timed_out raised : Outcome A
  got : A → Outcome A

-- The numbers of readings of the clock and of the sensor so far.
pub record Cursor : Type 0 where
  pub clock : ℕ
  pub sensor : ℕ

abbrev pub both : Cursor → Cursor
both c = record { clock = suc c.clock; sensor = suc c.sensor }

abbrev pub tick : Cursor → Cursor
tick c = record c { clock = suc c.clock }

abbrev pub template_of : Option (List ℕ) → Option (List ℕ)
template_of none = none
template_of (some []) = none
template_of (some (b ∷ t)) = some (b ∷ t)

module _ (now : ℕ → ℕ) (sensor : ℕ → Reading) where
  abbrev pub look : Reading → Cursor → Outcome (List ℕ) × Cursor → Outcome (List ℕ) × Cursor
  look raises c rest = (raised, both c)
  look (reads o) c rest = elim (template_of o) [ none ↦ rest | some t ↦ (got t, both c) ]

  -- The loop of `capture_blocking`.
  unfoldable pub poll : ℕ → ℕ → Cursor → Outcome (List ℕ) × Cursor
  poll zero deadline c = (exhausted, c)
  poll (suc fuel) deadline c =
      let rest = poll fuel deadline (both c) in
      if ltb (now c.clock) deadline then look (sensor c.sensor) c rest else (timed_out, tick c)

  unfoldable pub capture_blocking : ℕ → ℕ → Bool → Cursor → Outcome (List ℕ) × Cursor
  capture_blocking fuel timeout false c = (not_connected, c)
  capture_blocking fuel timeout true c = poll fuel (now c.clock + timeout) (tick c)

  abbrev pub gone : Reading → Cursor → Outcome (Unit {0}) × Cursor → Outcome (Unit {0}) × Cursor
  gone raises c rest = (raised, both c)
  gone (reads o) c rest = elim (template_of o) [ none ↦ (got tt, both c) | some t ↦ rest ]

  -- The loop of `_wait_for_release`, which ends in the same way on a timeout.
  unfoldable pub release : ℕ → ℕ → Cursor → Outcome (Unit {0}) × Cursor
  release zero deadline c = (exhausted, c)
  release (suc fuel) deadline c =
      let rest = release fuel deadline (both c) in
      if ltb (now c.clock) deadline then gone (sensor c.sensor) c rest else (got tt, tick c)

  unfoldable pub wait_for_release : ℕ → ℕ → Cursor → Outcome (Unit {0}) × Cursor
  wait_for_release fuel timeout c = release fuel (now c.clock + timeout) (tick c)

  -- The samples of `capture_registration`, from one at least: `left` are to follow the next one.
  abbrev pub after :
      {A B : Type 0} → Outcome A × Cursor → (A → Cursor → Outcome B × Cursor) → Outcome B × Cursor
  after (exhausted, c) f = (exhausted, c)
  after (not_connected, c) f = (not_connected, c)
  after (timed_out, c) f = (timed_out, c)
  after (raised, c) f = (raised, c)
  after (got a, c) f = f a c

  abbrev pub prepend : List ℕ → Outcome (List (List ℕ)) × Cursor → Outcome (List (List ℕ)) × Cursor
  prepend t out = after out (λ ts c. (got (t ∷ ts), c))

  unfoldable pub collect : ℕ → ℕ → ℕ → Bool → Cursor → Outcome (List (List ℕ)) × Cursor
  collect fuel timeout zero connected c =
      after (capture_blocking fuel timeout connected c) (λ t c'. (got (t ∷ []), c'))
  collect fuel timeout (suc left) connected c =
      after (capture_blocking fuel timeout connected c) (λ t c'.
        after (wait_for_release fuel timeout c')
          (λ u c''. prepend t (collect fuel timeout left connected c'')))

  -- The merged template: `merge` is the backend's `merge_templates`, if it has one.
  abbrev pub merged :
      Option (List (List ℕ) → Option (List ℕ)) → List (List ℕ) → Cursor → Outcome (List ℕ) × Cursor
  merged merge [] c = (raised, c)
  merged merge (t ∷ []) c = (got t, c)
  merged none (t ∷ u ∷ ts) c = (got t, c)
  merged (some merge) (t ∷ u ∷ ts) c = elim (merge (t ∷ u ∷ ts)) [
    | none ↦ (raised, c)
    | some m ↦ (got m, c)
  ]

  -- `capture_registration` for `samples`, where fewer than one raises `ValueError`.
  unfoldable pub capture_registration :
      ℕ
      → ℕ
      → ℕ
      → Option (List (List ℕ) → Option (List ℕ))
      → Bool
      → Cursor
      → Outcome (List ℕ) × Cursor
  capture_registration fuel timeout samples merge false c = (not_connected, c)
  capture_registration fuel timeout zero merge true c = (raised, c)
  capture_registration fuel timeout (suc left) merge true c =
      after (collect fuel timeout left true c) (merged merge)
