-- ===== src/Biometric/Service/Identify.antt =====
-- Whom an identification names (biometric/service.py).
use truck.Base.{
  ℕ, zero, suc, ◌≤◌, ◌≡◌, ◌≢◌, ◌⊎◌, refl, Bool, true, false, not, ◌&&◌, Option, none, some, inl,
  inr, List, [], ◌∷◌, arith, text_eq, any, ◌==◌, ==_iff, leb, leb→le, Bool-cases, Option-cases,
  and_true,
}
use mathlib.Core.Bool.{false≢true}
use truck.Biometric.Service.{
  Sdk, identify_exact, keep_id, load, accept, ask, identify_with_sdk, identify,
}

abbrev pub has_id : ℕ → List (ℕ × List ℕ) → Bool
has_id e ts = any (λ p. p.0 == e) ts

-- The employee named has a template equal to the captured one, and if none is named, nobody has.
abbrev pub Exact : List ℕ → List (ℕ × List ℕ) → Option ℕ → Type 0
Exact t ts none = any (λ p. text_eq t p.1) ts ≡ false
Exact t ts (some e) = any (λ p. p.0 == e && text_eq t p.1) ts ≡ true

Exact-cons :
    (t u : List ℕ) (i : ℕ) (ts : List (ℕ × List ℕ)) (o : Option ℕ)
    → text_eq t u ≡ false
    → Exact t ts o
    → Exact t ((i, u) ∷ ts) o
Exact-cons t u i ts none n h = rw n h
Exact-cons t u i ts (some e) n h = elim (Bool-cases (i == e)) [
  | inl k ↦ rw k (rw n h)
  | inr k ↦ rw k h
]

identify_exact-Exact : (t : List ℕ) (ts : List (ℕ × List ℕ)) → Exact t ts (identify_exact t ts)
unfolding identify_exact
identify_exact-Exact t [] = refl
identify_exact-Exact t ((i, u) ∷ ts) = elim (Bool-cases (text_eq t u)) [
  | inl h ↦ rw h (rw ((==_iff i i).1 refl) (rw h refl))
  | inr n ↦ rw n (Exact-cons t u i ts (identify_exact t ts) n (identify_exact-Exact t ts))
]

module _ {M : Type 0} (sdk : Sdk M) where
  abbrev has : ℕ → List ℕ → Bool
  has e ids = any (λ i. i == e) ids

  unkept :
      (i : ℕ) (added : Bool) (ids : List ℕ) (e : ℕ)
      → (i == e) ≡ false
      → has e (keep_id sdk i added ids) ≡ true
      → has e ids ≡ true
  unkept i true ids e n h = rw n at h
  unkept i false ids e n h = h

  -- A loaded identifier is that of a template.
  load_ids :
      (ts : List (ℕ × List ℕ)) (ids : List ℕ) (m : M) (e : ℕ)
      → has e (load sdk ts ids m).0 ≡ true
      → (has_id e ts ≡ true) ⊎ (has e ids ≡ true)
  unfolding load
  load_ids [] ids m e h = inr h
  load_ids ((i, t) ∷ ts) ids m e h = elim (Bool-cases (i == e)) [
    | inl k ↦ inl (rw k refl)
    | inr n ↦
        let (added, m') = sdk.db_add i t m in
        elim (load_ids ts (keep_id sdk i added ids) m' e h) [
          | inl k ↦ inl (rw n k)
          | inr k ↦ inr (unkept i added ids e n k)
        ]
  ]

  nonzero : (e : ℕ) → not (e == 0) ≡ true → e ≢ 0
  nonzero zero h p = absurd (false≢true h)
  nonzero (suc n) h p = omega arith

  -- The employee named has a template, and the reader's library named them, with a score that is
  -- high enough.
  abbrev pub Scored : ℕ → List ℕ → List (ℕ × List ℕ) → Option ℕ → Type 0
  Scored min_score t ts none = Unit
  Scored min_score t ts (some e) =
      (has_id e ts ≡ true)
      × (e ≢ 0)
      × ((score : ℕ) × (m : M) × (sdk.db_identify t m ≡ some (e, score)) × (min_score ≤ score))

  abbrev pub Names : Bool → ℕ → List ℕ → List (ℕ × List ℕ) → Option ℕ → Type 0
  Names true min_score t ts o = Scored min_score t ts o
  Names false min_score t ts o = Exact t ts o

  accept-Scored :
      (min_score : ℕ) (t : List ℕ) (ts : List (ℕ × List ℕ)) (ids : List ℕ) (m : M)
      → ((e : ℕ) → has e ids ≡ true → has_id e ts ≡ true)
      → Scored min_score t ts (accept sdk min_score ids (sdk.db_identify t m))
  accept-Scored min_score t ts ids m from = elim (Option-cases (sdk.db_identify t m)) [
    | inl n ↦ rw n tt
    | inr ((e, score), f) ↦
        rw f (elim (Bool-cases (not (e == 0) && has e ids && leb min_score score)) [
          | inr n ↦ rw n tt
          | inl k ↦
              let (rest, le) = and_true (not (e == 0) && has e ids) (leb min_score score) k in
              let (nz, h) = and_true (not (e == 0)) (has e ids) rest in
              rw k (from e h, nonzero e nz, (score, m, f, leb→le min_score score le))
        ])
  ]

  ask-Scored :
      (min_score : ℕ) (t : List ℕ) (ts : List (ℕ × List ℕ)) (ids : List ℕ) (m : M)
      → ((e : ℕ) → has e ids ≡ true → has_id e ts ≡ true)
      → Scored min_score t ts (ask sdk min_score t (ids, m)).0
  ask-Scored min_score t ts [] m from = tt
  ask-Scored min_score t ts (i ∷ ids) m from = accept-Scored min_score t ts (i ∷ ids) m from

  listed : (e : ℕ) (b : Bool) → (b ≡ true) ⊎ (false ≡ true) → b ≡ true
  listed e b (inl h) = h
  listed e b (inr h) = absurd (false≢true h)

  -- With the reader's library, an identification names only an employee who has a template, whom the
  -- library named for this capture with a score of the minimum at least, and never the identifier 0.
  -- Without it, it names an employee with a template that equals the captured one, and it names
  -- nobody only if no template does.
  pub identify-Names :
      (has_sdk : Bool) (min_score : ℕ) (t : List ℕ) (ts : List (ℕ × List ℕ)) (m : M)
      → Names has_sdk min_score t ts (identify sdk has_sdk min_score t ts m).0
  unfolding identify identify_with_sdk
  identify-Names true min_score t [] m = tt
  identify-Names false min_score t [] m = refl
  identify-Names false min_score t (u ∷ us) m = identify_exact-Exact t (u ∷ us)
  identify-Names true min_score t (u ∷ us) m =
      let m' = (sdk.db_clear m).1 in
      let loaded = load sdk (u ∷ us) [] m' in
      ask-Scored min_score t (u ∷ us) loaded.0 loaded.1
        (λ e h. listed e (has_id e (u ∷ us)) (load_ids (u ∷ us) [] m' e h))
