-- ===== src/Attendance/Record/Order.antt =====
-- `AttendanceRecord.clean` (attendance/models.py) against the order that it stands for.
use truck.Base.{
  ℕ, ◌+◌, ◌≤◌, ◌<◌, ◌≡◌, refl, ◌↔◌, inl, inr, Option, none, some, List, [], ◌∷◌, arith, ltb,
  Bool-cases, All,
}
use truck.Attendance.Record.{
  AttendanceRecord, Field, entry_time, lunch_start, lunch_end, exit_time, second, clean, clean_from,
  punches,
}

-- A punch that is set lies at least a second after `v`.
abbrev pub FarFrom : ℕ → Option ℕ → Type 0
FarFrom v none = Unit
FarFrom v (some w) = v + second ≤ w

abbrev AllAfter : Option ℕ → List (Field × Option ℕ) → Type 0
AllAfter none rest = Unit
AllAfter (some v) rest = All (λ p. FarFrom v p.1) rest

-- Every punch that is set lies at least a second after every one before it.
abbrev pub Spaced : List (Field × Option ℕ) → Type 0
Spaced [] = Unit
Spaced ((f, o) ∷ rest) = AllAfter o rest × Spaced rest

far_on :
    (u v : ℕ) (ps : List (Field × Option ℕ))
    → u ≤ v
    → All (λ p. FarFrom v p.1) ps
    → All (λ p. FarFrom u p.1) ps
far_on u v [] h a = tt
far_on u v ((f, none) ∷ ps) h a = (tt, far_on u v ps h a.1)
far_on u v ((f, some w) ∷ ps) h a = (omega arith, far_on u v ps h a.1)

abbrev value_of : Option (Field × ℕ) → Option ℕ
value_of none = none
value_of (some p) = some p.1

clean_from-Spaced :
    (prior : Option (Field × ℕ)) (ps : List (Field × Option ℕ))
    → clean_from prior ps ≡ none
    → AllAfter (value_of prior) ps × Spaced ps
unfolding clean_from
clean_from-Spaced none [] h = (tt, tt)
clean_from-Spaced (some p) [] h = (tt, tt)
clean_from-Spaced none ((f, none) ∷ ps) h = (tt, (tt, (clean_from-Spaced none ps h).1))
clean_from-Spaced (some p) ((f, none) ∷ ps) h =
    let (a, s) = clean_from-Spaced (some p) ps h in ((tt, a), (tt, s))
clean_from-Spaced none ((f, some v) ∷ ps) h =
    let (a, s) = clean_from-Spaced (some (f, v)) ps h in (tt, (a, s))
clean_from-Spaced (some (g, u)) ((f, some v) ∷ ps) h = elim (Bool-cases (ltb v (u + second))) [
  | inl early ↦ absurd (ground arith)
  | inr late ↦
      let (a, s) = clean_from-Spaced (some (f, v)) ps (rw late at h) in
      ((ground arith, far_on u v ps (ground arith) a), (a, s))
]

Spaced-clean_from :
    (prior : Option (Field × ℕ)) (ps : List (Field × Option ℕ))
    → AllAfter (value_of prior) ps
    → Spaced ps
    → clean_from prior ps ≡ none
unfolding clean_from
Spaced-clean_from none [] a s = refl
Spaced-clean_from (some p) [] a s = refl
Spaced-clean_from none ((f, none) ∷ ps) a s = Spaced-clean_from none ps tt s.1
Spaced-clean_from (some p) ((f, none) ∷ ps) a s = Spaced-clean_from (some p) ps a.1 s.1
Spaced-clean_from none ((f, some v) ∷ ps) a s = Spaced-clean_from (some (f, v)) ps s.0 s.1
Spaced-clean_from (some (g, u)) ((f, some v) ∷ ps) a s =
    ground (arith, Spaced-clean_from (some (f, v)) ps s.0 s.1)

-- Validation passes exactly when each timestamp that is set lies at least one second after every
-- one before it, in the order entry, lunch start, lunch end, exit.
pub clean-eq-none : (r : AttendanceRecord) → (clean r ≡ none) ↔ Spaced (punches r)
unfolding clean
clean-eq-none r = (
  (λ h. (clean_from-Spaced none (punches r) h).1),
  (λ s. Spaced-clean_from none (punches r) tt s),
)

abbrev pub punch : AttendanceRecord → Field → Option ℕ
punch r entry_time = some r.entry_time
punch r lunch_start = r.lunch_start
punch r lunch_end = r.lunch_end
punch r exit_time = r.exit_time

-- A punch that is set, less than a second after another that is set.
abbrev pub Early : Option ℕ → Option ℕ → Type 0
Early (some v) (some u) = v < u + second
Early (some v) none = ⊥
Early none o = ⊥

-- The field that a refusal blames is set, and less than a second after the one named as its
-- predecessor, which is set too.
pub clean_blames :
    (r : AttendanceRecord) (f g : Field) → clean r ≡ some (f, g) → Early (punch r f) (punch r g)
unfolding clean
clean_blames r f g h = ground arith
