-- ===== src/Biometric/Service/Examples.antt =====
-- Runs of the fingerprint service and uses of its theorems at concrete readings.
use truck.Base.{
  ℕ, ◌+◌, ◌*◌, ◌≡◌, refl, true, false, none, some, List, [], ◌∷◌, arith, ltb, if◌then◌else◌,
}
use truck.Biometric.Service.{
  Sdk, load, identify_with_sdk, identify, Reading, reads, got, Cursor, poll, capture_blocking,
  release, wait_for_release, collect, capture_registration,
}
use truck.Biometric.Service.Identify.{Names, identify-Names}
use truck.Biometric.Service.Capture.{Ends, capture_blocking-Ends}

-- A reader's library that finds the second of two templates.
abbrev library : Sdk (List ℕ)
library = record {
  db_clear = λ m. (true, []);
  db_add = λ e t m. (true, e ∷ m);
  db_identify = λ t m. some (2, 60);
}

abbrev stored : List (ℕ × List ℕ)
stored = (1, 5 ∷ []) ∷ (2, 6 ∷ []) ∷ []

sdk_test : (identify library true 50 (6 ∷ []) stored []).0 ≡ some 2
unfolding identify identify_with_sdk load
sdk_test = refl

low_score_test : (identify library true 70 (6 ∷ []) stored []).0 ≡ none
unfolding identify identify_with_sdk load
low_score_test = refl

identify-Names_example :
    Names library false 50 (6 ∷ []) stored (identify library false 50 (6 ∷ []) stored []).0
identify-Names_example = identify-Names library false 50 (6 ∷ []) stored []

-- A clock that goes on by 200, and a finger from the third reading on that is not lifted.
abbrev clock : ℕ → ℕ
clock n = n * 200

abbrev finger : ℕ → Reading
finger n = reads (if ltb n 2 then none else some (7 ∷ []))

abbrev start : Cursor
start = record { clock = 0; sensor = 0 }

capture_test : (capture_blocking clock finger 6 1000 true start).0 ≡ got (7 ∷ [])
unfolding capture_blocking poll
capture_test = refl

-- The same press gives all three samples, when the wait for its release times out.
one_press_test : (capture_registration clock finger 9 1000 3 none true start).0 ≡ got (7 ∷ [])
unfolding capture_registration collect capture_blocking poll wait_for_release release
one_press_test = refl

capture_blocking-Ends_example :
    Ends clock finger 200 (clock 0 + 1000) (capture_blocking clock finger 6 1000 true start)
capture_blocking-Ends_example =
    capture_blocking-Ends clock finger 200 5 1000 start (λ k le. omega arith) (omega arith)
      (omega arith)
