-- ===== src/Biometric/Enroll/Race.antt =====
-- A cancellation on the enrolment page (employees/views.py) between the two halves of
-- `_close_enroll_request` (biometric/api_views.py), which finds a request and then marks it done.
use truck.Base.{
  ℕ, ◌≡◌, refl, Bool, true, false, ◌&&◌, some, inl, inr, List, [], ◌∷◌, ◌==◌, Bool-cases, update,
  select, All,
}
use mathlib.Core.Bool.{false≢true}
use truck.Biometric.Enroll.{
  EnrollRequest, Db, done, pending_of, done_by, mark_done, cancelled_at, cancel_pending,
}

abbrev pub HasKey : ℕ → EnrollRequest → Type 0
HasKey k q = (q.pk == k) ≡ true

All-done :
    (k device now : ℕ) (rs : List EnrollRequest)
    → All
        (λ q. HasKey k q → (q.status ≡ done) × (q.fulfilled_by_device ≡ some device))
        (update (λ q. q.pk == k) (done_by device now) rs)
All-done k device now [] = tt
All-done k device now (q ∷ qs) = elim (Bool-cases (q.pk == k)) [
  | inl h ↦ rw h (λ t. (refl, refl), All-done k device now qs)
  | inr n ↦ rw n (λ t. absurd (false≢true (rw n at t)), All-done k device now qs)
]

and_false : (b : Bool) → (b && false) ≡ false
and_false true = refl
and_false false = refl

all_cancelled :
    (e now : ℕ) (rs : List EnrollRequest)
    → select (pending_of e) (update (pending_of e) (cancelled_at now) rs) ≡ []
all_cancelled e now [] = refl
all_cancelled e now (q ∷ qs) = elim (Bool-cases (pending_of e q)) [
  | inl h ↦ rw h (rw (and_false (q.employee == e)) (all_cancelled e now qs))
  | inr n ↦ rw n (rw n (all_cancelled e now qs))
]

-- A cancellation leaves none of the employee's requests pending, but one that arrives after a
-- kiosk's enrolment has found a request and before it saves that request is lost: the request ends
-- done, by that kiosk's device.
pub cancel_lost :
    (e at : ℕ) (r : EnrollRequest) (device now : ℕ) (db : Db)
    → (select (pending_of e) (cancel_pending e at db).requests ≡ [])
      × All
          (λ q. HasKey r.pk q → (q.status ≡ done) × (q.fulfilled_by_device ≡ some device))
          (mark_done device now r (cancel_pending e at db)).requests
unfolding cancel_pending mark_done
cancel_lost e at r device now db = (
  all_cancelled e at db.requests,
  All-done r.pk device now (update (pending_of e) (cancelled_at at) db.requests),
)
