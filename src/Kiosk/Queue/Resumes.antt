-- ===== src/Kiosk/Queue/Resumes.antt =====
-- In which state a check of the queue leaves the kiosk (kiosk_agent.py).
use truck.Base.{
  ℕ, ◌≡◌, refl, Bool, true, false, ◌||◌, Option, none, some, All, Bool-cases, inl, inr,
}
use truck.Kiosk.Base64.{b64decode}
use truck.Kiosk.Codec.{IsByte, decode-b64encode}
use truck.Kiosk.Queue.{
  Agent, Next, request_failed, has_none, pending, Capture, timeout, unavailable, unexpected,
  template, Reader, Submitted, captured, submission, check_and_fulfill,
}

-- What is submitted for a request, from the template that was captured, is read back by the site as it
-- was captured.
abbrev pub Submits : ℕ → ℕ → Bool → Capture → Option Submitted → Type 0
Submits request employee false c o = o ≡ none
Submits request employee true timeout o = o ≡ none
Submits request employee true unavailable o = o ≡ none
Submits request employee true unexpected o = o ≡ none
Submits request employee true (template t) none = ⊥
Submits request employee true (template t) (some s) =
    (s.enroll_request_id ≡ request)
    × (s.employee_id ≡ employee)
    × (All IsByte t → b64decode true s.template_b64 ≡ some t)

abbrev pub Resumes : Next → Reader → Agent → Option Submitted × Agent → Type 0
Resumes request_failed r a x = x ≡ (none, a)
Resumes has_none r a x = x ≡ (none, a)
Resumes (pending request employee) r a (s, a') =
    (a'.connected ≡ (a.connected || r.connects || r.reconnects))
    × (a'.listening ≡ a'.connected)
    × Submits request employee (a.connected || r.connects) r.capture s

submits :
    (request employee : ℕ) (c : Bool) (k : Capture)
    → Submits request employee c k (submission request employee (captured c k))
submits request employee false k = refl
submits request employee true timeout = refl
submits request employee true unavailable = refl
submits request employee true unexpected = refl
submits request employee true (template t) = (refl, refl, decode-b64encode true t)

-- A check that finds a request ends with the listener running exactly if the reader is connected, and
-- that is if it was or if one of two attempts succeeds. If the reader was connected before the capture and
-- a template was captured, it is submitted for the request and its employee, in a form that the site
-- decodes to that template; otherwise nothing is submitted. A check that finds no request, or does not
-- reach the site, changes nothing.
pub check_and_fulfill-Resumes :
    (n : Next) (r : Reader) (a : Agent) → Resumes n r a (check_and_fulfill n r a)
unfolding check_and_fulfill
check_and_fulfill-Resumes request_failed r a = refl
check_and_fulfill-Resumes has_none r a = refl
check_and_fulfill-Resumes (pending request employee) r a = elim (Bool-cases a.connected) [
  | inl t ↦ rw t (refl, refl, submits request employee true r.capture)
  | inr f ↦ rw f (elim (Bool-cases r.connects) [
    | inl t ↦ rw t (refl, refl, submits request employee true r.capture)
    | inr g ↦ rw g (refl, refl, refl)
  ])
]
