-- ===== src/Biometric/Auth/Throttle.antt =====
-- How many wrong tokens the kiosk authentication looks at (biometric/auth.py).
use truck.Base.{ℕ, suc, ◌+◌, ◌≤◌, ◌<◌, ◌≡◌, refl, sym, none, List, [], ◌∷◌, arith, Text, lookup}
use mathlib.Core.Path.{subst}
use truck.RateLimit.Counter.{Tracks, count_failure-Tracks, Tracks-le}
use truck.Biometric.Auth.{
  limits, Request, State, Clock, Outcome, too_many, unauthorized, unicode_error, dispatched,
  client_ip, raw_token, dispatch,
}
use truck.Biometric.Auth.Access.{Answers, dispatch-Answers}

module _ (hash : Text → Text) where
  -- 1 for a token that was looked up in vain.
  abbrev pub refused : Outcome → ℕ
  refused (too_many n) = 0
  refused unauthorized = 1
  refused unicode_error = 0
  refused (dispatched d) = 0

  abbrev IsDenied : Outcome → Type 0
  IsDenied (too_many n) = Unit
  IsDenied unauthorized = Unit
  IsDenied unicode_error = Unit
  IsDenied (dispatched d) = ⊥

  -- The number of tokens looked up in vain, added to `n`.
  unfoldable pub guesses : ℕ → List (Clock × Request) → State → ℕ
  guesses n [] s = n
  guesses n ((c, r) ∷ rs) s = let (o, s') = dispatch hash c r s in guesses (n + refused o) rs s'

  -- Requests from one address, within one window, none of which gets in.
  abbrev pub AreDenied : Text → ℕ → List (Clock × Request) → State → Type 0
  AreDenied ip start [] s = Unit
  AreDenied ip start ((c, r) ∷ rs) s =
      (client_ip r ≡ ip)
      × (c.arrived < start + limits.window)
      × (start ≤ c.failed)
      × (c.failed < start + limits.window)
      × IsDenied (dispatch hash c r s).0
      × AreDenied ip start rs (dispatch hash c r s).1

  step-Tracks :
      (start n : ℕ) (c : Clock) (ip token : Text) (s s' : State) (o : Outcome)
      → Answers hash c ip token s (o, s')
      → c.arrived < start + limits.window
      → start ≤ c.failed
      → c.failed < start + limits.window
      → IsDenied o
      → Tracks limits start n (lookup ip s.failures)
      → Tracks limits start (n + refused o) (lookup ip s'.failures)
  step-Tracks start n c ip token s s' (too_many k) (same, b) z a w d t =
      let q : n ≡ n + 0 = omega arith in
      subst (λ m. Tracks limits start m (lookup ip s'.failures)) q (rw same t)
  step-Tracks start n c ip token s s' unauthorized (free, u, v, e, o) z a w d t =
      let q : suc n ≡ n + 1 = omega arith in
      subst (λ m. Tracks limits start m (lookup ip s'.failures)) q
        (rw e (
          count_failure-Tracks limits start n c.arrived c.failed (lookup ip s.failures)
            (omega arith) (omega arith) t z a w free))
  step-Tracks start n c ip token s s' unicode_error (same, b) z a w d t =
      let q : n ≡ n + 0 = omega arith in
      subst (λ m. Tracks limits start m (lookup ip s'.failures)) q (rw same t)
  step-Tracks start n c ip token s s' (dispatched k) h z a w d t = absurd d

  guesses-Tracks :
      (ip : Text) (start n : ℕ) (rs : List (Clock × Request)) (s : State)
      → AreDenied ip start rs s
      → Tracks limits start n (lookup ip s.failures)
      → guesses n rs s ≤ 10
  unfolding guesses
  guesses-Tracks ip start n [] s h t = Tracks-le limits start n (lookup ip s.failures) t
  guesses-Tracks ip start n ((c, r) ∷ rs) s (here, z, a, w, d, h) t =
      let out = dispatch hash c r s in
      let answers : Answers hash c ip (raw_token r) s out =
        rw (sym here) (dispatch-Answers hash c r s) in
      guesses-Tracks ip start (n + refused out.0) rs out.1 h
        (step-Tracks start n c ip (raw_token r) s out.1 out.0 answers z a w d t)

  -- However many requests without a valid token come from one address within one window, in whatever
  -- way they are made up, at most ten of their tokens are looked up, if the address had no entry
  -- before; every other is refused with status 429 or raises.
  pub guesses-le :
      (ip : Text) (start : ℕ) (rs : List (Clock × Request)) (s : State)
      → AreDenied ip start rs s
      → lookup ip s.failures ≡ none
      → guesses 0 rs s ≤ 10
  guesses-le ip start rs s h e = guesses-Tracks ip start 0 rs s h (rw e refl)
