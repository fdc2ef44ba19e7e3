-- ===== src/RateLimit/Bound.antt =====
-- How many failed logins the limit lets through (employee_truck_control/rate_limit.py).
use truck.Base.{
  ℕ, suc, ◌+◌, ◌≤◌, ◌<◌, ◌≡◌, refl, true, false, Option, none, some, inl, inr, List, [], ◌∷◌, arith,
  Text, codes, text_eq, truthy, lookup, lookup-insert_self, Bool-cases, All,
}
use mathlib.Core.Path.{subst}
use truck.RateLimit.{
  Request, Response, Stores, Reply, too_many, answered, ip_limits, account_limits, get_ip,
  get_account_key, failed, blocked_entry, account_entry, settle, answer, call,
}
use truck.RateLimit.Counter.{
  Limits, Entry, is_blocked, count_failure, Tracks, count_failure-Tracks, Tracks-le,
}

pub record Attempt : Type 0 where
  pub now : ℕ
  pub request : Request
  pub response : Response

module _ (lower : Text → Text) (login_path : Text) where
  -- A failed post to the login page.
  abbrev pub IsFailedLogin : Attempt → Type 0
  IsFailedLogin a =
      (text_eq a.request.method (codes "POST") ≡ true)
      × (text_eq a.request.path login_path ≡ true)
      × (failed a.response ≡ true)

  abbrev pub let_through : Reply → ℕ
  let_through (too_many n) = 0
  let_through (answered r) = 1

  -- The number of attempts that reach the inner handlers, added to `n`.
  unfoldable pub passed : ℕ → List Attempt → Stores → ℕ
  passed n [] s = n
  passed n (a ∷ as') s =
      let (reply, s') = call lower login_path a.now a.request a.response s in
      passed (n + let_through reply) as' s'

  -- What one failed login does to the entry of its address, and to that of its account.
  abbrev Effect : Limits → ℕ → Option Entry → Option Entry → Reply → Type 0
  Effect l now e e' (too_many n) = e' ≡ e
  Effect l now e e' (answered r) = (is_blocked now e ≡ false) × (e' ≡ some (count_failure l now e))

  blocked_some : (now : ℕ) (e : Option Entry) → is_blocked now e ≡ true → (d : Entry) × (e ≡ some d)
  blocked_some now none b = cc
  blocked_some now (some d) b = (d, refl)

  abbrev outcome : ℕ → Text → Text → Response → Stores → Reply × Stores
  outcome now ip account response s =
      answer lower login_path now ip account response
        (blocked_entry now (lookup ip s.ips) (account_entry lower login_path account s)) s

  -- The three ways through `answer`.
  module _ (now : ℕ) (ip account : Text) (response : Response) (s : Stores)
      (f : failed response ≡ true) where
    abbrev out : Reply × Stores
    out = outcome now ip account response s

    ip-Effect : Effect ip_limits now (lookup ip s.ips) (lookup ip out.1.ips) out.0
    unfolding answer settle
    ip-Effect = elim (Bool-cases (is_blocked now (lookup ip s.ips))) [
      | inl b ↦ let (e, h) = blocked_some now (lookup ip s.ips) b in rw b (rw h h)
      | inr n ↦ elim (Bool-cases (is_blocked now (account_entry lower login_path account s))) [
        | inl b ↦
            let (e, h) = blocked_some now (account_entry lower login_path account s) b in
            rw n (rw b (rw h refl))
        | inr k ↦ rw n (
            rw k (
              rw f
                (n, lookup-insert_self ip (count_failure ip_limits now (lookup ip s.ips)) s.ips)))
      ]
    ]

    account-Effect :
        truthy account ≡ true
        → Effect account_limits now
            (lookup account s.accounts)
            (lookup account out.1.accounts)
            out.0
    unfolding answer settle
    account-Effect t = elim (Bool-cases (is_blocked now (lookup ip s.ips))) [
      | inl b ↦ let (e, h) = blocked_some now (lookup ip s.ips) b in rw b (rw h refl)
      | inr n ↦ elim (Bool-cases (is_blocked now (lookup account s.accounts))) [
        | inl b ↦
            let (e, h) = blocked_some now (lookup account s.accounts) b in
            rw t (rw n (rw b (rw h h)))
        | inr k ↦ rw t (
            rw n (
              rw k (
                rw f (
                  rw t (
                    k,
                    lookup-insert_self account
                        (count_failure account_limits now (lookup account s.accounts)) s.accounts,
                  )))))
      ]
    ]

  -- One step of the count.
  Effect-Tracks :
      (l : Limits) (start n now : ℕ) (e e' : Option Entry) (r : Reply)
      → 2 ≤ l.attempts
      → l.window ≤ l.block
      → Effect l now e e' r
      → start ≤ now
      → now < start + l.window
      → Tracks l start n e
      → Tracks l start (n + let_through r) e'
  Effect-Tracks l start n now e e' (too_many k) two wide h s w t =
      let q : n ≡ n + 0 = omega arith in subst (λ m. Tracks l start m e') q (rw h t)
  Effect-Tracks l start n now e e' (answered r) two wide (free, h) s w t =
      let q : suc n ≡ n + 1 = omega arith in
      subst (λ m. Tracks l start m e') q
        (rw h (count_failure-Tracks l start n now now e two wide t w s w free))

  call_login :
      (a : Attempt) (s : Stores)
      → IsFailedLogin a
      → call lower login_path a.now a.request a.response s
        ≡ outcome a.now (get_ip a.request) (get_account_key lower login_path a.request) a.response s
  unfolding call
  call_login a s (m, p, f) = rw (m, p)

  -- The attempts come within one window of the address's limit, and are made from one address.
  abbrev pub FromIp : Text → ℕ → Attempt → Type 0
  FromIp ip start a =
      IsFailedLogin a
      × (get_ip a.request ≡ ip)
      × (start ≤ a.now)
      × (a.now < start + ip_limits.window)

  abbrev pub OnAccount : Text → ℕ → Attempt → Type 0
  OnAccount account start a =
      IsFailedLogin a
      × (get_account_key lower login_path a.request ≡ account)
      × (start ≤ a.now)
      × (a.now < start + account_limits.window)

  passed_ip :
      (ip : Text) (start n : ℕ) (as' : List Attempt) (s : Stores)
      → All (FromIp ip start) as'
      → Tracks ip_limits start n (lookup ip s.ips)
      → passed n as' s ≤ ip_limits.attempts
  unfolding passed
  passed_ip ip start n [] s h t = Tracks-le ip_limits start n (lookup ip s.ips) t
  passed_ip ip start n (a ∷ as') s ((login, here, late, early), h) t =
      let r = call lower login_path a.now a.request a.response s in
      let e =
        ip-Effect a.now (get_ip a.request) (get_account_key lower login_path a.request) a.response s
          login.2 in
      passed_ip ip start (n + let_through r.0) as' r.1 h (
        Effect-Tracks ip_limits start n a.now (lookup ip s.ips) (lookup ip r.1.ips) r.0
          (omega arith) (omega arith) (rw (call_login a s login) (rw here (rw here at e))) late
          early t)

  passed_account :
      (account : Text) (start n : ℕ) (as' : List Attempt) (s : Stores)
      → truthy account ≡ true
      → All (OnAccount account start) as'
      → Tracks account_limits start n (lookup account s.accounts)
      → passed n as' s ≤ account_limits.attempts
  unfolding passed
  passed_account account start n [] s k h t =
      Tracks-le account_limits start n (lookup account s.accounts) t
  passed_account account start n (a ∷ as') s k ((login, here, late, early), h) t =
      let r = call lower login_path a.now a.request a.response s in
      let e =
        account-Effect a.now (get_ip a.request) (get_account_key lower login_path a.request)
          a.response s login.2 (rw here k) in
      passed_account account start (n + let_through r.0) as' r.1 k h (
        Effect-Tracks account_limits start n a.now (lookup account s.accounts)
          (lookup account r.1.accounts) r.0 (omega arith) (omega arith)
          (rw (call_login a s login) (rw here (rw here at e))) late early t)

  -- However many failed logins come from one address within one window, to whatever accounts and
  -- in whatever order, at most ten of them get past the limit, if the address had no entry before.
  pub passed_ip-le :
      (ip : Text) (start : ℕ) (as' : List Attempt) (s : Stores)
      → All (FromIp ip start) as'
      → lookup ip s.ips ≡ none
      → passed 0 as' s ≤ 10
  passed_ip-le ip start as' s h e = passed_ip ip start 0 as' s h (rw e refl)

  -- However many failed logins are made on one account within one window, from whatever addresses
  -- and in whatever order, at most fifteen of them get past the limit, if the account had no entry
  -- before.
  pub passed_account-le :
      (account : Text) (start : ℕ) (as' : List Attempt) (s : Stores)
      → truthy account ≡ true
      → All (OnAccount account start) as'
      → lookup account s.accounts ≡ none
      → passed 0 as' s ≤ 15
  passed_account-le account start as' s k h e = passed_account account start 0 as' s k h (rw e refl)
