-- ===== src/RateLimit/Reset.antt =====
-- What the login limit leaves alone, and what resets it (employee_truck_control/rate_limit.py).
use truck.Base.{
  ℕ, ◌+◌, ◌*◌, ◌≡◌, ◌≢◌, refl, true, false, Option, none, some, inl, inr, List, [], ◌∷◌, arith,
  Text, codes, text_eq, truthy, ◌&&◌, lookup, lookup-insert_self, lookup-pop_self, lookup-insert_ne,
  lookup-pop_ne, Bool-cases, All, length,
}
use truck.RateLimit.{
  Request, Response, Stores, Reply, too_many, answered, ip_limits, account_limits, get_ip,
  get_account_key, failed, blocked_entry, account_entry, settle, answer, call,
}
use truck.RateLimit.Counter.{Entry, is_blocked, count_failure}
use truck.RateLimit.Bound.{Attempt, IsFailedLogin, passed, let_through}

module _ (lower : Text → Text) (login_path : Text) where
  abbrev account_of : Request → Text
  account_of r = get_account_key lower login_path r

  -- The entries of other addresses and of other accounts.
  abbrev pub Elsewhere : Request → Stores → Stores → Type 0
  Elsewhere r s s' =
      ((i : Text) → i ≢ get_ip r → lookup i s'.ips ≡ lookup i s.ips)
      × ((a : Text) → a ≢ account_of r → lookup a s'.accounts ≡ lookup a s.accounts)

  settle-Elsewhere :
      (now : ℕ) (r : Request) (response : Response) (s : Stores)
      → Elsewhere r s (settle lower login_path now (get_ip r) (account_of r) response s)
  unfolding settle
  settle-Elsewhere now r response s = elim (Bool-cases (failed response)) [
    | inl f ↦ rw f (
      λ i n.
          lookup-insert_ne (get_ip r) i (count_failure ip_limits now (lookup (get_ip r) s.ips))
            s.ips n,
      λ a n. elim (Bool-cases (truthy (account_of r))) [
        | inl t ↦ rw t (
            lookup-insert_ne (account_of r) a
              (count_failure account_limits now (lookup (account_of r) s.accounts)) s.accounts n)
        | inr t ↦ rw t refl
      ],
    )
    | inr f ↦ rw f (
      λ i n. lookup-pop_ne (get_ip r) i s.ips n,
      λ a n. elim (Bool-cases (truthy (account_of r))) [
        | inl t ↦ rw t (lookup-pop_ne (account_of r) a s.accounts n)
        | inr t ↦ rw t refl
      ],
    )
  ]

  -- What the reply says of the stores.
  abbrev pub Kept : Stores → Reply × Stores → Type 0
  Kept s (too_many n, s') = s' ≡ s
  Kept s (answered r, s') = Unit

  answer-Kept :
      (now : ℕ) (r : Request) (response : Response) (e : Option Entry) (s : Stores)
      → Kept s (answer lower login_path now (get_ip r) (account_of r) response e s)
        × Elsewhere r s (answer lower login_path now (get_ip r) (account_of r) response e s).1
  unfolding answer
  answer-Kept now r response (some e) s = (refl, (λ i n. refl, λ a n. refl))
  answer-Kept now r response none s = (tt, settle-Elsewhere now r response s)

  -- A request that the limit refuses changes no counter, and no request changes the counter of
  -- another address or of another account.
  pub call_local :
      (now : ℕ) (r : Request) (response : Response) (s : Stores)
      → Kept s (call lower login_path now r response s)
        × Elsewhere r s (call lower login_path now r response s).1
  unfolding call
  call_local now r response s =
      elim (Bool-cases (text_eq r.method (codes "POST") && text_eq r.path login_path)) [
        | inl p ↦ rw p (
            answer-Kept now r response
              (blocked_entry now (lookup (get_ip r) s.ips)
                (account_entry lower login_path (account_of r) s))
              s)
        | inr p ↦ rw p (tt, (λ i n. refl, λ a n. refl))
      ]

  -- A post to the login page that is not answered by 200 or 302, by a user who is not logged in.
  abbrev pub IsRefusedPost : Attempt → Type 0
  IsRefusedPost a =
      (text_eq a.request.method (codes "POST") ≡ true)
      × (text_eq a.request.path login_path ≡ true)
      × (failed a.response ≡ false)
      × (a.response.authenticated ≡ false)

  -- A failed login and a refused post of one address on one account.
  abbrev pub IsPair : Text → Text → Attempt × Attempt → Type 0
  IsPair ip account (a, b) =
      IsFailedLogin lower login_path a
      × IsRefusedPost b
      × (get_ip a.request ≡ ip)
      × (get_ip b.request ≡ ip)
      × (account_of a.request ≡ account)
      × (account_of b.request ≡ account)

  abbrev pub flatten : List (Attempt × Attempt) → List Attempt
  flatten [] = []
  flatten ((a, b) ∷ ps) = a ∷ b ∷ flatten ps

  abbrev calls : Attempt → Stores → Reply × Stores
  calls a s = call lower login_path a.now a.request a.response s

  -- Neither entry blocks, at any instant.
  abbrev IsFree : Text → Text → Stores → Type 0
  IsFree ip account s =
      (now : ℕ)
      → (is_blocked now (lookup ip s.ips) ≡ false)
        × (is_blocked now (lookup account s.accounts) ≡ false)

  abbrev IsClean : Text → Text → Stores → Type 0
  IsClean ip account s = (lookup ip s.ips ≡ none) × (lookup account s.accounts ≡ none)

  call_free :
      (ip account : Text) (a : Attempt) (s : Stores)
      → text_eq a.request.method (codes "POST") ≡ true
      → text_eq a.request.path login_path ≡ true
      → get_ip a.request ≡ ip
      → account_of a.request ≡ account
      → truthy account ≡ true
      → IsFree ip account s
      → calls a s ≡ (answered a.response, settle lower login_path a.now ip account a.response s)
  unfolding call answer
  call_free ip account a s m p i x t f =
      rw (m, p) (rw (i, x) (rw t (rw ((f a.now).0, (f a.now).1) refl)))

  module _ (now : ℕ) (ip account : Text) (response : Response) (s : Stores)
      (t : truthy account ≡ true) where
    abbrev after : Stores
    after = settle lower login_path now ip account response s

    settle_failed : failed response ≡ true → IsClean ip account s → IsFree ip account after
    unfolding settle count_failure
    settle_failed f (c, d) n = rw f (
        rw t (
          rw c (
            rw d (
              rw (lookup-insert_self ip (count_failure ip_limits now none) s.ips) (ground arith),
              rw (lookup-insert_self account (count_failure account_limits now none) s.accounts)
                  (ground arith),
            ))))

    settle_refused : failed response ≡ false → IsClean ip account after
    unfolding settle
    settle_refused f = rw f (rw t (lookup-pop_self ip s.ips, lookup-pop_self account s.accounts))

  module _ (ip account : Text) (a b : Attempt) (s : Stores) (t : truthy account ≡ true) where
    pair_calls :
        IsPair ip account (a, b)
        → IsClean ip account s
        → (let_through lower login_path (calls a s).0 ≡ 1)
          × (let_through lower login_path (calls b (calls a s).1).0 ≡ 1)
          × IsClean ip account (calls b (calls a s).1).1
    pair_calls (login, refused, i, j, x, y) (c, d) =
        let first = settle lower login_path a.now ip account a.response s in
        let free = settle_failed a.now ip account a.response s t login.2 (c, d) in
        let p = call_free ip account a s login.0 login.1 i x t (λ n. rw (c, d) (refl, refl)) in
        let q = call_free ip account b first refused.0 refused.1 j y t free in
        rw p (rw q (refl, refl, settle_refused b.now ip account b.response first t refused.2))

  passed_pairs :
      (ip account : Text) (n : ℕ) (ps : List (Attempt × Attempt)) (s : Stores)
      → truthy account ≡ true
      → All (IsPair ip account) ps
      → IsClean ip account s
      → passed lower login_path n (flatten ps) s ≡ n + 2 * length ps
  unfolding passed
  passed_pairs ip account n [] s t h c = omega arith
  passed_pairs ip account n ((a, b) ∷ ps) s t (h, hs) c =
      let (p, q, d) = pair_calls ip account a b s t h c in
      rw (p, passed)
        (rw (q, passed)
          (omega (arith, passed_pairs ip account (n + 1 + 1) ps (calls b (calls a s).1).1 t hs d)))

  -- A failed login followed by a post to the login page that is answered by another status than 200
  -- and 302, such as one refused for its missing CSRF token, repeated however often from one address
  -- on one account, is never refused by the limit, if address and account had no entry before.
  pub passed_unlimited :
      (ip account : Text) (ps : List (Attempt × Attempt)) (s : Stores)
      → truthy account ≡ true
      → All (IsPair ip account) ps
      → lookup ip s.ips ≡ none
      → lookup account s.accounts ≡ none
      → passed lower login_path 0 (flatten ps) s ≡ 2 * length ps
  passed_unlimited ip account ps s t h c d =
      omega (arith, passed_pairs ip account 0 ps s t h (c, d))
