-- ===== src/Accounts/Serve/Allowed.antt =====
-- Who may change what, and what any sequence of requests leaves (accounts/views.py, accounts/mixins.py).
use truck.Base.{
  ℕ, suc, ◌≤◌, ◌≡◌, refl, sym, ap, ◌∙◌, true, ◌⊎◌, inl, inr, List, [], ◌∷◌, ◌++◌, arith, Bool-cases,
  strip,
}
use mathlib.Core.Path.{subst}
use truck.Base.{length, length-append}
use truck.Accounts.Serve.Logged.Requests.{
  create_stripped-Outcome, toggle_found-Outcome, role_found-Outcome, resend_found-Outcome,
  verify_found-Outcome, update_stripped-Outcome,
}
use truck.Accounts.{is_master, get_role, SystemLog, Db, find_user, Viewer, anonymous, signed_in}
use truck.Accounts.Manage.{
  TextFunctions, Reply, create, toggle, role_or_simple, change_role, user_of, verify, resend,
  update_email,
}
use truck.Accounts.Valid.{IsLawful, IsValid}
use truck.Accounts.Serve.{
  Request, create_user, toggle_user, role_of, resend_to, verify_link, own_email, master_only, serve,
}
use truck.Accounts.Serve.Logged.{Logged, Outcome}

module _ (f : TextFunctions) (now : ℕ) where
  -- Who may make a request.
  abbrev pub IsMaster : Viewer → Db → Type 0
  IsMaster anonymous db = ⊥
  IsMaster (signed_in u) db = is_master (get_role u db) ≡ true

  abbrev pub IsSignedIn : Viewer → Type 0
  IsSignedIn anonymous = ⊥
  IsSignedIn (signed_in u) = Unit

  abbrev pub IsAllowed : Viewer → Request → Db → Type 0
  IsAllowed viewer (create_user form) db = IsMaster viewer db
  IsAllowed viewer (toggle_user pk) db = IsMaster viewer db
  IsAllowed viewer (role_of pk role) db = IsMaster viewer db
  IsAllowed viewer (resend_to pk sent) db = IsMaster viewer db
  IsAllowed viewer (verify_link uid valid) db = Unit
  IsAllowed viewer (own_email email) db = IsSignedIn viewer

  abbrev pub Served : Viewer → Request → Db → Reply × Db → Type 0
  Served viewer req db x = (x.1 ≡ db) ⊎ (IsAllowed viewer req db × Logged f viewer now db x.1)

  allowed :
      (viewer : Viewer) (req : Request) (db : Db) (x : Reply × Db)
      → IsAllowed viewer req db
      → Outcome f viewer now db x
      → Served viewer req db x
  allowed viewer req db x a (inl same) = inl same
  allowed viewer req db x a (inr l) = inr (a, l)

  master_only-Served :
      (viewer : Viewer) (req : Request) (db : Db) (x : Reply × Db)
      → (IsMaster viewer db → IsAllowed viewer req db)
      → Outcome f viewer now db x
      → Served viewer req db (master_only viewer db x)
  master_only-Served anonymous req db x a o = inl refl
  master_only-Served (signed_in u) req db x a o = elim (Bool-cases (is_master (get_role u db))) [
    | inl m ↦ rw m (allowed (signed_in u) req db x (a m) o)
    | inr n ↦ rw n (inl refl)
  ]

  -- On valid tables a request to the pages of the accounts either changes nothing, or it is allowed to the
  -- viewer, the tables are valid afterwards, the log has one entry more, by the viewer and of this time,
  -- and the viewer is still active if they were. The management is allowed only to a master, a change of
  -- the own address to one who is signed in.
  pub serve-Served :
      (viewer : Viewer) (req : Request) (db : Db)
      → IsLawful f
      → IsValid f db
      → Served viewer req db (serve f viewer req now db)
  unfolding serve create toggle change_role resend verify update_email
  serve-Served viewer (create_user form) db law v =
      master_only-Served viewer (create_user form) db _ (λ m. m)
        (create_stripped-Outcome f now viewer db v (strip form.username) (strip form.password)
          (strip form.email) (strip form.cpf) (role_or_simple form.role) law)
  serve-Served viewer (toggle_user pk) db law v =
      master_only-Served viewer (toggle_user pk) db _ (λ m. m)
        (toggle_found-Outcome f now viewer db v pk (find_user pk db) refl)
  serve-Served viewer (role_of pk role) db law v =
      master_only-Served viewer (role_of pk role) db _ (λ m. m)
        (role_found-Outcome f now viewer db v pk (role_or_simple role) (find_user pk db) refl)
  serve-Served viewer (resend_to pk sent) db law v =
      master_only-Served viewer (resend_to pk sent) db _ (λ m. m)
        (resend_found-Outcome f now viewer db v pk sent (find_user pk db) refl)
  serve-Served viewer (verify_link uid valid) db law v =
      allowed viewer (verify_link uid valid) db (verify f viewer uid valid now db) tt
        (verify_found-Outcome f now viewer db v uid valid (user_of f uid db) refl)
  serve-Served anonymous (own_email email) db law v = inl refl
  serve-Served (signed_in u) (own_email email) db law v =
      allowed (signed_in u) (own_email email) db (update_email f u email now db) tt
        (update_stripped-Outcome f now u (strip email) db v)

-- Requests one after the other, each with its viewer and its time.
abbrev pub serve_all : TextFunctions → List (Viewer × Request × ℕ) → Db → Db
serve_all f [] db = db
serve_all f ((viewer, req, now) ∷ rs) db = serve_all f rs (serve f viewer req now db).1

-- The log is as it was, behind no more entries than there were requests.
pub record Grown (n : ℕ) (db db' : Db) : Type 0 where
  pub entries : List SystemLog
  pub logs : db'.logs ≡ entries ++ db.logs
  pub no_more : length entries ≤ n

append_one :
    (xs : List SystemLog) (x : SystemLog) (ys : List SystemLog)
    → xs ++ (x ∷ ys) ≡ (xs ++ (x ∷ [])) ++ ys
append_one [] x ys = refl
append_one (z ∷ xs) x ys = ap (λ l. z ∷ l) (append_one xs x ys)

behind_one :
    (n : ℕ) (entry : SystemLog) (db d db' : Db)
    → d.logs ≡ entry ∷ db.logs
    → Grown n d db'
    → Grown (suc n) db db'
behind_one n entry db d db' l g = record {
  entries = g.entries ++ entry ∷ [];
  logs = g.logs ∙ ap (λ ls. g.entries ++ ls) l ∙ append_one g.entries entry db.logs;
  no_more = omega (arith, g.no_more, length-append g.entries (entry ∷ []));
}

module _ (f : TextFunctions) (law : IsLawful f) where
  after_one :
      (viewer : Viewer) (req : Request) (now : ℕ) (rs : List (Viewer × Request × ℕ)) (db d : Db)
      → IsValid f db
      → (d ≡ db) ⊎ (IsAllowed f now viewer req db × Logged f viewer now db d)
      → ((e : Db)
          → IsValid f e
          → IsValid f (serve_all f rs e) × Grown (length rs) e (serve_all f rs e))
      → IsValid f (serve_all f rs d) × Grown (suc (length rs)) db (serve_all f rs d)
  after_one viewer req now rs db d v (inl same) k =
      let (v', g) =
        subst (λ e. IsValid f (serve_all f rs e) × Grown (length rs) db (serve_all f rs e))
          (sym same) (k db v) in
      (v', record { entries = g.entries; logs = g.logs; no_more = omega (arith, g.no_more) })
  after_one viewer req now rs db d v (inr (a, l)) k =
      let (v', g) = k d l.valid in
      (v', behind_one (length rs) l.entry db d (serve_all f rs d) l.logs g)

  -- Whatever requests are made to the pages of the accounts, by whomever, in whatever order: the names,
  -- the addresses and the CPFs of the users stay distinct, every user keeps a profile, and no entry of the
  -- log is altered or lost; there is at most one entry more for each request.
  pub serve_all-Grown :
      (rs : List (Viewer × Request × ℕ)) (db : Db)
      → IsValid f db
      → IsValid f (serve_all f rs db) × Grown (length rs) db (serve_all f rs db)
  serve_all-Grown [] db v = (v, record { entries = []; logs = refl; no_more = omega arith })
  serve_all-Grown ((viewer, req, now) ∷ rs) db v =
      after_one viewer req now rs db (serve f viewer req now db).1 v
        (serve-Served f now viewer req db law v) (λ e w. serve_all-Grown rs e w)
