-- ===== src/Accounts/Serve/Logged/Requests.antt =====
-- What each of the views changes (accounts/views.py).
use truck.Base.{
  ℕ, ◌≡◌, refl, sym, ap, Bool, true, false, not, ◌&&◌, Option, none, some, inl, inr, List, ◌∷◌,
  arith, ◌==◌, Bool-cases, Text, truthy, any, update, count, count-any, count-update_eq,
  count-update_away, if◌then◌else◌,
}
use mathlib.Core.Option.{some-ne-none}
use truck.Validators.{digits, characters, validate_cpf}
use truck.Accounts.{
  Role, User, UserProfile, action_create, action_update, user_created, user_toggled, role_changed,
  own_email_updated, email_confirmed, Db, has_pk, profile_of, find_user, save_profile, save_user,
  Viewer, anonymous, signed_in,
}
use truck.Accounts.Manage.{
  TextFunctions, Reply, missing_fields, invalid_email, invalid_cpf, username_taken, email_taken,
  cpf_taken, integrity_error, own_account, already_verified, no_email, mailed, named, mailed_to,
  identified, has_cpf, new_user, add_user, complete, create_stripped, flip, toggle_found, is_self,
  role_found, verify_found, user_of, resend_found, update_stripped, of_another,
}
use truck.Accounts.Valid.{IsLawful, IsValid, save_user-IsValid, save_profile-IsValid}
use truck.Accounts.Valid.Keeps.{
  email_stays_one, cpf_stays_one, added, add_user-eq, added_profile, added-IsValid,
}
use truck.Accounts.Serve.Logged.{
  active_as, StaysActive, Logged, Outcome, log_action-Logged, same_active, has_profile,
}

module _ (f : TextFunctions) (now : ℕ) where
  -- A new row is at most one more active user.
  added_active : (v : Viewer) (u : User) (us : List User) → StaysActive v us (u ∷ us)
  added_active anonymous u us = tt
  added_active (signed_in w) u us = elim (Bool-cases (active_as w.pk u)) [
    | inl h ↦ rw h (omega arith)
    | inr n ↦ rw n (omega arith)
  ]

  -- A change of a profile that keeps its user and its CPF.
  profile_changed :
      (g : UserProfile → UserProfile) (pk : ℕ) (db : Db)
      → ((p : UserProfile) → (g p).user ≡ p.user)
      → ((p : UserProfile) → (g p).cpf ≡ p.cpf)
      → IsValid f db
      → IsValid f (save_profile pk g db)
  profile_changed g pk db k c v =
      save_profile-IsValid f pk g db k
        (λ t.
          rw
            (count-update_eq (identified f t) (profile_of pk) g (λ p. ap (λ o. has_cpf f o t) (c p))
              db.profiles)
            (v.one_cpf t))
        v

  module _ (viewer : Viewer) (db : Db) (v : IsValid f db) where
    -- A check that refuses without a change, and what follows it.
    guarded :
        (b : Bool) (r : Reply) (y : Reply × Db)
        → (b ≡ false → Outcome f viewer now db y)
        → Outcome f viewer now db (if b then (r, db) else y)
    guarded true r y k = inl refl
    guarded false r y k = k refl

    complete-Logged :
        (username email cpf : Text) (role : Role)
        → IsLawful f
        → let u = new_user f username email db.next_user in
          any (named f u.username) db.users ≡ false
          → any (mailed_to f email) db.users ≡ false
          → any (identified f cpf) db.profiles ≡ false
          → Logged f viewer now db (complete f viewer u cpf role username now (add_user f u now db))
    complete-Logged username email cpf role law n m c =
        let u = new_user f username email db.next_user in
        let new : IsValid f (added f u now db) =
          added-IsValid f u now db email refl (law email) n m v in
        rw (add_user-eq f u now db refl v) (
          rw (added_profile f u now db) (
            log_action-Logged f viewer now action_create (user_created username role) db
              (save_profile u.pk (λ p. record p { role = role; cpf = some cpf; updated_at = now })
                (added f u now db))
              (save_profile-IsValid f u.pk
                (λ p. record p { role = role; cpf = some cpf; updated_at = now }) (added f u now db)
                (λ p. refl)
                (λ t.
                  cpf_stays_one f u.pk now role cpf t (added f u now db).profiles
                    (count-any (identified f cpf) db.profiles c) (new.one_profile u.pk)
                    (new.one_cpf t))
                new)
              refl (added_active viewer u db.users)))

    pub create_stripped-Outcome :
        (username password email cpf : Text) (role : Role)
        → IsLawful f
        → Outcome f viewer now db (create_stripped f viewer username password email cpf role now db)
    create_stripped-Outcome username password email cpf role law =
        let c = characters f.decimal (digits f.decimal cpf) in
        guarded (not (truthy username && truthy password && truthy email && truthy cpf))
          missing_fields _
          (λ a. guarded (not (f.email_ok email)) invalid_email _ (λ b.
            guarded (not (validate_cpf f.decimal cpf)) invalid_cpf _ (λ d.
              guarded (any (named f username) db.users) username_taken _ (λ e.
                guarded (any (mailed_to f email) db.users) email_taken _ (λ m.
                  guarded (any (identified f c) db.profiles) cpf_taken _ (λ k.
                    guarded (any (named f (f.normalize_username username)) db.users) integrity_error
                      _ (λ n. inr (complete-Logged username email c role law n m k))))))))

    -- Another user is still active after one is changed.
    others_active :
        (w : Viewer) (pk : ℕ)
        → is_self f w pk ≡ false
        → StaysActive w db.users (update (has_pk pk) flip db.users)
    others_active anonymous pk h = tt
    others_active (signed_in w) pk h =
        let same : count (active_as w.pk) (update (has_pk pk) flip db.users)
            ≡ count (active_as w.pk) db.users =
          count-update_away (active_as w.pk) (has_pk pk) flip
            (λ x q. let miss : (x.pk == w.pk) ≡ false = ground arith in rw miss refl) db.users in
        omega (arith, same)

    pub toggle_found-Outcome :
        (pk : ℕ) (o : Option User)
        → find_user pk db ≡ o
        → Outcome f viewer now db (toggle_found f viewer now db o)
    toggle_found-Outcome pk none h = inl refl
    toggle_found-Outcome pk (some u) h = guarded (is_self f viewer u.pk) own_account _ (λ other.
        let (p, has) = has_profile f viewer now pk u db v h in
        let db' = save_user u.pk flip db in
        let new : IsValid f db' =
          save_user-IsValid f u.pk flip db (λ x. refl) (λ x. refl)
            (λ t.
              rw (count-update_eq (mailed_to f t) (has_pk u.pk) flip (λ x. refl) db.users)
                (v.one_email t))
            v in
        rw has (
          inr (
            log_action-Logged f viewer now action_update (user_toggled u.username (not u.is_active))
              db (save_profile u.pk (λ q. record q { updated_at = now }) db')
              (profile_changed (λ q. record q { updated_at = now }) u.pk db' (λ q. refl) (λ q. refl)
                new)
              refl (others_active viewer u.pk other))))

    pub role_found-Outcome :
        (pk : ℕ) (role : Role) (o : Option User)
        → find_user pk db ≡ o
        → Outcome f viewer now db (role_found f viewer role now db o)
    role_found-Outcome pk role none h = inl refl
    role_found-Outcome pk role (some u) h =
        let (p, has) = has_profile f viewer now pk u db v h in
        rw has (
          inr (
            log_action-Logged f viewer now action_update (role_changed u.username p.role role) db
              (save_profile u.pk (λ q. record q { role = role; updated_at = now }) db)
              (profile_changed (λ q. record q { role = role; updated_at = now }) u.pk db (λ q. refl)
                (λ q. refl) v)
              refl (same_active f viewer now viewer db.users)))

    pub resend_found-Outcome :
        (pk : ℕ) (sent : Bool) (o : Option User)
        → find_user pk db ≡ o
        → Outcome f viewer now db (resend_found f sent now db o)
    resend_found-Outcome pk sent none h = inl refl
    resend_found-Outcome pk sent (some u) h =
        let (p, has) = has_profile f viewer now pk u db v h in
        rw has (
          guarded p.email_verified already_verified _ (λ a.
            guarded (not (truthy u.email)) no_email _ (λ b. guarded sent mailed _ (λ c. inl refl))))

    pub verify_found-Outcome :
        (uid : Option ℕ) (valid : Bool) (o : Option User)
        → user_of f uid db ≡ o
        → Outcome f viewer now db (verify_found f viewer valid now db o)
    verify_found-Outcome uid valid none h = inl refl
    verify_found-Outcome uid false (some u) h = inl refl
    verify_found-Outcome none true (some u) h = absurd (some-ne-none u (sym h))
    verify_found-Outcome (some pk) true (some u) h =
        let (p, has) = has_profile f viewer now pk u db v h in
        rw has (
          inr (
            log_action-Logged f viewer now action_update (email_confirmed u.username) db
              (save_profile u.pk (λ q. record q { email_verified = true; updated_at = now }) db)
              (profile_changed (λ q. record q { email_verified = true; updated_at = now }) u.pk db
                (λ q. refl) (λ q. refl) v)
              refl (same_active f viewer now viewer db.users)))

  pub update_stripped-Outcome :
      (u : User) (email : Text) (db : Db)
      → IsValid f db
      → Outcome f (signed_in u) now db (update_stripped f u email now db)
  update_stripped-Outcome u email db v =
      guarded (signed_in u) db v (truthy email && not (f.email_ok email)) invalid_email _ (λ a.
        guarded (signed_in u) db v (any (of_another f u.pk email) db.users) email_taken _ (λ free.
          let g : User → User = λ x. record x { email = email } in
          let same : count (active_as u.pk) (update (has_pk u.pk) g db.users)
              ≡ count (active_as u.pk) db.users =
            count-update_eq (active_as u.pk) (has_pk u.pk) g (λ x. refl) db.users in
          inr (
            log_action-Logged f (signed_in u) now action_update own_email_updated db
              (save_user u.pk g db)
              (save_user-IsValid f u.pk g db (λ x. refl) (λ x. refl)
                (λ t. email_stays_one f u.pk email t db.users free (v.one_key u.pk) (v.one_email t))
                v)
              refl (omega (arith, same)))))
