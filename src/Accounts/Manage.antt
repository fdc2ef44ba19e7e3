-- ===== src/Accounts/Manage.antt =====
-- The views that manage users (accounts/views.py) and the forms behind them (accounts/forms.py). The
-- database's case folding, the framework's normal forms of a name and an address, its test of an address
-- and the decimal value of a character are parameters.
use truck.Base.{
  ℕ, suc, Bool, true, false, not, ◌&&◌, ◌||◌, Option, none, some, ◌∷◌, Text, text_eq, strip, truthy,
  ◌==◌, if◌then◌else◌, select, first, any,
}
use truck.Validators.{digits, characters, validate_cpf}
use truck.Accounts.{
  Role, simple, User, UserProfile, action_create, action_update, user_created, user_toggled,
  role_changed, own_email_updated, email_confirmed, Db, has_pk, find_user, find_profile, Viewer,
  anonymous, signed_in, log_action, get_or_create_profile, save_profile, save_user,
}

pub record TextFunctions : Type 0 where
  pub fold : Text → Text
  pub normalize_username : Text → Text
  pub normalize_email : Text → Text
  pub email_ok : Text → Bool
  pub decimal : ℕ → Option ℕ

pub record UserForm : Type 0 where
  pub username : Text
  pub password : Text
  pub email : Text
  pub cpf : Text
  pub role : Option Role

-- The ways out of the views: a page with an error, or a change. `login` and `forbidden` are those of the
-- mixins, and the two errors are exceptions that nothing catches.
pub data Reply : Type 0 where
  login forbidden not_found integrity_error no_profile : Reply
  missing_fields invalid_email invalid_cpf username_taken email_taken cpf_taken : Reply
  own_account already_verified no_email invalid_link : Reply
  created toggled role_updated email_updated verified : Reply
  mailed not_mailed : Reply

-- `if role not in dict(UserProfile.ROLE_CHOICES)`: another text, or none, is the simple role.
abbrev pub role_or_simple : Option Role → Role
role_or_simple none = simple
role_or_simple (some r) = r

abbrev pub flip : User → User
flip u = record u { is_active = not u.is_active }

module _ (f : TextFunctions) where
  abbrev pub named : Text → User → Bool
  named username u = text_eq u.username username

  -- `email__iexact`
  abbrev pub mailed_to : Text → User → Bool
  mailed_to email u = text_eq (f.fold u.email) (f.fold email)

  abbrev pub has_cpf : Option Text → Text → Bool
  has_cpf none cpf = false
  has_cpf (some c) cpf = text_eq c cpf

  abbrev pub identified : Text → UserProfile → Bool
  identified cpf p = has_cpf p.cpf cpf

  -- `create_user`, with the profile that the signal makes.
  abbrev pub new_user : Text → Text → ℕ → User
  new_user username email pk = record {
    pk = pk;
    username = f.normalize_username username;
    email = f.normalize_email email;
    is_active = true;
    is_superuser = false;
  }

  abbrev pub add_user : User → ℕ → Db → Db
  add_user u now db =
      (get_or_create_profile u.pk now
        (record db { users = u ∷ db.users; next_user = suc db.next_user })).1

  -- The role and the CPF of the new profile, and the log.
  abbrev pub complete : Viewer → User → Text → Role → Text → ℕ → Db → Db
  complete viewer u cpf role username now db =
      log_action viewer action_create (user_created username role) now (
        save_profile u.pk (λ p. record p { role = role; cpf = some cpf; updated_at = now })
          (get_or_create_profile u.pk now db).1)

  -- The database refuses a second user with the name.
  abbrev pub create_checked : Viewer → Text → Text → Text → Role → ℕ → Db → Reply × Db
  create_checked viewer username email cpf role now db =
      let u = new_user username email db.next_user in
      if any (named u.username) db.users
      then (integrity_error, db)
      else (created, complete viewer u cpf role username now (add_user u now db))

  -- The checks of `UserCreateView.post`, in their order, on the stripped texts.
  abbrev pub create_stripped : Viewer → Text → Text → Text → Text → Role → ℕ → Db → Reply × Db
  create_stripped viewer username password email cpf role now db =
      let cpf_digits = characters f.decimal (digits f.decimal cpf) in
      if not (truthy username && truthy password && truthy email && truthy cpf)
      then (missing_fields, db)
      else if not (f.email_ok email)
      then (invalid_email, db)
      else if not (validate_cpf f.decimal cpf)
      then (invalid_cpf, db)
      else if any (named username) db.users
      then (username_taken, db)
      else if any (mailed_to email) db.users
      then (email_taken, db)
      else if any (identified cpf_digits) db.profiles
      then (cpf_taken, db)
      else create_checked viewer username email cpf_digits role now db

  unfoldable pub create : Viewer → UserForm → ℕ → Db → Reply × Db
  create viewer form now db =
      create_stripped viewer (strip form.username) (strip form.password) (strip form.email)
        (strip form.cpf) (role_or_simple form.role) now db

  -- `UserToggleActiveView.post`. The user is saved before the profile is looked up.
  abbrev pub touch : Viewer → User → ℕ → Db → Option UserProfile → Reply × Db
  touch viewer u now db none = (no_profile, db)
  touch viewer u now db (some p) = (
    toggled,
    log_action viewer action_update (user_toggled u.username (not u.is_active)) now
        (save_profile u.pk (λ q. record q { updated_at = now }) db),
  )

  abbrev pub is_self : Viewer → ℕ → Bool
  is_self anonymous pk = false
  is_self (signed_in v) pk = v.pk == pk

  abbrev pub toggle_found : Viewer → ℕ → Db → Option User → Reply × Db
  toggle_found viewer now db none = (not_found, db)
  toggle_found viewer now db (some u) =
      if is_self viewer u.pk
      then (own_account, db)
      else touch viewer u now (save_user u.pk flip db) (find_profile u.pk db)

  unfoldable pub toggle : Viewer → ℕ → ℕ → Db → Reply × Db
  toggle viewer pk now db = toggle_found viewer now db (find_user pk db)

  -- `UserChangeRoleView.post`
  abbrev pub role_found : Viewer → Role → ℕ → Db → Option User → Reply × Db
  role_found viewer role now db none = (not_found, db)
  role_found viewer role now db (some u) =
      let (p, db') = get_or_create_profile u.pk now db in
      (
        role_updated,
        log_action viewer action_update (role_changed u.username p.role role) now
            (save_profile u.pk (λ q. record q { role = role; updated_at = now }) db'),
      )

  unfoldable pub change_role : Viewer → ℕ → Option Role → ℕ → Db → Reply × Db
  change_role viewer pk role now db =
      role_found viewer (role_or_simple role) now db (find_user pk db)

  -- `VerifyEmailView.get`: `uid` is what the link's first part decodes to, and `valid` whether the token
  -- fits the user.
  abbrev pub verify_found : Viewer → Bool → ℕ → Db → Option User → Reply × Db
  verify_found viewer valid now db none = (invalid_link, db)
  verify_found viewer false now db (some u) = (invalid_link, db)
  verify_found viewer true now db (some u) =
      let (p, db') = get_or_create_profile u.pk now db in
      (
        verified,
        log_action viewer action_update (email_confirmed u.username) now
            (save_profile u.pk (λ q. record q { email_verified = true; updated_at = now }) db'),
      )

  abbrev pub user_of : Option ℕ → Db → Option User
  user_of none db = none
  user_of (some pk) db = find_user pk db

  unfoldable pub verify : Viewer → Option ℕ → Bool → ℕ → Db → Reply × Db
  verify viewer uid valid now db = verify_found viewer valid now db (user_of uid db)

  -- `ResendVerificationView.post`: `sent` is whether the mail goes out.
  abbrev pub resend_found : Bool → ℕ → Db → Option User → Reply × Db
  resend_found sent now db none = (not_found, db)
  resend_found sent now db (some u) =
      let (p, db') = get_or_create_profile u.pk now db in
      if p.email_verified
      then (already_verified, db')
      else if not (truthy u.email)
      then (no_email, db')
      else if sent
      then (mailed, db')
      else (not_mailed, db')

  unfoldable pub resend : ℕ → Bool → ℕ → Db → Reply × Db
  resend pk sent now db = resend_found sent now db (find_user pk db)

  -- The form of `MyAccountView.post` for the address: another user must not have it.
  abbrev pub of_another : ℕ → Text → User → Bool
  of_another pk email u = not (has_pk pk u) && mailed_to email u

  abbrev pub update_stripped : User → Text → ℕ → Db → Reply × Db
  update_stripped u email now db =
      if truthy email && not (f.email_ok email)
      then (invalid_email, db)
      else if any (of_another u.pk email) db.users
      then (email_taken, db)
      else (
        email_updated,
        log_action (signed_in u) action_update own_email_updated now
            (save_user u.pk (λ v. record v { email = email }) db),
      )

  unfoldable pub update_email : User → Text → ℕ → Db → Reply × Db
  update_email u email now db = update_stripped u (strip email) now db

  -- `CPFOrUsernameAuthenticationForm.clean`: the name that is checked with the password.
  abbrev pub username_of : Text → Db → Option UserProfile → Text
  username_of entered db none = entered
  username_of entered db (some p) = elim (find_user p.user db) [
    | none ↦ entered
    | some u ↦ u.username
  ]

  unfoldable pub login_name : Bool → Text → Db → Text
  login_name by_username entered db =
      if not (truthy entered) || by_username
      then entered
      else username_of entered db (
          first (select (identified (characters f.decimal (digits f.decimal entered))) db.profiles))
