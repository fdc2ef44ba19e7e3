-- ===== src/Accounts.antt =====
-- Users, their profiles and the system log (accounts/models.py, accounts/mixins.py, accounts/logging.py,
-- accounts/signals.py). Passwords are left to the framework. An instant is a reading of the clock.
pub mod Manage
pub mod Valid
pub mod Serve
pub mod Pages
mod Examples
use truck.Base.{
  ℕ, suc, Bool, true, false, not, ◌&&◌, Option, none, some, List, [], ◌∷◌, Text, codes, text_eq,
  truthy, ◌==◌, if◌then◌else◌, select, first, any, update,
}

-- `ROLE_CHOICES`
pub data Role : Type 0 where
  simple admin master : Role

pub record User : Type 0 where
  pub pk : ℕ
  pub username : Text
  pub email : Text
  pub is_active : Bool
  pub is_superuser : Bool

pub record UserProfile : Type 0 where
  pub user : ℕ
  pub role : Role
  pub cpf : Option Text
  pub email_verified : Bool
  pub updated_at : ℕ

-- `ACTION_CHOICES`, those that the program writes here.
pub data Action : Type 0 where
  action_create action_update action_login action_logout : Action

-- The texts of the log's descriptions, each with what it names.
pub data Description : Type 0 where
  user_created : Text → Role → Description
  user_toggled : Text → Bool → Description
  role_changed : Text → Role → Role → Description
  own_email_updated own_password_updated login_done logout_done : Description
  email_confirmed : Text → Description

-- `username` is kept beside the key of the user. The columns for the address and the path of the request
-- are left out.
pub record SystemLog : Type 0 where
  pub user : Option ℕ
  pub username : Text
  pub action : Action
  pub description : Description
  pub timestamp : ℕ

-- The tables, newest row first; `next_user` is the next key.
pub record Db : Type 0 where
  pub users : List User
  pub profiles : List UserProfile
  pub logs : List SystemLog
  pub next_user : ℕ

abbrev pub has_pk : ℕ → User → Bool
has_pk pk u = u.pk == pk

abbrev pub profile_of : ℕ → UserProfile → Bool
profile_of pk p = p.user == pk

abbrev pub find_user : ℕ → Db → Option User
find_user pk db = first (select (has_pk pk) db.users)

abbrev pub find_profile : ℕ → Db → Option UserProfile
find_profile pk db = first (select (profile_of pk) db.profiles)

-- `get_role`
abbrev pub profile_role : Option UserProfile → Role
profile_role none = simple
profile_role (some p) = p.role

unfoldable pub get_role : User → Db → Role
get_role u db = if u.is_superuser then master else profile_role (find_profile u.pk db)

-- `can_edit` and `is_master` of a profile.
abbrev pub can_edit : Role → Bool
can_edit simple = false
can_edit admin = true
can_edit master = true

abbrev pub is_master : Role → Bool
is_master simple = false
is_master admin = false
is_master master = true

-- `SystemLog.save`: a row that has a key is refused.
pub data Saved : Type 0 where
  permission_error : Saved
  written : Db → Saved

unfoldable pub save_log : Option ℕ → SystemLog → Db → Saved
save_log (some pk) entry db = permission_error
save_log none entry db = written (record db { logs = entry ∷ db.logs })

-- Who makes a request; a user who is not active counts as anonymous.
pub data Viewer : Type 0 where
  anonymous : Viewer
  signed_in : User → Viewer

abbrev pub entry_of : Viewer → Action → Description → ℕ → SystemLog
entry_of anonymous action description now = record {
  user = none;
  username = codes "anônimo";
  action = action;
  description = description;
  timestamp = now;
}
entry_of (signed_in u) action description now = record {
  user = some u.pk;
  username = u.username;
  action = action;
  description = description;
  timestamp = now;
}

-- `log_action`: the row is new, so that its save is not refused.
abbrev pub written_or : Db → Saved → Db
written_or db permission_error = db
written_or db (written db') = db'

unfoldable pub log_action : Viewer → Action → Description → ℕ → Db → Db
unfolding save_log
log_action viewer action description now db =
    written_or db (save_log none (entry_of viewer action description now) db)

-- `UserProfile.objects.get_or_create(user=...)`, which the signal calls for a new user as well.
abbrev pub new_profile : ℕ → ℕ → UserProfile
new_profile pk now = record {
  user = pk;
  role = simple;
  cpf = none;
  email_verified = false;
  updated_at = now;
}

abbrev pub profile_or : ℕ → ℕ → Db → Option UserProfile → UserProfile × Db
profile_or pk now db (some p) = (p, db)
profile_or pk now db none =
    (new_profile pk now, record db { profiles = new_profile pk now ∷ db.profiles })

abbrev pub get_or_create_profile : ℕ → ℕ → Db → UserProfile × Db
get_or_create_profile pk now db = profile_or pk now db (find_profile pk db)

-- `profile.save()` and `save()` of a user: the stored row with the key is replaced by the changed one.
abbrev pub save_profile : ℕ → (UserProfile → UserProfile) → Db → Db
save_profile pk g db = record db { profiles = update (profile_of pk) g db.profiles }

abbrev pub save_user : ℕ → (User → User) → Db → Db
save_user pk g db = record db { users = update (has_pk pk) g db.users }
