-- ===== src/Accounts/Serve/Logged.antt =====
-- What a request to the pages of the accounts changes (accounts/views.py).
pub mod Requests
use truck.Base.{
  ℕ, suc, ◌+◌, ◌≤◌, ◌≡◌, refl, sym, ap, ◌∙◌, Bool, true, false, not, ◌&&◌, ◌⊎◌, Option, none, some,
  inl, inr, List, [], ◌∷◌, arith, ◌==◌, ==_iff, Bool-cases, Option-cases, Text, truthy, select,
  first, any, update, count, count-first, count-update_eq, count-update_away, first-All, All-select,
  if◌then◌else◌,
}
use truck.Validators.{digits, characters, validate_cpf}
use truck.Accounts.{
  Role, User, UserProfile, SystemLog, Action, action_create, action_update, Description,
  user_created, Db, has_pk, profile_of, find_user, find_profile, get_or_create_profile, new_profile,
  profile_or, save_profile, save_user, Viewer, anonymous, signed_in, entry_of, save_log, log_action,
}
use truck.Accounts.Manage.{
  TextFunctions, Reply, named, mailed_to, identified, new_user, complete, create_checked,
  create_stripped, flip, touch, toggle_found, is_self, role_found, verify_found, resend_found,
  update_stripped, of_another,
}
use truck.Accounts.Valid.{IsLawful, IsValid, save_user-IsValid, save_profile-IsValid}
use truck.Accounts.Valid.Keeps.{
  log_action-IsValid, email_stays_one, cpf_stays_one, added, add_user-eq, added_profile,
  added-IsValid,
}

abbrev pub key_of : Viewer → Option ℕ
key_of anonymous = none
key_of (signed_in u) = some u.pk

abbrev pub active_as : ℕ → User → Bool
active_as pk u = has_pk pk u && u.is_active

-- The viewer is still active, if they were.
abbrev pub StaysActive : Viewer → List User → List User → Type 0
StaysActive anonymous us us' = Unit
StaysActive (signed_in v) us us' = count (active_as v.pk) us ≤ count (active_as v.pk) us'

module _ (f : TextFunctions) (viewer : Viewer) (now : ℕ) where
  -- One entry of the log, by the viewer, and valid tables.
  pub record Logged (db db' : Db) : Type 0 where
    pub valid : IsValid f db'
    pub entry : SystemLog
    pub logs : db'.logs ≡ entry ∷ db.logs
    pub user : entry.user ≡ key_of viewer
    pub timestamp : entry.timestamp ≡ now
    pub viewer_active : StaysActive viewer db.users db'.users

  abbrev pub Outcome : Db → Reply × Db → Type 0
  Outcome db x = (x.1 ≡ db) ⊎ Logged db x.1

  entry_user : (v : Viewer) (a : Action) (d : Description) → (entry_of v a d now).user ≡ key_of v
  entry_user anonymous a d = refl
  entry_user (signed_in u) a d = refl

  entry_timestamp :
      (v : Viewer) (a : Action) (d : Description) → (entry_of v a d now).timestamp ≡ now
  entry_timestamp anonymous a d = refl
  entry_timestamp (signed_in u) a d = refl

  -- A change of valid tables that keeps the log, and is then logged.
  log_action-Logged :
      (a : Action) (d : Description) (db db' : Db)
      → IsValid f db'
      → db'.logs ≡ db.logs
      → StaysActive viewer db.users db'.users
      → Logged db (log_action viewer a d now db')
  unfolding log_action save_log
  log_action-Logged a d db db' v l s = record {
    valid = unfold log_action save_log in log_action-IsValid f viewer a d now db' v;
    entry = entry_of viewer a d now;
    logs = ap (λ ls. entry_of viewer a d now ∷ ls) l;
    user = entry_user viewer a d;
    timestamp = entry_timestamp viewer a d;
    viewer_active = s;
  }

  same_active : (v : Viewer) (us : List User) → StaysActive v us us
  same_active anonymous us = tt
  same_active (signed_in u) us = omega arith

  -- A user who is found has a profile.
  has_profile :
      (pk : ℕ) (u : User) (db : Db)
      → IsValid f db
      → find_user pk db ≡ some u
      → (p : UserProfile) × (find_profile u.pk db ≡ some p)
  has_profile pk u db v h =
      let one : count (profile_of u.pk) db.profiles ≡ 1 =
        first-All (λ x. count (profile_of x.pk) db.profiles ≡ 1) (select (has_pk pk) db.users)
          (All-select (λ x. count (profile_of x.pk) db.profiles ≡ 1) (has_pk pk) db.users
            v.have_profiles)
          u h in
      elim (Option-cases (find_profile u.pk db)) [
        | inr found ↦ found
        | inl n ↦ absurd (omega (arith, one, count-first (profile_of u.pk) db.profiles n))
      ]
