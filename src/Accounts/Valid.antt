-- ===== src/Accounts/Valid.antt =====
-- What holds of the users and profiles at all times (accounts/models.py, accounts/views.py).
pub mod Keeps
use truck.Base.{
  ℕ, suc, ◌+◌, ◌≤◌, ◌<◌, ◌≡◌, refl, sym, ap, ◌∙◌, Bool, true, false, not, ◌&&◌, Option, none, some,
  inl, inr, List, [], ◌∷◌, arith, ◌==◌, ==_iff, Bool-cases, Text, text_eq, text_eq-eq, text_eq_refl,
  select, first, any, update, count, All, All-mono, All-update, count-update_le, count-update_eq,
  count-first, count-any, count-ap, count-update_add, if◌then◌else◌,
}
use mathlib.Core.Bool.{false≢true}
use truck.Accounts.{
  User, UserProfile, Db, has_pk, profile_of, find_profile, get_or_create_profile, new_profile,
  profile_or, save_profile, save_user,
}
use truck.Accounts.Manage.{TextFunctions, named, mailed_to, identified, has_cpf, of_another}

-- The normal form of an address differs from it only as the database's comparison does not see.
abbrev pub IsLawful : TextFunctions → Type 0
IsLawful f = (t : Text) → f.fold (f.normalize_email t) ≡ f.fold t

-- No two users have one key, one name or one address, and no two profiles one CPF; every user has a
-- profile.
pub record IsValid (f : TextFunctions) (db : Db) : Type 0 where
  pub one_key : (k : ℕ) → count (has_pk k) db.users ≤ 1
  pub one_name : (t : Text) → count (named f t) db.users ≤ 1
  pub one_email : (t : Text) → count (mailed_to f t) db.users ≤ 1
  pub one_cpf : (t : Text) → count (identified f t) db.profiles ≤ 1
  pub one_profile : (k : ℕ) → count (profile_of k) db.profiles ≤ 1
  pub keys_below : All (λ u. u.pk < db.next_user) db.users
  pub profiles_below : All (λ p. p.user < db.next_user) db.profiles
  pub have_profiles : All (λ u. count (profile_of u.pk) db.profiles ≡ 1) db.users

module _ (f : TextFunctions) where
  -- A change of a user that keeps the key, the name and the address.
  pub save_user-IsValid :
      (pk : ℕ) (g : User → User) (db : Db)
      → ((u : User) → (g u).pk ≡ u.pk)
      → ((u : User) → (g u).username ≡ u.username)
      → ((t : Text) → count (mailed_to f t) (update (has_pk pk) g db.users) ≤ 1)
      → IsValid f db
      → IsValid f (save_user pk g db)
  save_user-IsValid pk g db k n m v = record {
    one_key = λ j.
        rw (count-update_eq (has_pk j) (has_pk pk) g (λ u. ap (λ x. x == j) (k u)) db.users)
          (v.one_key j);
    one_name = λ t.
        rw (count-update_eq (named f t) (has_pk pk) g (λ u. ap (λ x. text_eq x t) (n u)) db.users)
          (v.one_name t);
    one_email = m;
    one_cpf = v.one_cpf;
    one_profile = v.one_profile;
    keys_below =
        All-update (λ u. u.pk < db.next_user) (has_pk pk) g (λ u h. rw (k u) h) db.users
          v.keys_below;
    profiles_below = v.profiles_below;
    have_profiles =
        All-update (λ u. count (profile_of u.pk) db.profiles ≡ 1) (has_pk pk) g (λ u h. rw (k u) h)
          db.users v.have_profiles;
  }

  -- A change of a profile that keeps its user.
  pub save_profile-IsValid :
      (pk : ℕ) (g : UserProfile → UserProfile) (db : Db)
      → ((p : UserProfile) → (g p).user ≡ p.user)
      → ((t : Text) → count (identified f t) (update (profile_of pk) g db.profiles) ≤ 1)
      → IsValid f db
      → IsValid f (save_profile pk g db)
  save_profile-IsValid pk g db k c v =
      let same : (j : ℕ)
          → count (profile_of j) (update (profile_of pk) g db.profiles)
            ≡ count (profile_of j) db.profiles =
        λ j.
          count-update_eq (profile_of j) (profile_of pk) g (λ p. ap (λ x. x == j) (k p))
            db.profiles in
      record {
        one_key = v.one_key;
        one_name = v.one_name;
        one_email = v.one_email;
        one_cpf = c;
        one_profile = λ j. rw (same j) (v.one_profile j);
        keys_below = v.keys_below;
        profiles_below =
            All-update (λ p. p.user < db.next_user) (profile_of pk) g (λ p h. rw (k p) h)
              db.profiles v.profiles_below;
        have_profiles =
            All-mono (λ u. count (profile_of u.pk) db.profiles ≡ 1)
              (λ u. count (profile_of u.pk) (update (profile_of pk) g db.profiles) ≡ 1)
              (λ u h. same u.pk ∙ h) db.users v.have_profiles;
      }

  -- The rows whose key is not reached yet.
  pub users_below : (n : ℕ) (us : List User) → All (λ u. u.pk < n) us → count (has_pk n) us ≡ 0
  users_below n [] h = refl
  users_below n (u ∷ us) (a, h) = ground (arith, users_below n us h)

  pub profiles_below_none :
      (n : ℕ) (ps : List UserProfile) → All (λ p. p.user < n) ps → count (profile_of n) ps ≡ 0
  profiles_below_none n [] h = refl
  profiles_below_none n (p ∷ ps) (a, h) = ground (arith, profiles_below_none n ps h)
