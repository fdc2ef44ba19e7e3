-- ===== src/Accounts/Valid/Keeps.antt =====
-- The steps of the views keep the tables valid (accounts/views.py).
use truck.Base.{
  ℕ, suc, ◌≤◌, ◌<◌, ◌≡◌, refl, sym, ap, ◌∙◌, true, false, not, ◌&&◌, some, inl, inr, List, [], ◌∷◌,
  arith, ◌==◌, ==_iff, Bool-cases, Text, text_eq, text_eq-eq, select, first, any, update, count,
  All, All-mono, count-update_le, count-any, count-ap, count-and_le, count-update_add, select-count,
}
use mathlib.Core.Bool.{false≢true}
use truck.Accounts.{
  Role, User, UserProfile, Action, Description, Db, has_pk, profile_of, get_or_create_profile,
  new_profile, profile_or, Viewer, save_log, log_action,
}
use truck.Accounts.Manage.{TextFunctions, named, mailed_to, identified, of_another, add_user}
use truck.Accounts.Valid.{IsValid, users_below, profiles_below_none}

module _ (f : TextFunctions) where
  pub log_action-IsValid :
      (viewer : Viewer) (a : Action) (d : Description) (now : ℕ) (db : Db)
      → IsValid f db
      → IsValid f (log_action viewer a d now db)
  unfolding log_action save_log
  log_action-IsValid viewer a d now db v = record {
    one_key = v.one_key;
    one_name = v.one_name;
    one_email = v.one_email;
    one_cpf = v.one_cpf;
    one_profile = v.one_profile;
    keys_below = v.keys_below;
    profiles_below = v.profiles_below;
    have_profiles = v.have_profiles;
  }

  -- The address of one user, once no other user has it.
  pub email_stays_one :
      (pk : ℕ) (email t : Text) (us : List User)
      → any (of_another f pk email) us ≡ false
      → count (has_pk pk) us ≤ 1
      → count (mailed_to f t) us ≤ 1
      → count (mailed_to f t) (update (has_pk pk) (λ v. record v { email = email }) us) ≤ 1
  email_stays_one pk email t us free one others =
      elim (Bool-cases (text_eq (f.fold email) (f.fold t))) [
        | inl h ↦
            let same : f.fold email ≡ f.fold t = text_eq-eq (f.fold email) (f.fold t) h in
            let z : count (λ u. not (has_pk pk u) && mailed_to f t u) us ≡ 0 =
              count-ap (λ u. not (has_pk pk u) && mailed_to f t u) (of_another f pk email)
                (λ u. ap (λ x. not (has_pk pk u) && text_eq (f.fold u.email) x) (sym same)) us
              ∙ count-any (of_another f pk email) us free in
            omega (
              arith,
              z,
              one,
              count-update_add (mailed_to f t) (has_pk pk) (λ v. record v { email = email }) us,
            )
        | inr n ↦
            let le =
              count-update_le (mailed_to f t) (has_pk pk) (λ v. record v { email = email })
                (λ u q p. absurd (false≢true (sym n ∙ p))) us in
            omega (arith, le, others)
      ]

  -- The CPF of one profile, once no profile has it.
  pub cpf_stays_one :
      (pk now : ℕ) (role : Role) (cpf t : Text) (ps : List UserProfile)
      → count (identified f cpf) ps ≡ 0
      → count (profile_of pk) ps ≤ 1
      → count (identified f t) ps ≤ 1
      → count (identified f t) (
          update
            (profile_of pk)
            (λ p. record p { role = role; cpf = some cpf; updated_at = now })
            ps)
        ≤ 1
  cpf_stays_one pk now role cpf t ps free one others = elim (Bool-cases (text_eq cpf t)) [
    | inl h ↦
        let z : count (identified f t) ps ≡ 0 =
          ap (λ c. count (identified f c) ps) (sym (text_eq-eq cpf t h)) ∙ free in
        omega (
          arith,
          z,
          one,
          count-and_le (identified f t) (λ p. not (profile_of pk p)) ps,
          count-update_add (identified f t) (profile_of pk)
              (λ p. record p { role = role; cpf = some cpf; updated_at = now }) ps,
        )
    | inr n ↦
        let le =
          count-update_le (identified f t) (profile_of pk)
            (λ p. record p { role = role; cpf = some cpf; updated_at = now })
            (λ p q k. absurd (false≢true (sym n ∙ k))) ps in
        omega (arith, le, others)
  ]

  -- The tables with a new user and the profile that the signal makes.
  abbrev pub added : User → ℕ → Db → Db
  added u now db = record db {
    users = u ∷ db.users;
    profiles = new_profile u.pk now ∷ db.profiles;
    next_user = suc db.next_user;
  }

  pub add_user-eq :
      (u : User) (now : ℕ) (db : Db)
      → u.pk ≡ db.next_user
      → IsValid f db
      → add_user f u now db ≡ added u now db
  add_user-eq u now db k v =
      let z : select (profile_of u.pk) db.profiles ≡ [] =
        select-count (profile_of u.pk) db.profiles
          (rw k (profiles_below_none f db.next_user db.profiles v.profiles_below)) in
      ap
        (λ l.
          (profile_or u.pk now (record db { users = u ∷ db.users; next_user = suc db.next_user })
            (first l)).1)
        z

  pub added_profile :
      (u : User) (now : ℕ) (db : Db)
      → get_or_create_profile u.pk now (added u now db) ≡ (new_profile u.pk now, added u now db)
  added_profile u now db = let h : (u.pk == u.pk) ≡ true = (==_iff u.pk u.pk).1 refl in rw h refl

  own_profile :
      (u : User) (now : ℕ) (db : Db)
      → u.pk ≡ db.next_user
      → IsValid f db
      → count (profile_of u.pk) (new_profile u.pk now ∷ db.profiles) ≡ 1
  own_profile u now db k v =
      let h : (u.pk == u.pk) ≡ true = (==_iff u.pk u.pk).1 refl in
      let z : count (profile_of u.pk) db.profiles ≡ 0 =
        rw k (profiles_below_none f db.next_user db.profiles v.profiles_below) in
      rw h (omega (arith, z))

  old_profiles :
      (u : User) (now n : ℕ) (ps : List UserProfile)
      → u.pk ≡ n
      → (us : List User) → All (λ x. x.pk < n) us
      → All (λ x. count (profile_of x.pk) ps ≡ 1) us
      → All (λ x. count (profile_of x.pk) (new_profile u.pk now ∷ ps) ≡ 1) us
  old_profiles u now n ps k [] below h = tt
  old_profiles u now n ps k (x ∷ us) (b, below) (a, h) =
      let miss : (u.pk == x.pk) ≡ false = ground arith in
      (rw miss a, old_profiles u now n ps k us below h)

  -- A new user, once no user has the name or the address.
  pub added-IsValid :
      (u : User) (now : ℕ) (db : Db) (email : Text)
      → u.pk ≡ db.next_user
      → f.fold u.email ≡ f.fold email
      → any (named f u.username) db.users ≡ false
      → any (mailed_to f email) db.users ≡ false
      → IsValid f db
      → IsValid f (added u now db)
  added-IsValid u now db email k e n m v = record {
    one_key = λ j. elim (Bool-cases (u.pk == j)) [
      | inr miss ↦ rw miss (v.one_key j)
      | inl hit ↦
          let q : db.next_user ≡ j = sym k ∙ (==_iff u.pk j).0 hit in
          let z : count (has_pk j) db.users ≡ 0 =
            ap (λ i. count (has_pk i) db.users) (sym q)
            ∙ users_below f db.next_user db.users v.keys_below in
          rw hit (omega (arith, z))
    ];
    one_name = λ t. elim (Bool-cases (text_eq u.username t)) [
      | inr miss ↦ rw miss (v.one_name t)
      | inl hit ↦
          let z : count (named f t) db.users ≡ 0 =
            ap (λ s. count (named f s) db.users) (sym (text_eq-eq u.username t hit))
            ∙ count-any (named f u.username) db.users n in
          rw hit (omega (arith, z))
    ];
    one_email = λ t. elim (Bool-cases (text_eq (f.fold u.email) (f.fold t))) [
      | inr miss ↦ rw miss (v.one_email t)
      | inl hit ↦
          let q : f.fold email ≡ f.fold t = sym e ∙ text_eq-eq (f.fold u.email) (f.fold t) hit in
          let z : count (mailed_to f t) db.users ≡ 0 =
            count-ap (mailed_to f t) (mailed_to f email)
              (λ x. ap (text_eq (f.fold x.email)) (sym q)) db.users
            ∙ count-any (mailed_to f email) db.users m in
          rw hit (omega (arith, z))
    ];
    one_cpf = v.one_cpf;
    one_profile = λ j. elim (Bool-cases (u.pk == j)) [
      | inr miss ↦ rw miss (v.one_profile j)
      | inl hit ↦
          let q : db.next_user ≡ j = sym k ∙ (==_iff u.pk j).0 hit in
          let z : count (profile_of j) db.profiles ≡ 0 =
            ap (λ i. count (profile_of i) db.profiles) (sym q)
            ∙ profiles_below_none f db.next_user db.profiles v.profiles_below in
          rw hit (omega (arith, z))
    ];
    keys_below = (
      omega (arith, k),
      All-mono (λ x. x.pk < db.next_user) (λ x. x.pk < suc db.next_user) (λ x h. omega (arith, h))
          db.users v.keys_below,
    );
    profiles_below = (
      omega (arith, k),
      All-mono (λ x. x.user < db.next_user) (λ x. x.user < suc db.next_user)
          (λ x h. omega (arith, h)) db.profiles v.profiles_below,
    );
    have_profiles = (
      own_profile u now db k v,
      old_profiles u now db.next_user db.profiles k db.users v.keys_below v.have_profiles,
    );
  }
