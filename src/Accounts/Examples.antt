-- ===== src/Accounts/Examples.antt =====
-- A master at work in the pages of the accounts.
use truck.Base.{
  ℕ, ◌-◌, ◌≡◌, ◌≤◌, refl, Bool, true, false, ◌&&◌, none, some, List, [], ◌∷◌, arith, leb,
  if◌then◌else◌, codes, ◌==◌, text_eq,
}
use truck.Accounts.{
  simple, master, User, Db, Viewer, anonymous, signed_in, get_role, log_action, save_log,
}
use truck.Accounts.Manage.{TextFunctions, created, own_account, UserForm, create, toggle}
use truck.Accounts.Valid.{IsValid}
use truck.Accounts.Serve.{create_user, toggle_user, role_of, serve, Request}
use truck.Accounts.Serve.Allowed.{Served, serve-Served, serve_all, Grown, serve_all-Grown}
use truck.Validators.{digits, validate_cpf, check_digit}

-- Texts that are in normal form, and the ASCII digits.
abbrev texts : TextFunctions
texts = record {
  fold = λ t. t;
  normalize_username = λ t. t;
  normalize_email = λ t. t;
  email_ok = λ t. true;
  decimal = λ c. if leb 48 c && leb c 57 then some (c - 48) else none;
}

abbrev root : User
root = record {
  pk = 1;
  username = codes "root";
  email = codes "root@example.org";
  is_active = true;
  is_superuser = true;
}

abbrev site : Db
site = record {
  users = root ∷ [];
  profiles =
      record { user = 1; role = simple; cpf = none; email_verified = false; updated_at = 0 } ∷ [];
  logs = [];
  next_user = 2;
}

abbrev joana : UserForm
joana = record {
  username = codes " joana ";
  password = codes "segredo";
  email = codes "joana@example.org";
  cpf = codes "529.982.247-25";
  role = some master;
}

joana_created : (serve texts (signed_in root) (create_user joana) 10 site).0 ≡ created
unfolding serve create get_role validate_cpf digits check_digit log_action save_log
joana_created = refl

own_account_kept : (serve texts (signed_in root) (toggle_user 1) 10 site).0 ≡ own_account
unfolding serve toggle get_role
own_account_kept = refl

single : (b : Bool) → (if b then 1 else 0) ≤ 1
single true = omega arith
single false = omega arith

site-IsValid : IsValid texts site
site-IsValid = record {
  one_key = λ k. single (1 == k);
  one_name = λ t. single (text_eq (codes "root") t);
  one_email = λ t. single (text_eq (codes "root@example.org") t);
  one_cpf = λ t. omega arith;
  one_profile = λ k. single (1 == k);
  keys_below = (omega arith, tt);
  profiles_below = (omega arith, tt);
  have_profiles = (refl, tt);
}

serve-Served_example :
    Served texts 10
      (signed_in root)
      (create_user joana)
      site
      (serve texts (signed_in root) (create_user joana) 10 site)
serve-Served_example =
    serve-Served texts 10 (signed_in root) (create_user joana) site (λ t. refl) site-IsValid

abbrev requests : List (Viewer × Request × ℕ)
requests =
    (signed_in root, create_user joana, 10)
    ∷ (anonymous, toggle_user 2, 11)
    ∷ (signed_in root, role_of 2 none, 12)
    ∷ []

serve_all-Grown_example :
    IsValid texts (serve_all texts requests site) × Grown 3 site (serve_all texts requests site)
serve_all-Grown_example = serve_all-Grown texts (λ t. refl) requests site site-IsValid
