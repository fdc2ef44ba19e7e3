-- ===== src/Accounts/Serve.antt =====
-- A request to the pages of the accounts, behind the mixins (accounts/mixins.py, accounts/views.py).
pub mod Logged
pub mod Allowed
use truck.Base.{ℕ, Bool, Option, Text, if◌then◌else◌}
use truck.Accounts.{Role, User, Db, Viewer, anonymous, signed_in, get_role, is_master}
use truck.Accounts.Manage.{
  TextFunctions, UserForm, Reply, login, forbidden, create, toggle, change_role, resend, verify,
  update_email,
}

pub data Request : Type 0 where
  create_user : UserForm → Request
  toggle_user : ℕ → Request
  role_of : ℕ → Option Role → Request
  resend_to : ℕ → Bool → Request
  verify_link : Option ℕ → Bool → Request
  own_email : Text → Request

-- `RoleRequiredMixin.dispatch` with the roles of `MasterRequiredMixin`.
abbrev pub master_only : Viewer → Db → Reply × Db → Reply × Db
master_only anonymous db served = (login, db)
master_only (signed_in u) db served = if is_master (get_role u db) then served else (forbidden, db)

-- `LoginRequiredMixin` before `MyAccountView`.
abbrev pub own_account_email : TextFunctions → Viewer → Text → ℕ → Db → Reply × Db
own_account_email f anonymous email now db = (login, db)
own_account_email f (signed_in u) email now db = update_email f u email now db

unfoldable pub serve : TextFunctions → Viewer → Request → ℕ → Db → Reply × Db
serve f viewer (create_user form) now db = master_only viewer db (create f viewer form now db)
serve f viewer (toggle_user pk) now db = master_only viewer db (toggle f viewer pk now db)
serve f viewer (role_of pk role) now db =
    master_only viewer db (change_role f viewer pk role now db)
serve f viewer (resend_to pk sent) now db = master_only viewer db (resend f pk sent now db)
serve f viewer (verify_link uid valid) now db = verify f viewer uid valid now db
serve f viewer (own_email email) now db = own_account_email f viewer email now db
