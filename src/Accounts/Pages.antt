-- ===== src/Accounts/Pages.antt =====
-- The live updates of the list of users and of the system log (accounts/views.py). The database's
-- `icontains` and the local date of an instant are parameters.
use truck.Base.{
  ℕ, Bool, true, false, ◌&&◌, Option, none, some, List, Text, truthy, leb, if◌then◌else◌,
}
use truck.Live.{Since, Polled, Response, poll}
use truck.Accounts.{
  User, SystemLog, Action, action_create, action_update, action_login, action_logout,
}

-- A user with the times that the pages look at, and the last save of the profile.
pub record Listed : Type 0 where
  pub user : User
  pub date_joined : ℕ
  pub profile_updated_at : ℕ

-- `UserManageView._poll_response` and `_update_response`: no user is hidden.
unfoldable pub users_poll : Since → List Listed → Response (Polled Listed)
unfolding poll
users_poll since rows = poll (λ u. u.date_joined) (λ u. true) since rows

unfoldable pub users_update : Since → List Listed → Response (Polled Listed)
unfolding poll
users_update since rows = poll (λ u. u.profile_updated_at) (λ u. true) since rows

-- The filters of the log; a date that is not given is `none`. No row of this model is a page view.
pub record LogFilter : Type 0 where
  pub action : Option Action
  pub user : Text
  pub start_date : Option ℕ
  pub end_date : Option ℕ

abbrev pub same_action : Action → Action → Bool
same_action action_create action_create = true
same_action action_update action_update = true
same_action action_login action_login = true
same_action action_logout action_logout = true
same_action a b = false

abbrev pub of_action : Option Action → SystemLog → Bool
of_action none l = true
of_action (some a) l = same_action l.action a

module _ (icontains : Text → Text → Bool) (date : ℕ → ℕ) where
  abbrev pub from_date : Option ℕ → SystemLog → Bool
  from_date none l = true
  from_date (some d) l = leb d (date l.timestamp)

  abbrev pub to_date : Option ℕ → SystemLog → Bool
  to_date none l = true
  to_date (some d) l = leb (date l.timestamp) d

  -- `_filtered_queryset`
  abbrev pub is_logged : LogFilter → SystemLog → Bool
  is_logged q l =
      of_action q.action l
      && (if truthy q.user then icontains q.user l.username else true)
      && from_date q.start_date l
      && to_date q.end_date l

  -- `SystemLogView._poll_response`
  unfoldable pub logs_poll : LogFilter → Since → List SystemLog → Response (Polled SystemLog)
  unfolding poll
  logs_poll q since rows = poll (λ l. l.timestamp) (is_logged q) since rows
