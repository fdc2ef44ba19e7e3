-- ===== src/RateLimit.antt =====
-- The login rate limit (employee_truck_control/rate_limit.py). An instant of the monotonic clock is
-- a number of microseconds. What the inner handlers answer to a request is an argument.
pub mod Counter
pub mod Bound
pub mod Reset
mod Examples
use truck.Base.{
  ℕ, ◌*◌, ◌-◌, ◌/◌, Bool, true, false, not, ◌&&◌, ◌||◌, Option, none, some, List, [], ◌∷◌, Text,
  codes, text_eq, strip, before, truthy, lookup, insert, pop, ◌==◌, if◌then◌else◌,
}
use truck.RateLimit.Counter.{Limits, Entry, is_blocked, remaining, count_failure, second}

-- The limits by address and by account, at their defaults.
abbrev pub ip_limits : Limits
ip_limits = record { attempts = 10; window = 600 * second; block = 600 * second }

abbrev pub account_limits : Limits
account_limits = record { attempts = 15; window = 900 * second; block = 900 * second }

pub record Request : Type 0 where
  pub method : Text
  pub path : Text
  pub forwarded_for : Option Text
  pub remote_addr : Option Text
  pub username : Option Text

-- The response of the inner handlers, and whether the request's user is authenticated then.
pub record Response : Type 0 where
  pub status_code : ℕ
  pub authenticated : Bool

pub record Stores : Type 0 where
  pub ips : List (Text × Entry)
  pub accounts : List (Text × Entry)

pub data Reply : Type 0 where
  too_many : ℕ → Reply
  answered : Response → Reply

abbrev or_empty : Option Text → Text
or_empty none = []
or_empty (some t) = t

abbrev or_unknown : Option Text → Text
or_unknown none = codes "0.0.0.0"
or_unknown (some t) = t

-- The first address of `X-Forwarded-For`, if that header is set and not empty.
unfoldable pub get_ip : Request → Text
get_ip r =
    if truthy (or_empty r.forwarded_for)
    then strip (before b',' (or_empty r.forwarded_for))
    else or_unknown r.remote_addr

-- A login that the inner handlers did not grant.
abbrev pub failed : Response → Bool
failed r = (r.status_code == 200 || r.status_code == 302) && not r.authenticated

-- Which of the two entries blocks, the address first.
abbrev pub blocked_entry : ℕ → Option Entry → Option Entry → Option Entry
blocked_entry now ip account =
    if is_blocked now ip then ip else if is_blocked now account then account else none

-- `lower` is the text method.
module _ (lower : Text → Text) (login_path : Text) where
  unfoldable pub get_account_key : Request → Text
  get_account_key r = lower (strip (or_empty r.username))

  abbrev pub account_entry : Text → Stores → Option Entry
  account_entry account s = if truthy account then lookup account s.accounts else none

  -- The stores after a response that was not refused.
  unfoldable pub settle : ℕ → Text → Text → Response → Stores → Stores
  settle now ip account response s =
      if failed response
      then record {
        ips = insert ip (count_failure ip_limits now (lookup ip s.ips)) s.ips;
        accounts =
            if truthy account
            then insert account (count_failure account_limits now (lookup account s.accounts))
                s.accounts
            else s.accounts;
      }
      else record {
        ips = pop ip s.ips;
        accounts = if truthy account then pop account s.accounts else s.accounts;
      }

  pub answer : ℕ → Text → Text → Response → Option Entry → Stores → Reply × Stores
  answer now ip account response (some e) s = (too_many (remaining now e), s)
  answer now ip account response none s = (answered response, settle now ip account response s)

  -- The middleware's `__call__`, with the response that the inner handlers give if they are reached.
  unfoldable pub call : ℕ → Request → Response → Stores → Reply × Stores
  unfolding answer
  call now request response s =
      if text_eq request.method (codes "POST") && text_eq request.path login_path
      then answer now (get_ip request) (get_account_key request) response
          (blocked_entry now (lookup (get_ip request) s.ips)
            (account_entry (get_account_key request) s))
          s
      else (answered response, s)
