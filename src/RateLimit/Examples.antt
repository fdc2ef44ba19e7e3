-- ===== src/RateLimit/Examples.antt =====
-- Runs of the login limit and uses of its theorems at concrete requests.
use truck.Base.{ℕ, ◌≤◌, ◌≡◌, refl, false, some, List, [], ◌∷◌, arith, Text, codes}
use truck.RateLimit.{Request, Response, Stores, get_ip, get_account_key, settle, answer, call}
use truck.RateLimit.Counter.{count_failure}
use truck.RateLimit.Bound.{Attempt, passed, passed_ip-le, passed_account-le}
use truck.RateLimit.Reset.{Kept, Elsewhere, call_local, flatten, passed_unlimited}

-- Accounts that are written in small letters.
abbrev keep : Text → Text
keep t = t

abbrev login : Text
login = codes "/login/"

abbrev request : Request
request = record {
  method = codes "POST";
  path = login;
  forwarded_for = some (codes "10.0.0.7, 10.0.0.1");
  remote_addr = some (codes "127.0.0.1");
  username = some (codes " maria");
}

abbrev wrong : Response
wrong = record { status_code = 200; authenticated = false }

abbrev forbidden : Response
forbidden = record { status_code = 403; authenticated = false }

abbrev at : ℕ → Response → Attempt
at t r = record { now = t; request = request; response = r }

abbrev empty : Stores
empty = record { ips = []; accounts = [] }

ip_test : get_ip request ≡ codes "10.0.0.7"
unfolding get_ip
ip_test = refl

account_test : get_account_key keep login request ≡ codes "maria"
unfolding get_account_key
account_test = refl

abbrev logins : List Attempt
logins = at 1 wrong ∷ at 2 wrong ∷ at 3 wrong ∷ []

abbrev in_turn : List (Attempt × Attempt)
in_turn = (at 1 wrong, at 2 forbidden) ∷ (at 3 wrong, at 4 forbidden) ∷ []

passed_test : passed keep login 0 logins empty ≡ 3
unfolding passed call settle count_failure get_ip get_account_key answer
passed_test = refl

passed_ip-le_example : passed keep login 0 logins empty ≤ 10
unfolding get_ip
passed_ip-le_example =
    passed_ip-le keep login (codes "10.0.0.7") 1 logins empty
      (
        ((refl, refl, refl), refl, omega arith, omega arith),
        (
          ((refl, refl, refl), refl, omega arith, omega arith),
          (((refl, refl, refl), refl, omega arith, omega arith), tt),
        ),
      )
      refl

passed_account-le_example : passed keep login 0 logins empty ≤ 15
unfolding get_account_key
passed_account-le_example =
    passed_account-le keep login (codes "maria") 1 logins empty refl
      (
        ((refl, refl, refl), refl, omega arith, omega arith),
        (
          ((refl, refl, refl), refl, omega arith, omega arith),
          (((refl, refl, refl), refl, omega arith, omega arith), tt),
        ),
      )
      refl

passed_unlimited_example : passed keep login 0 (flatten keep login in_turn) empty ≡ 4
unfolding get_ip get_account_key
passed_unlimited_example =
    passed_unlimited keep login (codes "10.0.0.7") (codes "maria") in_turn empty refl
      (
        ((refl, refl, refl), (refl, refl, refl, refl), refl, refl, refl, refl),
        (((refl, refl, refl), (refl, refl, refl, refl), refl, refl, refl, refl), tt),
      )
      refl refl

call_local_example :
    Kept keep login empty (call keep login 1 request wrong empty)
    × Elsewhere keep login request empty (call keep login 1 request wrong empty).1
call_local_example = call_local keep login 1 request wrong empty
