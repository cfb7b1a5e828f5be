-- ===== src/Notes/Checks.antt =====
-- app/services/cookie_check.py and its endpoints in app/http/cookies_rest.py: a browser tries the
-- cookies of an account in the background, the account learns the verdict, and a ledger in memory
-- keeps it for the caller. What the browser said and whether the database fails are arguments.
use nbdpsy_mcp.Prelude.{ℕ, Bool, true, false, Option, none, some, String, if◌then◌else◌, str_eq}
use nbdpsy_mcp.Result.{Result, ok, err, not_found, ◌>>◌, ◌>>=◌}
use nbdpsy_mcp.Table.{update_where}
use nbdpsy_mcp.Auth.Guards.{Operator, assert_account_access}
use nbdpsy_mcp.Auth.Operators.{Access}
use nbdpsy_mcp.Accounts.Account.{XhsAccount, Accounts, find_account, is_account}
use nbdpsy_mcp.Notes.Ledger.{Registry, put_entry, write_entry, evict}

pub data CheckStatus : Type 0 where
  checking valid invalid captcha error : CheckStatus

-- The fields of _USER_INFO_FIELDS.
pub record UserInfo : Type 0 where
  pub nickname : Option String
  pub user_id : Option String
  pub red_id : Option String
  pub avatar : Option String

pub record Check : Type 0 where
  pub status : CheckStatus
  pub account_id : ℕ
  pub user_info : Option UserInfo
  pub reason : Option String
  pub created_at : ℕ

abbrev pub Checks : Type 0
Checks = Registry Check

abbrev pub is_settled : Check → Bool
is_settled c = elim c.status [ checking ↦ false | _ ↦ true ]

unfoldable pub evict_checks : ℕ → Checks → Checks
evict_checks now checks = evict is_settled (λ c. c.created_at) now checks

abbrev pub new_check : ℕ → ℕ → Check
new_check now account_id = record {
  status = checking;
  account_id = account_id;
  user_info = none;
  reason = none;
  created_at = now;
}

unfoldable pub start_check : ℕ → ℕ → ℕ → Checks → Checks
start_check now id account_id checks =
    put_entry id (new_check now account_id) (evict_checks now checks)

unfoldable pub get_check : ℕ → ℕ → Checks → Checks × Option Check
get_check now id checks = let left = evict_checks now checks in (left, left id)

-- The answers of check_login_once.
pub data Verdict : Type 0 where
  is_valid is_invalid is_captcha : Verdict

abbrev pub status_of : Verdict → CheckStatus
status_of is_valid = valid
status_of is_invalid = invalid
status_of is_captcha = captcha

abbrev pub verdict_text : Verdict → String
verdict_text is_valid = "valid"
verdict_text is_invalid = "invalid"
verdict_text is_captcha = "captcha"

-- A verdict, an error of the infrastructure, or an exception.
pub data LoginCheck : Type 0 where
  verdict : Verdict → Option UserInfo → Option String → LoginCheck
  failed : Option UserInfo → Option String → LoginCheck
  raised : String → LoginCheck

-- `if value: setattr(account, field, value)`
abbrev pub fill : Option String → Option String → Option String
fill none old = old
fill (some value) old = if str_eq value "" then old else some value

abbrev pub fill_user_info : Option UserInfo → XhsAccount → XhsAccount
fill_user_info none a = a
fill_user_info (some info) a = record a {
  nickname = fill info.nickname a.nickname;
  user_id = fill info.user_id a.user_id;
  red_id = fill info.red_id a.red_id;
  avatar = fill info.avatar a.avatar;
}

abbrev pub checked : ℕ → Verdict → Option UserInfo → XhsAccount → XhsAccount
checked now v user_info a =
    fill_user_info user_info (record a { cookie_status = verdict_text v; last_check_at = some now })

-- `none` where the session raises; then nothing is written.
unfoldable pub write_back : Bool → ℕ → ℕ → Verdict → Option UserInfo → Accounts → Option Accounts
write_back false now account_id v user_info accounts = none
write_back true now account_id v user_info accounts =
    some (update_where (is_account account_id) (checked now v user_info) accounts)

abbrev pub end_check : CheckStatus → Option UserInfo → Option String → Check → Check
end_check status user_info reason c = record c {
  status = status;
  user_info = user_info;
  reason = reason;
}

abbrev pub settle_check :
    ℕ
    → Verdict
    → Option UserInfo
    → Option String
    → Option Accounts
    → Checks
    → Accounts
    → Checks × Accounts
settle_check id v user_info reason none checks accounts =
    (write_entry id (end_check error none (some "检测任务异常")) checks, accounts)
settle_check id v user_info reason (some accounts') checks accounts =
    (write_entry id (end_check (status_of v) user_info reason) checks, accounts')

unfoldable pub run_check : Bool → ℕ → ℕ → ℕ → LoginCheck → Checks → Accounts → Checks × Accounts
run_check db_up now id account_id (raised reason) checks accounts =
    (write_entry id (end_check error none (some reason)) checks, accounts)
run_check db_up now id account_id (failed user_info reason) checks accounts =
    (write_entry id (end_check error user_info reason) checks, accounts)
run_check db_up now id account_id (verdict v user_info reason) checks accounts =
    settle_check id v user_info reason (write_back db_up now account_id v user_info accounts) checks
      accounts

unfoldable pub start_cookie_check_endpoint :
    (XhsAccount → Result String) → Operator → Access → Accounts → ℕ → ℕ → ℕ → Checks → Result Checks
start_cookie_check_endpoint decrypt op access accounts now id account_id checks = do
  assert_account_access op account_id access
  account ← elim (find_account account_id accounts) [ none ↦ err not_found | some a ↦ ok a ]
  cookies ← decrypt account
  ok (start_check now id account_id checks)

abbrev pub granted_check : Operator → Access → Option Check → Result Check
granted_check op access none = err not_found
granted_check op access (some c) = assert_account_access op c.account_id access >> ok c

unfoldable pub get_cookie_check_endpoint : Operator → Access → ℕ → ℕ → Checks → Result Check
get_cookie_check_endpoint op access now id checks =
    granted_check op access (get_check now id checks).1
