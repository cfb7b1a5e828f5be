-- ===== src/Accounts/Examples.antt =====
-- Two accounts, one of them a placeholder of the same operator, and imports into them.
mod Cipher
use nbdpsy_mcp.Prelude.{
  ℕ, Bool, true, false, List, [], ◌∷◌, Option, none, some, String, ◌≡◌, refl, arith, str_eq,
  if◌then◌else◌,
}
use nbdpsy_mcp.Result.{ok}
use nbdpsy_mcp.Table.{find, first_where, one_or_none, update_where}
use nbdpsy_mcp.Auth.Guards.{Operator, has_grant, assert_account_access}
use nbdpsy_mcp.Auth.Operators.{grant_access}
use nbdpsy_mcp.Auth.Grants.{
  Call, grant, revoke, drop_account, run, OnePerPair, granted, run-granted,
}
use nbdpsy_mcp.Accounts.Account.{XhsAccount, Accounts, Db, find_account}
use nbdpsy_mcp.Accounts.Cookie.{
  Cookie, text, get, set, same_site_map, normalize_cookie, normalize_cookies,
}
use nbdpsy_mcp.Accounts.Placeholders.{
  is_placeholder, delete_placeholder_rows, reap_placeholders_once,
}
use nbdpsy_mcp.Accounts.Reaping.{HasIds, Collects, collected, reap-Collects}
use nbdpsy_mcp.Accounts.Normalize.{AllNormalized, normalize_cookies-normal}
use nbdpsy_mcp.Accounts.Import.{
  Context, Imported, UserInfo, apply_cookie_state, match_account, clean_placeholder_accounts,
  clean_placeholders_best_effort, update_existing, insert_account, import_cookies, get_cookies,
  sealed,
}
use nbdpsy_mcp.Accounts.Importing.{Fate, import_cookies-Fate}
use nbdpsy_mcp.Accounts.Roundtrip.{import_cookies-get_cookies}
use nbdpsy_mcp.Accounts.Examples.Cipher.{encrypt, decrypt, decrypt-encrypt, encrypt-nonempty}

abbrev member : Operator
member = record {
  id = 2;
  name = "m";
  apikey_hash = "h";
  role = "operator";
  enabled = true;
  created_at = 0;
  created_by = none;
}

abbrev real_account : XhsAccount
real_account = record {
  id = 1;
  name = "shop";
  nickname = none;
  user_id = some "u1";
  red_id = none;
  avatar = none;
  status = "unknown";
  cookie_status = "valid";
  last_check_at = none;
  login_cookies = none;
  last_login_at = none;
  created_at = 0;
}

abbrev leftover_account : XhsAccount
leftover_account = record real_account {
  id = 2;
  name = "xhs_account_17";
  user_id = none;
  created_at = 50;
}

abbrev accounts : Accounts
accounts = real_account ∷ leftover_account ∷ []

abbrev db : Db
db = record {
  accounts = accounts;
  access =
      record { id = 1; operator_id = 2; xhs_account_id = 1; granted_by = some 1; created_at = 0 }
      ∷ record { id = 2; operator_id = 2; xhs_account_id = 2; granted_by = some 2; created_at = 50 }
      ∷ [];
}

-- The case of the prefix does not matter.
upper_case : is_placeholder (record leftover_account { name = "XHS_Account_1" }) ≡ true
unfolding is_placeholder
upper_case = refl

other_name : is_placeholder (record leftover_account { name = "xhs-account_1" }) ≡ false
unfolding is_placeholder
other_name = refl

accounts-HasIds : HasIds accounts
unfolding find
accounts-HasIds = (refl, (refl, tt))

abbrev lower : String → String
lower s =
    if str_eq s "Strict"
    then "strict"
    else if str_eq s "Lax"
    then "lax"
    else if str_eq s "None"
    then "none"
    else s

abbrev cookies : List Cookie
cookies =
    (("name", text "a") ∷ ("sameSite", text "no_restriction") ∷ []) ∷ (("name", text "b") ∷ []) ∷ []

normalize_cookies-normal_example :
    AllNormalized lower cookies (normalize_cookies lower cookies)
    × (normalize_cookies lower (normalize_cookies lower cookies) ≡ normalize_cookies lower cookies)
normalize_cookies-normal_example = normalize_cookies-normal lower refl refl refl cookies

run-granted_example :
    (access' : List _) × (run (revoke 2 1 ∷ grant 7 60 2 1 none ∷ drop_account 2 ∷ []) db.access
      ≡ ok access')
    × OnePerPair access'
    × ((o a : ℕ)
        → has_grant o a access'
          ≡ granted
              (revoke 2 1 ∷ grant 7 60 2 1 none ∷ drop_account 2 ∷ [])
              o
              a
              (has_grant o a db.access))
unfolding OnePerPair
run-granted_example =
    run-granted (revoke 2 1 ∷ grant 7 60 2 1 none ∷ drop_account 2 ∷ []) db.access
      (λ o a. ground arith)

reap-Collects_example :
    Collects
      (collected 24 86400000051 accounts accounts)
      db
      (reap_placeholders_once 24 86400000051 accounts db).0
      2
unfolding find
reap-Collects_example = reap-Collects 24 86400000051 accounts db accounts-HasIds accounts-HasIds 2

abbrev context : Context
context = record { now = 60; window = 30; cleanable = true; account_id = 3; grant_id = 3 }

abbrev user_info : UserInfo
user_info = record { nickname = some "n"; user_id = some "u1"; red_id = none; avatar = none }

abbrev dumps : List Cookie → String
dumps _ = "[]"

abbrev loads : String → Option (List Cookie)
loads _ = some (normalize_cookies lower cookies)

abbrev code : String
code = sealed lower dumps loads encrypt decrypt cookies

abbrev imported : Imported
imported = record {
  account = apply_cookie_state 60 user_info code real_account;
  created = false;
  cleaned = 1;
  db = record {
    accounts = apply_cookie_state 60 user_info code real_account ∷ [];
    access =
        record { id = 1; operator_id = 2; xhs_account_id = 1; granted_by = some 1; created_at = 0 }
        ∷ [];
  };
}

-- The import takes the account by its user_id and cleans the placeholder away.
import_runs :
    import_cookies lower dumps loads encrypt decrypt context member "x" cookies user_info accounts
      db
    ≡ ok imported
unfolding import_cookies match_account update_existing first_where assert_account_access has_grant
    find update_where apply_cookie_state clean_placeholders_best_effort clean_placeholder_accounts
    delete_placeholder_rows is_placeholder
import_runs = refl

import_cookies-Fate_example : Fate context member user_info code db imported 2 leftover_account
unfolding find
import_cookies-Fate_example =
    import_cookies-Fate lower dumps loads encrypt decrypt context member "x" cookies user_info
      accounts db accounts-HasIds refl imported import_runs 2 leftover_account refl

import_cookies-get_cookies_example :
    get_cookies lower dumps loads encrypt decrypt member 1 imported.db
    ≡ ok (normalize_cookies lower cookies)
unfolding find apply_cookie_state
import_cookies-get_cookies_example =
    import_cookies-get_cookies lower dumps loads encrypt decrypt decrypt-encrypt encrypt-nonempty
      context member user_info cookies refl refl "x" accounts db accounts-HasIds refl imported
      import_runs
