-- ===== src/Accounts/Import.antt =====
-- import_cookies and get_cookies of app/services/cookie_service.py. JSON and the cipher of
-- app/core/security.py are parameters, as are the clock and the ids of new rows.
use nbdpsy_mcp.Prelude.{
  ℕ, ◌+◌, Bool, true, false, not, ◌&&◌, List, [], ◌∷◌, ◌++◌, map, Option, none, some, String, ◌==◌,
  str_eq, if◌then◌else◌, select, leb, is_none,
}
use nbdpsy_mcp.Result.{
  Result, ok, err, guard, integrity_error, stale_data, value_error, ◌>>=◌, ◌>>◌,
}
use nbdpsy_mcp.Table.{update_where, first_where}
use nbdpsy_mcp.Auth.Guards.{Operator, assert_account_access, has_grant}
use nbdpsy_mcp.Auth.Operators.{grant_access}
use nbdpsy_mcp.Accounts.Account.{XhsAccount, Accounts, Db, find_account, is_account}
use nbdpsy_mcp.Accounts.Cookie.{Cookie, normalize_cookies}
use nbdpsy_mcp.Accounts.Placeholders.{is_placeholder, delete_placeholder_rows, minutes}

pub record UserInfo : Type 0 where
  pub nickname : Option String
  pub user_id : Option String
  pub red_id : Option String
  pub avatar : Option String

-- A text that counts as true in a condition.
abbrev pub truthy : Option String → Bool
truthy none = false
truthy (some s) = not (str_eq s "")

abbrev pub or_old : Option String → Option String → Option String
or_old new old = if truthy new then new else old

-- The row with the non-empty fields of `user_info`; a missing `user_info` has none.
abbrev pub apply_user_info : UserInfo → XhsAccount → XhsAccount
apply_user_info u a = record a {
  nickname = or_old u.nickname a.nickname;
  user_id = or_old u.user_id a.user_id;
  red_id = or_old u.red_id a.red_id;
  avatar = or_old u.avatar a.avatar;
}

unfoldable pub apply_cookie_state : ℕ → UserInfo → String → XhsAccount → XhsAccount
apply_cookie_state now u encrypted a = record (apply_user_info u a) {
  login_cookies = some encrypted;
  last_login_at = some now;
}

abbrev pub same_text : Option String → Option String → Bool
same_text (some s) (some t) = str_eq s t
same_text _ _ = false

abbrev pub has_user_id : Option String → XhsAccount → Bool
has_user_id user_id a = same_text a.user_id user_id

-- The row of that name, unless both carry a user_id and these differ.
abbrev pub unless_other : Option String → Option XhsAccount → Option XhsAccount
unless_other user_id none = none
unless_other user_id (some cand) =
    if truthy user_id && (truthy cand.user_id && not (same_text cand.user_id user_id))
    then none
    else some cand

-- First by user_id, then by name.
unfoldable pub match_account : Option String → String → Accounts → Option XhsAccount
match_account user_id account_name accounts =
    let by_id = if truthy user_id then first_where (has_user_id user_id) accounts else none in
    let by_name =
      if str_eq account_name ""
      then none
      else unless_other user_id (first_where (λ a. str_eq a.name account_name) accounts) in
    elim by_id [ some a ↦ some a | none ↦ by_name ]

-- The unique index on user_id: another row has the text that this row is to have.
abbrev pub collides : XhsAccount → Accounts → Bool
collides a accounts =
    not (is_none (first_where (λ b. has_user_id a.user_id b && not (is_account a.id b)) accounts))

-- What _clean_placeholder_accounts selects: recent placeholders that the operator may use.
abbrev pub is_leftover : ℕ → ℕ → ℕ → ℕ → Db → XhsAccount → Bool
is_leftover window now operator_id kept db a =
    (is_placeholder a && leb now (a.created_at + minutes window))
    && (has_grant operator_id a.id db.access && not (a.id == kept))

unfoldable pub clean_placeholder_accounts : ℕ → ℕ → ℕ → ℕ → Db → Db × ℕ
clean_placeholder_accounts window now operator_id kept db =
    delete_placeholder_rows
      (map (λ a. a.id) (select (is_leftover window now operator_id kept db) db.accounts)) db

-- `cleanable` is false where the cleaning raises, which the caller survives.
unfoldable pub clean_placeholders_best_effort : Bool → ℕ → ℕ → ℕ → ℕ → Db → Db × ℕ
clean_placeholders_best_effort cleanable window now operator_id kept db =
    if cleanable then clean_placeholder_accounts window now operator_id kept db else (db, 0)

pub record Imported : Type 0 where
  pub account : XhsAccount
  pub created : Bool
  pub cleaned : ℕ
  pub db : Db

-- What one import has besides its request: the clock, PLACEHOLDER_CLEAN_WINDOW_MINUTES, whether
-- the cleaning succeeds, and the ids of a new account and a new grant.
pub record Context : Type 0 where
  pub now : ℕ
  pub window : ℕ
  pub cleanable : Bool
  pub account_id : ℕ
  pub grant_id : ℕ

abbrev pub with_cleaning : Context → Operator → XhsAccount → Bool → Db → Imported
with_cleaning c op account created db =
    let (db', cleaned) =
      if truthy account.user_id
      then clean_placeholders_best_effort c.cleanable c.window c.now op.id account.id db
      else (db, 0) in
    record { account = account; created = created; cleaned = cleaned; db = db' }

-- The path of a row that is there: `existing` as it was read, `db` at the commit.
unfoldable pub update_existing :
    Context → Operator → UserInfo → String → XhsAccount → Db → Result Imported
update_existing c op u encrypted existing db = do
  assert_account_access op existing.id db.access
  guard (not (is_none (find_account existing.id db.accounts))) stale_data
  guard (not (collides (apply_cookie_state c.now u encrypted existing) db.accounts)) integrity_error
  ok (
      with_cleaning c op (apply_cookie_state c.now u encrypted existing) false (record db {
        accounts =
            update_where (is_account existing.id) (apply_cookie_state c.now u encrypted)
              db.accounts;
      }))

abbrev pub new_account : ℕ → ℕ → String → XhsAccount
new_account id now name = record {
  id = id;
  name = name;
  nickname = none;
  user_id = none;
  red_id = none;
  avatar = none;
  status = "unknown";
  cookie_status = "unknown";
  last_check_at = none;
  login_cookies = none;
  last_login_at = none;
  created_at = now;
}

-- After the index refused the new row: the row that has the user_id, as an update. There is one.
unfoldable pub match_again : Context → Operator → UserInfo → String → Db → Result Imported
match_again c op u encrypted db = elim (first_where (has_user_id u.user_id) db.accounts) [
  | none ↦ err integrity_error
  | some existing ↦ update_existing c op u encrypted existing db
]

unfoldable pub insert_account :
    Context → Operator → String → UserInfo → String → Db → Result Imported
insert_account c op account_name u encrypted db =
    let account =
      apply_cookie_state c.now u encrypted (new_account c.account_id c.now account_name) in
    if collides account db.accounts
    then match_again c op u encrypted db
    else grant_access c.grant_id c.now op.id account.id (some op.id) db.access >>= λ granted. ok (
        with_cleaning c op account true
          (record { accounts = db.accounts ++ account ∷ []; access = granted.0 }))

abbrev pub or_empty : Option String → String
or_empty none = ""
or_empty (some plain) = plain

-- `json.loads` raises a ValueError.
abbrev pub loaded : Option (List Cookie) → Result (List Cookie)
loaded none = err value_error
loaded (some cookies) = ok cookies

module _ (lower : String → String) (dumps : List Cookie → String)
    (loads : String → Option (List Cookie)) (encrypt : String → String)
    (decrypt : String → Option String) where
  abbrev pub sealed : List Cookie → String
  sealed cookies = encrypt (dumps (normalize_cookies lower cookies))

  -- `seen` is the table at the matching, `db` the tables at the first write.
  unfoldable pub import_cookies :
      Context → Operator → String → List Cookie → UserInfo → Accounts → Db → Result Imported
  import_cookies c op account_name cookies u seen db =
      elim (match_account u.user_id account_name seen) [
        | some existing ↦ update_existing c op u (sealed cookies) existing db
        | none ↦ insert_account c op account_name u (sealed cookies) db
      ]

  -- decrypt_cookies: the empty text for what does not decrypt.
  abbrev pub decrypt_cookies : String → String
  decrypt_cookies s = or_empty (decrypt s)

  abbrev pub open_cookies : String → Result (List Cookie)
  open_cookies plain = if str_eq plain "" then ok [] else loaded (loads plain)

  abbrev pub read_cookies : Option String → Result (List Cookie)
  read_cookies none = ok []
  read_cookies (some s) = if str_eq s "" then ok [] else open_cookies (decrypt_cookies s)

  unfoldable pub get_cookies : Operator → ℕ → Db → Result (List Cookie)
  get_cookies op account_id db = do
    assert_account_access op account_id db.access
    elim (find_account account_id db.accounts) [
      | none ↦ ok []
      | some a ↦ read_cookies a.login_cookies
    ]
