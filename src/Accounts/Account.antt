-- ===== src/Accounts/Account.antt =====
-- app/models/xhs_account.py and app/services/account_service.py.
use nbdpsy_mcp.Prelude.{
  ℕ, Bool, true, false, List, [], ◌∷◌, Option, none, some, String, ◌==◌, select,
}
use nbdpsy_mcp.Result.{Result, ok, err, not_found, value_error, guard, ◌>>◌}
use nbdpsy_mcp.Table.{find, update_where, delete_where}
use nbdpsy_mcp.Auth.Guards.{Operator, assert_account_access, visible_account_ids, sees_account}
use nbdpsy_mcp.Auth.Operators.{Access}

pub record XhsAccount : Type 0 where
  pub id : ℕ
  pub name : String
  pub nickname : Option String
  pub user_id : Option String
  pub red_id : Option String
  pub avatar : Option String
  pub status : String
  pub cookie_status : String
  pub last_check_at : Option ℕ
  pub login_cookies : Option String
  pub last_login_at : Option ℕ
  pub created_at : ℕ

abbrev pub Accounts : Type 0
Accounts = List XhsAccount

abbrev pub find_account : ℕ → Accounts → Option XhsAccount
find_account = find (λ a. a.id)

abbrev pub is_account : ℕ → XhsAccount → Bool
is_account id a = a.id == id

pub record Db : Type 0 where
  pub accounts : Accounts
  pub access : Access

unfoldable pub list_accounts : Operator → Db → Accounts
list_accounts op db =
    let ids = visible_account_ids op db.access in select (λ a. sees_account ids a.id) db.accounts

unfoldable pub get_account : Operator → ℕ → Db → Result XhsAccount
get_account op account_id db = do
  assert_account_access op account_id db.access
  elim (find_account account_id db.accounts) [ none ↦ err not_found | some a ↦ ok a ]

-- The keyword arguments of update_account: the name, and whether there is any other one.
pub record Fields : Type 0 where
  pub name : Option String
  pub others : List String

abbrev pub is_legal : List String → Bool
is_legal [] = true
is_legal (key ∷ keys) = false

abbrev pub set_name : Option String → XhsAccount → XhsAccount
set_name none a = a
set_name (some name) a = record a { name = name }

unfoldable pub update_account : Operator → ℕ → Fields → Db → Result Db
update_account op account_id fields db = do
  assert_account_access op account_id db.access
  guard (is_legal fields.others) value_error
  elim (find_account account_id db.accounts) [
    | none ↦ err not_found
    | some a ↦ ok (record db {
      accounts = update_where (is_account account_id) (set_name fields.name) db.accounts;
    })
  ]

unfoldable pub delete_account : Operator → ℕ → Db → Result Db
delete_account op account_id db = do
  assert_account_access op account_id db.access
  ok (record {
    access = delete_where (λ g. g.xhs_account_id == account_id) db.access;
    accounts = delete_where (is_account account_id) db.accounts;
  })
