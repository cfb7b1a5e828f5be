-- ===== src/Auth/Guards.antt =====
-- app/models/operator.py and app/auth/guards.py. The access table is an argument of the guards.
use nbdpsy_mcp.Prelude.{
  ℕ, Bool, List, map, Option, none, some, String, ◌==◌, ◌&&◌, str_eq, if◌then◌else◌, select, length,
  ltb, contains, true,
}
use nbdpsy_mcp.Result.{Result, ok, err, access_denied}

pub record Operator : Type 0 where
  pub id : ℕ
  pub name : String
  pub apikey_hash : String
  pub role : String
  pub enabled : Bool
  pub created_at : ℕ
  pub created_by : Option ℕ

pub record OperatorAccountAccess : Type 0 where
  pub id : ℕ
  pub operator_id : ℕ
  pub xhs_account_id : ℕ
  pub granted_by : Option ℕ
  pub created_at : ℕ

abbrev pub is_admin : Operator → Bool
is_admin op = str_eq op.role "admin"

unfoldable pub require_admin : Operator → Result (Unit {0})
require_admin op = if is_admin op then ok tt else err access_denied

abbrev pub is_grant : ℕ → ℕ → OperatorAccountAccess → Bool
is_grant operator_id account_id a =
    (a.operator_id == operator_id) && (a.xhs_account_id == account_id)

-- `.first()` of the matching rows is there.
unfoldable pub has_grant : ℕ → ℕ → List OperatorAccountAccess → Bool
has_grant operator_id account_id access =
    ltb 0 (length (select (is_grant operator_id account_id) access))

unfoldable pub assert_account_access : Operator → ℕ → List OperatorAccountAccess → Result (Unit {0})
assert_account_access op account_id access =
    if is_admin op
    then ok tt
    else if has_grant op.id account_id access
    then ok tt
    else err access_denied

unfoldable pub granted_ids : ℕ → List OperatorAccountAccess → List ℕ
granted_ids operator_id access =
    map (λ a. a.xhs_account_id) (select (λ a. a.operator_id == operator_id) access)

unfoldable pub visible_account_ids : Operator → List OperatorAccountAccess → Option (List ℕ)
visible_account_ids op access = if is_admin op then none else some (granted_ids op.id access)

-- `ids is None or account_id in ids`
abbrev pub sees_account : Option (List ℕ) → ℕ → Bool
sees_account none account_id = true
sees_account (some visible) account_id = contains visible account_id
