-- ===== src/Auth/Agreement.antt =====
-- The two guards of app/auth/guards.py side by side.
use nbdpsy_mcp.Prelude.{ℕ, List, [], ◌∷◌, ◌≡◌, refl, arith, contains}
use nbdpsy_mcp.Result.{is_ok}
use nbdpsy_mcp.Auth.Guards.{
  Operator, OperatorAccountAccess, has_grant, assert_account_access, granted_ids,
  visible_account_ids, sees_account,
}

contains-granted_ids :
    (o a : ℕ) (access : List OperatorAccountAccess)
    → contains (granted_ids o access) a ≡ has_grant o a access
unfolding granted_ids has_grant
contains-granted_ids o a [] = refl
contains-granted_ids o a (g ∷ access) = ground (arith, contains-granted_ids o a access)

-- An operator's list of visible accounts holds an account exactly if the access check of that
-- account passes: for an admin always, for another operator where a grant is in the table.
pub visible-assert :
    (op : Operator) (a : ℕ) (access : List OperatorAccountAccess)
    → sees_account (visible_account_ids op access) a ≡ is_ok (assert_account_access op a access)
unfolding visible_account_ids assert_account_access
visible-assert op a access = ground (arith, contains-granted_ids op.id a access)
