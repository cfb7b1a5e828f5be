-- ===== src/Auth/Operators.antt =====
-- app/services/operator_service.py on the tables of operators and grants, and bootstrap_admin of
-- app/auth/bootstrap.py. The id of a new row, the clock and the new key are arguments.
use nbdpsy_mcp.Prelude.{
  ℕ, Bool, true, not, ◌&&◌, List, [], ◌∷◌, ◌++◌, map, Option, none, some, String, ◌==◌, str_eq,
  if◌then◌else◌, select, is_none,
}
use nbdpsy_mcp.Result.{Result, ok, err, not_found, integrity_error, ◌>>=◌}
use nbdpsy_mcp.Table.{find, update_where, delete_where, first_where, one_or_none}
use nbdpsy_mcp.Auth.Guards.{Operator, OperatorAccountAccess, is_grant}

abbrev pub Operators : Type 0
Operators = List Operator

abbrev pub Access : Type 0
Access = List OperatorAccountAccess

abbrev pub find_operator : ℕ → Operators → Option Operator
find_operator = find (λ op. op.id)

abbrev pub has_id : ℕ → Operator → Bool
has_id id op = op.id == id

abbrev pub has_hash : String → Operator → Bool
has_hash hash op = str_eq op.apikey_hash hash

-- The unique index on apikey_hash: does a row other than `id` have the hash?
abbrev pub hash_taken : ℕ → String → Operator → Bool
hash_taken id hash op = has_hash hash op && not (has_id id op)

abbrev pub or_keep {ℓ} : {A : Type ℓ} → Option A → A → A
or_keep none old = old
or_keep (some new) old = new

unfoldable pub update_operator :
    ℕ → Option String → Option Bool → Option String → Operators → Result Operators
update_operator id role enabled name ops = elim (find_operator id ops) [
  | none ↦ err not_found
  | some op ↦ ok (
      update_where (has_id id)
        (λ o. record o {
          role = or_keep role o.role;
          enabled = or_keep enabled o.enabled;
          name = or_keep name o.name;
        })
        ops)
]

-- First the grants of the operator, then the row.
unfoldable pub delete_operator : ℕ → Operators × Access → Operators × Access
delete_operator id (ops, access) =
    (delete_where (has_id id) ops, delete_where (λ a. a.operator_id == id) access)

abbrev pub new_grant : ℕ → ℕ → ℕ → ℕ → Option ℕ → OperatorAccountAccess
new_grant id now operator_id account_id granted_by = record {
  id = id;
  operator_id = operator_id;
  xhs_account_id = account_id;
  granted_by = granted_by;
  created_at = now;
}

unfoldable pub grant_access :
    ℕ → ℕ → ℕ → ℕ → Option ℕ → Access → Result (Access × OperatorAccountAccess)
grant_access id now operator_id account_id granted_by access =
    let row = new_grant id now operator_id account_id granted_by in
    one_or_none (select (is_grant operator_id account_id) access) >>= λ existing. elim existing [
      | some old ↦ ok (access, old)
      | none ↦ ok (access ++ row ∷ [], row)
    ]

unfoldable pub revoke_access : ℕ → ℕ → Access → Access
revoke_access operator_id account_id access = delete_where (is_grant operator_id account_id) access

unfoldable pub list_grants : ℕ → Access → List ℕ
list_grants operator_id access =
    map (λ a. a.xhs_account_id) (select (λ a. a.operator_id == operator_id) access)

-- hash_apikey (app/core/security.py) is SHA-256 of the standard library.
module _ (hash_apikey : String → String) where
  abbrev pub new_operator : ℕ → ℕ → String → String → String → Operator
  new_operator id now name role plain = record {
    id = id;
    name = name;
    apikey_hash = hash_apikey plain;
    role = role;
    enabled = true;
    created_at = now;
    created_by = none;
  }

  -- `session.add` and `commit`, which the unique index may refuse.
  abbrev pub insert_operator : Operator → Operators → Result Operators
  insert_operator op ops =
      if is_none (first_where (hash_taken op.id op.apikey_hash) ops)
      then ok (ops ++ op ∷ [])
      else err integrity_error

  unfoldable pub create_operator :
      ℕ → ℕ → String → String → String → Operators → Result (Operators × Operator)
  create_operator id now name role plain ops =
      let op = new_operator id now name role plain in
      insert_operator op ops >>= λ ops'. ok (ops', op)

  abbrev pub set_hash : ℕ → String → Operators → Result Operators
  set_hash id hash ops =
      if is_none (first_where (hash_taken id hash) ops)
      then ok (update_where (has_id id) (λ o. record o { apikey_hash = hash }) ops)
      else err integrity_error

  unfoldable pub rotate_apikey : ℕ → String → Operators → Result Operators
  rotate_apikey id plain ops = elim (find_operator id ops) [
    | none ↦ err not_found
    | some op ↦ set_hash id (hash_apikey plain) ops
  ]

  abbrev pub is_root : Operator → Bool
  is_root op = str_eq op.name "root"

  -- The row of root as ROOT_ADMIN_APIKEY wants it.
  abbrev pub aligned : String → Operator → Operator
  aligned hash op = record op { apikey_hash = hash; role = "admin"; enabled = true }

  abbrev pub align_root : ℕ → String → Operators → Result Operators
  align_root id hash ops =
      if is_none (first_where (hash_taken id hash) ops)
      then ok (update_where (has_id id) (aligned hash) ops)
      else err integrity_error

  -- `configured` is ROOT_ADMIN_APIKEY, `generated` the key that generate_apikey draws.
  unfoldable pub bootstrap_admin : ℕ → ℕ → String → String → Operators → Result Operators
  bootstrap_admin id now configured generated ops = one_or_none (select is_root ops) >>= λ existing.
      if str_eq configured ""
      then elim existing [
        | some root ↦ ok ops
        | none ↦ insert_operator (new_operator id now "root" "admin" generated) ops
      ]
      else elim existing [
        | some root ↦ align_root root.id (hash_apikey configured) ops
        | none ↦ insert_operator (new_operator id now "root" "admin" configured) ops
      ]

  -- The row that the middleware finds for a key (app/auth/middleware.py).
  unfoldable pub authenticate : String → Operators → Result (Option Operator)
  authenticate key ops =
      one_or_none (select (λ op. has_hash (hash_apikey key) op && op.enabled) ops)
