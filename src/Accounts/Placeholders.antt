-- ===== src/Accounts/Placeholders.antt =====
-- app/services/placeholder_reaper.py: accounts that a failed login left behind.
use Prim.Native.Char.{Char}
use Prim.Native.String.{String, [], ◌∷◌}
use nbdpsy_mcp.Prelude.{
  ℕ, ◌+◌, ◌*◌, Bool, ◌&&◌, ◌||◌, true, false, str_eq, List, map, if◌then◌else◌, select, contains,
  ltb, is_none,
}
use nbdpsy_mcp.Table.{delete_where, count_where}
use nbdpsy_mcp.Auth.Guards.{OperatorAccountAccess}
use nbdpsy_mcp.Accounts.Account.{XhsAccount, Accounts, Db, find_account}

abbrev pub same_char : Char → Char → Bool
same_char c d = str_eq (c ∷ []) (d ∷ [])

-- The prefix in its two cases: SQLite's LIKE takes the letters of ASCII in either, and the underscore,
-- which is escaped, for itself.
abbrev pub startswith : String → String → String → Bool
startswith [] upper s = true
startswith (l ∷ lower) (u ∷ upper) (c ∷ s) =
    (same_char c l || same_char c u) && startswith lower upper s
startswith _ _ _ = false

-- placeholder_clauses: no user_id, and the prefix.
unfoldable pub is_placeholder : XhsAccount → Bool
is_placeholder a = is_none a.user_id && startswith "xhs_account_" "XHS_ACCOUNT_" a.name

abbrev pub to_delete : List ℕ → XhsAccount → Bool
to_delete ids a = contains ids a.id && is_placeholder a

-- A grant of `ids` whose account is not in the table any more.
abbrev pub is_orphan : List ℕ → Accounts → OperatorAccountAccess → Bool
is_orphan ids accounts g =
    contains ids g.xhs_account_id && is_none (find_account g.xhs_account_id accounts)

unfoldable pub delete_placeholder_rows : List ℕ → Db → Db × ℕ
delete_placeholder_rows ids db =
    let deleted = count_where (to_delete ids) db.accounts in
    let accounts = delete_where (to_delete ids) db.accounts in
    if ltb 0 deleted
    then (
      record { accounts = accounts; access = delete_where (is_orphan ids accounts) db.access },
      deleted,
    )
    else (db, 0)

abbrev pub hours : ℕ → ℕ
hours n = n * 3600000000

abbrev pub minutes : ℕ → ℕ
minutes n = n * 60000000

-- `created_at < now - TTL`, with the sum for the difference.
abbrev pub is_expired : ℕ → ℕ → XhsAccount → Bool
is_expired ttl now a = is_placeholder a && ltb (a.created_at + hours ttl) now

-- `seen` is the table of the SELECT, `db` that of the DELETE.
unfoldable pub reap_placeholders_once : ℕ → ℕ → Accounts → Db → Db × ℕ
reap_placeholders_once ttl now seen db =
    delete_placeholder_rows (map (λ a. a.id) (select (is_expired ttl now) seen)) db
