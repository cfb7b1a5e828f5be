-- ===== src/Accounts/Reaping.antt =====
-- What the deletion of placeholders leaves (app/services/placeholder_reaper.py).
use nbdpsy_mcp.Prelude.{
  ℕ, Bool, true, false, not, ◌&&◌, List, map, none, ◌≡◌, arith, ◌∙◌, inl, inr, if◌then◌else◌,
  contains, select, Bool-cases, Option-cases, is_none, ◌⊎◌, ap,
}
use nbdpsy_mcp.Table.{key-find, delete_where}
use nbdpsy_mcp.Table.Unique.{Unique, passes}
use nbdpsy_mcp.Table.Deletion.{find-delete_where, passes-count_where, contains-ids_where}
use nbdpsy_mcp.Auth.Guards.{OperatorAccountAccess, is_grant, has_grant}
use nbdpsy_mcp.Auth.Operators.{Access}
use nbdpsy_mcp.Auth.Grants.{count-delete_none, count-delete_all}
use nbdpsy_mcp.Accounts.Account.{Accounts, Db, find_account}
use nbdpsy_mcp.Accounts.Placeholders.{
  is_placeholder, to_delete, is_orphan, delete_placeholder_rows, is_expired, reap_placeholders_once,
}

abbrev pub HasIds : Accounts → Type 0
HasIds = Unique (λ a. a.id)

pub find-delete_placeholder_rows :
    (ids : List ℕ) (db : Db) (k : ℕ)
    → HasIds db.accounts
    → find_account k (delete_placeholder_rows ids db).0.accounts ≡ (
        if passes (to_delete ids) (find_account k db.accounts)
        then none
        else find_account k db.accounts)
unfolding delete_placeholder_rows
find-delete_placeholder_rows ids db k u = ground (
  arith,
  find-delete_where (λ a. a.id) k (to_delete ids) db.accounts u,
  passes-count_where (λ a. a.id) k (to_delete ids) db.accounts,
)

-- Is a grant of this account dropped?
abbrev drops : List ℕ → Accounts → ℕ → Bool
drops ids accounts a = contains ids a && is_none (find_account a accounts)

is_grant-account :
    (o a : ℕ) (g : OperatorAccountAccess) → is_grant o a g ≡ true → g.xhs_account_id ≡ a
is_grant-account o a g h = ground arith

has_grant-drops :
    (ids : List ℕ) (accounts : Accounts) (access : Access) (o a : ℕ)
    → has_grant o a (delete_where (is_orphan ids accounts) access)
      ≡ (not (drops ids accounts a) && has_grant o a access)
unfolding has_grant
has_grant-drops ids accounts access o a = elim (Bool-cases (drops ids accounts a)) [
  | inl e ↦ ground (arith, e, count-delete_all o a (is_orphan ids accounts) access (dropped e))
  | inr e ↦ ground (arith, e, count-delete_none o a (is_orphan ids accounts) access (dropped e))
]
  where
    dropped :
        {b : Bool}
        → drops ids accounts a ≡ b
        → (g : OperatorAccountAccess) → is_grant o a g ≡ true
        → not (is_orphan ids accounts g) ≡ not b
    dropped e g h = ap (λ k. not (drops ids accounts k)) (is_grant-account o a g h) ∙ ap not e

-- The grants of an account that stays, and of one that was not asked for, stay too.
pub has_grant-delete_placeholder_rows :
    (ids : List ℕ) (db : Db) (o a : ℕ)
    → contains ids a ≡ false
      ⊎ (is_none (find_account a (delete_placeholder_rows ids db).0.accounts) ≡ false)
    → has_grant o a (delete_placeholder_rows ids db).0.access ≡ has_grant o a db.access
unfolding delete_placeholder_rows
has_grant-delete_placeholder_rows ids db o a h =
    ground (arith, h, has_grant-drops ids (delete_where (to_delete ids) db.accounts) db.access o a)

-- Is the account one that this round collects: an expired placeholder when it was selected, and
-- still a placeholder when it is deleted?
abbrev pub collected : ℕ → ℕ → Accounts → Accounts → ℕ → Bool
collected ttl now seen accounts k =
    passes (is_expired ttl now) (find_account k seen)
    && passes is_placeholder (find_account k accounts)

passes-to_delete :
    (ids : List ℕ) (k : ℕ) (accounts : Accounts)
    → passes (to_delete ids) (find_account k accounts)
      ≡ (contains ids k && passes is_placeholder (find_account k accounts))
passes-to_delete ids k accounts = elim (Option-cases (find_account k accounts)) [
  | inl none_there ↦ rw (none_there, &&-false (contains ids k))
  | inr (x, there) ↦
      rw there
        (ap (λ i. contains ids i && is_placeholder x) (key-find (λ a. a.id) k accounts x there))
]
  where
    &&-false : (b : Bool) → (b && false) ≡ false
    &&-false b = ground arith

-- The grants of a deleted account go with it.
has_grant-deleted :
    (ids : List ℕ) (db : Db) (o a : ℕ)
    → HasIds db.accounts
    → passes (to_delete ids) (find_account a db.accounts) ≡ true
    → has_grant o a (delete_placeholder_rows ids db).0.access ≡ false
unfolding delete_placeholder_rows
has_grant-deleted ids db o a u h = ground (
  arith,
  h,
  has_grant-drops ids (delete_where (to_delete ids) db.accounts) db.access o a,
  passes-count_where (λ a. a.id) a (to_delete ids) db.accounts,
  find-delete_where (λ a. a.id) a (to_delete ids) db.accounts u,
  passes-to_delete ids a db.accounts,
)

-- Both at once, for the accounts that a test `gone` names.
abbrev pub Collects : (ℕ → Bool) → Db → Db → ℕ → Type 0
Collects gone db db' k =
    (find_account k db'.accounts ≡ (if gone k then none else find_account k db.accounts))
    × ((o : ℕ)
        → is_none (find_account k db.accounts) ≡ false
        → has_grant o k db'.access ≡ (not (gone k) && has_grant o k db.access))

pub delete_placeholder_rows-Collects :
    (ids : List ℕ) (db : Db) (gone : ℕ → Bool) (k : ℕ)
    → HasIds db.accounts
    → contains ids k && passes is_placeholder (find_account k db.accounts) ≡ gone k
    → Collects gone db (delete_placeholder_rows ids db).0 k
delete_placeholder_rows-Collects ids db gone k u same = elim (Bool-cases (gone k)) [
  | inl e ↦ (
    rw (find-delete_placeholder_rows ids db k u, hit ∙ e, e),
    λ o there. rw (has_grant-deleted ids db o k u (hit ∙ e), e),
  )
  | inr e ↦ (
    rw (find-delete_placeholder_rows ids db k u, hit ∙ e, e),
    λ o there. rw (has_grant-delete_placeholder_rows ids db o k (inr (kept (hit ∙ e) there)), e),
  )
]
  where
    hit : passes (to_delete ids) (find_account k db.accounts) ≡ gone k
    hit = passes-to_delete ids k db.accounts ∙ same

    kept :
        passes (to_delete ids) (find_account k db.accounts) ≡ false
        → is_none (find_account k db.accounts) ≡ false
        → is_none (find_account k (delete_placeholder_rows ids db).0.accounts) ≡ false
    kept e there = rw (find-delete_placeholder_rows ids db k u, e, there)

-- A round of the reaper on a table that may have changed since the selection: an account is gone
-- exactly if it was selected as an expired placeholder and still is a placeholder; every other
-- account stays as it is, with its grants; and no grant of a collected account is left.
pub reap-Collects :
    (ttl now : ℕ) (seen : Accounts) (db : Db)
    → HasIds seen
    → HasIds db.accounts
    → (k : ℕ)
    → Collects (collected ttl now seen db.accounts) db (reap_placeholders_once ttl now seen db).0 k
unfolding reap_placeholders_once
reap-Collects ttl now seen db us u k =
    delete_placeholder_rows-Collects (map (λ a. a.id) (select (is_expired ttl now) seen)) db
      (collected ttl now seen db.accounts) k u
      (ap (λ b. b && passes is_placeholder (find_account k db.accounts))
        (contains-ids_where (λ a. a.id) k (is_expired ttl now) seen us))
