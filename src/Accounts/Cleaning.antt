-- ===== src/Accounts/Cleaning.antt =====
-- The cleaning at the end of an import (app/services/cookie_service.py).
use mathlib.Core.Path.{subst}
use nbdpsy_mcp.Prelude.{
  ℕ, Bool, true, false, ◌&&◌, some, ◌≡◌, ◌≢◌, ap, arith, ◌∙◌, inl, inr, Option-cases,
}
use nbdpsy_mcp.Table.{key-find}
use nbdpsy_mcp.Table.Unique.{passes}
use nbdpsy_mcp.Table.Deletion.{contains-ids_where}
use nbdpsy_mcp.Auth.Guards.{Operator, has_grant}
use nbdpsy_mcp.Accounts.Account.{XhsAccount, Db, find_account}
use nbdpsy_mcp.Accounts.Placeholders.{is_placeholder}
use nbdpsy_mcp.Accounts.Reaping.{HasIds, Collects, delete_placeholder_rows-Collects}
use nbdpsy_mcp.Accounts.Import.{
  Context, truthy, is_leftover, clean_placeholder_accounts, clean_placeholders_best_effort,
  with_cleaning,
}

module _ (c : Context) (op : Operator) (account : XhsAccount) (db : Db) where
  abbrev leftover : XhsAccount → Bool
  leftover = is_leftover c.window c.now op.id account.id db

  -- Is the account cleaned away?
  abbrev pub cleaned_away : ℕ → Bool
  cleaned_away k =
      (truthy account.user_id && c.cleanable) && passes leftover (find_account k db.accounts)

  leftover-is_placeholder :
      (k : ℕ)
      → (passes leftover (find_account k db.accounts)
          && passes is_placeholder (find_account k db.accounts))
        ≡ passes leftover (find_account k db.accounts)
  leftover-is_placeholder k = elim (Option-cases (find_account k db.accounts)) [
    | inl e ↦ rw e
    | inr (x, e) ↦ rw e (ground arith)
  ]

  clean-Collects :
      (k : ℕ)
      → HasIds db.accounts
      → Collects
          (λ j. passes leftover (find_account j db.accounts))
          db
          (clean_placeholder_accounts c.window c.now op.id account.id db).0
          k
  unfolding clean_placeholder_accounts
  clean-Collects k u =
      delete_placeholder_rows-Collects _ db (λ j. passes leftover (find_account j db.accounts)) k u
        (ap (λ b. b && passes is_placeholder (find_account k db.accounts))
            (contains-ids_where (λ a. a.id) k leftover db.accounts u)
          ∙ leftover-is_placeholder k)

  pub with_cleaning-Collects :
      (created : Bool) (k : ℕ)
      → HasIds db.accounts
      → Collects cleaned_away db (with_cleaning c op account created db).db k
  unfolding clean_placeholders_best_effort
  with_cleaning-Collects created k u = ground (arith, clean-Collects k u)

  -- The account of the import is never cleaned away.
  pub cleaned_away-kept : cleaned_away account.id ≡ false
  cleaned_away-kept = elim (Option-cases (find_account account.id db.accounts)) [
    | inl e ↦ rw e (ground arith)
    | inr (x, e) ↦ rw e (ground (arith, key-find (λ a. a.id) account.id db.accounts x e))
  ]

  -- What is cleaned away is a placeholder that the operator may use.
  pub cleaned_away-leftover :
      (k : ℕ) (x : XhsAccount)
      → find_account k db.accounts ≡ some x
      → cleaned_away k ≡ true
      → (is_placeholder x ≡ true) × (has_grant op.id k db.access ≡ true) × (k ≢ account.id)
  cleaned_away-leftover k x e h = ground (arith, key-find (λ a. a.id) k db.accounts x e, away)
    where
      away : ((truthy account.user_id && c.cleanable) && leftover x) ≡ true
      away = subst (λ o. ((truthy account.user_id && c.cleanable) && passes leftover o) ≡ true) e h
