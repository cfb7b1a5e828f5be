-- ===== src/Accounts/Importing.antt =====
-- What an import (app/services/cookie_service.py) makes of the accounts that are there.
use mathlib.Core.Option
use mathlib.Core.Path.{subst}
use nbdpsy_mcp.Prelude.{
  ℕ, Bool, true, false, not, List, [], ◌∷◌, ◌++◌, Option, none, some, String, ◌≡◌, ◌≢◌, refl, sym,
  ap, arith, ◌∙◌, ◌⊎◌, inl, inr, if◌then◌else◌, Bool-cases, ==_iff, if-cases, elim-cases, is_none,
  ◌==◌,
}
use nbdpsy_mcp.Result.{guard-eq-ok, ok, is_ok, ok_inj, >>=-eq-ok}
use nbdpsy_mcp.Table.{
  key-find, find-append_old, find-update_where, apply_if, update_where, first_where,
}
use nbdpsy_mcp.Table.Unique.{Unique-append, Unique-update_where}
use nbdpsy_mcp.Auth.Guards.{Operator, OperatorAccountAccess, has_grant, assert_account_access}
use nbdpsy_mcp.Auth.Operators.{Access, grant_access}
use nbdpsy_mcp.Auth.Grants.{has_grant-grant_access}
use nbdpsy_mcp.Accounts.Account.{XhsAccount, Accounts, Db, find_account, is_account}
use nbdpsy_mcp.Accounts.Cookie.{Cookie}
use nbdpsy_mcp.Accounts.Placeholders.{is_placeholder}
use nbdpsy_mcp.Accounts.Reaping.{HasIds}
use nbdpsy_mcp.Accounts.Cleaning.{cleaned_away, with_cleaning-Collects, cleaned_away-leftover}
use nbdpsy_mcp.Accounts.Import.{
  Context, Imported, UserInfo, apply_cookie_state, with_cleaning, update_existing, new_account,
  match_again, insert_account, import_cookies, sealed, has_user_id, collides, match_account,
}

-- What becomes of the account `x` with the id `k`: nothing; the import is of this account, and the
-- operator has access; or it is a placeholder that the operator has access to, and not the account
-- of the import.
pub data Fate (c : Context) (op : Operator) (u : UserInfo) (s : String) (db : Db) (r : Imported)
    (k : ℕ) (x : XhsAccount) : Type 0 where
  untouched : find_account k r.db.accounts ≡ some x → Fate c op u s db r k x
  written :
      k ≡ r.account.id
      → is_ok (assert_account_access op k db.access) ≡ true
      → find_account k r.db.accounts ≡ some (apply_cookie_state c.now u s x)
      → Fate c op u s db r k x
  removed :
      is_placeholder x ≡ true
      → has_grant op.id k db.access ≡ true
      → k ≢ r.account.id
      → find_account k r.db.accounts ≡ none
      → Fate c op u s db r k x

-- What the cleaning makes of a row of the table before it.
after_cleaning :
    (c : Context) (op : Operator) (account : XhsAccount) (created : Bool) (db : Db) (k : ℕ)
    (x : XhsAccount)
    → HasIds db.accounts
    → find_account k db.accounts ≡ some x
    → (find_account k (with_cleaning c op account created db).db.accounts ≡ some x)
      ⊎ ((is_placeholder x ≡ true)
          × (has_grant op.id k db.access ≡ true)
          × (k ≢ account.id)
          × (find_account k (with_cleaning c op account created db).db.accounts ≡ none))
after_cleaning c op account created db k x u e =
    elim (Bool-cases (cleaned_away c op account db k)) [
      | inl gone ↦
          let (p, g, other) = cleaned_away-leftover c op account db k x e gone in
          inr (p, g, other, rw ((with_cleaning-Collects c op account db created k u).0, gone))
      | inr stays ↦ inl (rw ((with_cleaning-Collects c op account db created k u).0, stays, e))
    ]

apply_cookie_state-id :
    (now : ℕ) (u : UserInfo) (s : String) (a : XhsAccount)
    → (apply_cookie_state now u s a).id ≡ a.id
unfolding apply_cookie_state
apply_cookie_state-id now u s a = refl

-- The path of an account that is there.
module _ (c : Context) (op : Operator) (u : UserInfo) (s : String) (existing : XhsAccount)
    (db : Db) where
  abbrev pub updated : Db
  updated = record db {
    accounts = update_where (is_account existing.id) (apply_cookie_state c.now u s) db.accounts;
  }

  pub updated-HasIds : HasIds db.accounts → HasIds updated.accounts
  updated-HasIds =
      Unique-update_where (λ a. a.id) (is_account existing.id) (apply_cookie_state c.now u s)
        (apply_cookie_state-id c.now u s) db.accounts

  pub find-updated :
      (k : ℕ) (x : XhsAccount)
      → find_account k db.accounts ≡ some x
      → find_account k updated.accounts
        ≡ some (if k == existing.id then apply_cookie_state c.now u s x else x)
  find-updated k x e =
      find-update_where (λ a. a.id) k (is_account existing.id) (apply_cookie_state c.now u s)
        db.accounts (apply_cookie_state-id c.now u s)
      ∙ ap (Option.map (apply_if (is_account existing.id) (apply_cookie_state c.now u s))) e
      ∙ ap (λ i. some (if i == existing.id then apply_cookie_state c.now u s x else x))
          (key-find (λ a. a.id) k db.accounts x e)

  -- A successful update has passed the access check and the other guards.
  pub update_existing-ok :
      (r : Imported)
      → update_existing c op u s existing db ≡ ok r
      → (is_ok (assert_account_access op existing.id db.access) ≡ true)
        × (is_none (find_account existing.id db.accounts) ≡ false)
        × (r ≡ with_cleaning c op (apply_cookie_state c.now u s existing) false updated)
  unfolding update_existing
  update_existing-ok r h =
      let (_, h1, k1) = >>=-eq-ok (assert_account_access op existing.id db.access) _ h in
      let (h2, k2) = guard-eq-ok (not (is_none (find_account existing.id db.accounts))) _ _ k1 in
      let (h3, k3) =
        guard-eq-ok (not (collides (apply_cookie_state c.now u s existing) db.accounts)) _ _ k2 in
      (ap is_ok h1, ground (arith, h2), sym (ok_inj k3))

  abbrev after : ℕ → XhsAccount → XhsAccount
  after k x = if k == existing.id then apply_cookie_state c.now u s x else x

  with_update-Fate :
      (k : ℕ) (x : XhsAccount)
      → HasIds db.accounts
      → is_ok (assert_account_access op existing.id db.access) ≡ true
      → find_account k db.accounts ≡ some x
      → Fate c op u s db
          (with_cleaning c op (apply_cookie_state c.now u s existing) false updated)
          k
          x
  unfolding apply_cookie_state
  with_update-Fate k x uniq granted e = elim (Bool-cases (k == existing.id)) [
    | inl here ↦
        let ki = (==_iff k existing.id).0 here in
        elim cleaned [
          | inl f ↦
              written ki
                (subst (λ j. is_ok (assert_account_access op j db.access) ≡ true) (sym ki) granted)
                (f ∙ ap some (rw here))
          | inr (_, _, other, _) ↦ absurd (other ki)
        ]
    | inr elsewhere ↦ elim cleaned [
      | inl f ↦ untouched (f ∙ ap some (rw elsewhere))
      | inr (p, g, other, gone) ↦
          removed (subst (λ y. is_placeholder y ≡ true) (rw elsewhere) p) g other gone
    ]
  ]
    where
      cleaned :
          (find_account k
              (with_cleaning c op (apply_cookie_state c.now u s existing) false updated).db.accounts
            ≡ some (after k x))
          ⊎ ((is_placeholder (after k x) ≡ true)
              × (has_grant op.id k db.access ≡ true)
              × (k ≢ existing.id)
              × (find_account k
                    (with_cleaning c op
                      (apply_cookie_state c.now u s existing)
                      false
                      updated).db.accounts
                  ≡ none))
      cleaned =
          after_cleaning c op (apply_cookie_state c.now u s existing) false updated k (after k x)
            (updated-HasIds uniq) (find-updated k x e)

  pub update_existing-Fate :
      (r : Imported) (k : ℕ) (x : XhsAccount)
      → HasIds db.accounts
      → update_existing c op u s existing db ≡ ok r
      → find_account k db.accounts ≡ some x
      → Fate c op u s db r k x
  update_existing-Fate r k x uniq h e =
      let (granted, there, same) = update_existing-ok r h in
      subst (λ (r' : Imported). Fate c op u s db r' k x) (sym same)
        (with_update-Fate k x uniq granted e)

-- The path of a new account.
module _ (c : Context) (op : Operator) (name : String) (u : UserInfo) (s : String) (db : Db) where
  abbrev pub fresh_account : XhsAccount
  fresh_account = apply_cookie_state c.now u s (new_account c.account_id c.now name)

  abbrev pub inserted : Access → Db
  inserted access = record { accounts = db.accounts ++ fresh_account ∷ []; access = access }

  pub inserted-HasIds :
      (access : Access)
      → find_account c.account_id db.accounts ≡ none
      → HasIds db.accounts
      → HasIds (inserted access).accounts
  unfolding apply_cookie_state
  inserted-HasIds access fresh uniq = Unique-append (λ a. a.id) db.accounts fresh_account uniq fresh

  has_grant-other :
      (k : ℕ) (granted : Access × OperatorAccountAccess)
      → k ≢ c.account_id
      → grant_access c.grant_id c.now op.id c.account_id (some op.id) db.access ≡ ok granted
      → has_grant op.id k granted.0 ≡ has_grant op.id k db.access
  has_grant-other k granted ne h =
      has_grant-grant_access c.grant_id c.now op.id c.account_id (some op.id) db.access granted h
        op.id k
      ∙ ground arith

  pub insert_account-Fate :
      (r : Imported) (k : ℕ) (x : XhsAccount)
      → HasIds db.accounts
      → find_account c.account_id db.accounts ≡ none
      → insert_account c op name u s db ≡ ok r
      → find_account k db.accounts ≡ some x
      → Fate c op u s db r k x
  unfolding insert_account match_again apply_cookie_state
  insert_account-Fate r k x uniq fresh h e =
      elim (if-cases (collides fresh_account db.accounts) _ _ h) [
        | inl (_, h1) ↦ elim (elim-cases (first_where (has_user_id u.user_id) db.accounts) _ _ h1) [
          | inl (_, h2) ↦ cc
          | inr (existing, _, h2) ↦ update_existing-Fate c op u s existing db r k x uniq h2 e
        ]
        | inr (_, h1) ↦
            let (granted, h2, h3) =
              >>=-eq-ok (grant_access c.grant_id c.now op.id c.account_id (some op.id) db.access) _
                h1 in
            subst (λ (r' : Imported). Fate c op u s db r' k x) (ok_inj h3)
              (elim (after_cleaning c op fresh_account true (inserted granted.0) k x
                (inserted-HasIds granted.0 fresh uniq)
                (find-append_old (λ a. a.id) k db.accounts (fresh_account ∷ []) x e)) [
                  | inl f ↦ untouched f
                  | inr (p, g, other, gone) ↦
                      removed p (sym (has_grant-other k granted other h2) ∙ g) other gone
                ])
      ]

-- An import that succeeds leaves every account that was there as it was, but for the account that
-- it returns, which it may write only with the operator's access to it, and for placeholders that
-- the operator has access to, which it may remove. The database gives distinct ids, and a new id
-- to a new account; the tables may have changed since the import looked for the account.
pub import_cookies-Fate :
    (lower : String → String) (dumps : List Cookie → String) (loads : String → Option (List Cookie))
    (encrypt : String → String) (decrypt : String → Option String) (c : Context) (op : Operator)
    (name : String) (cookies : List Cookie) (u : UserInfo) (seen : Accounts) (db : Db)
    → HasIds db.accounts
    → find_account c.account_id db.accounts ≡ none
    → (r : Imported)
    → import_cookies lower dumps loads encrypt decrypt c op name cookies u seen db ≡ ok r
    → (k : ℕ) (x : XhsAccount) → find_account k db.accounts ≡ some x
    → Fate c op u (sealed lower dumps loads encrypt decrypt cookies) db r k x
unfolding import_cookies
import_cookies-Fate lower dumps loads encrypt decrypt c op name cookies u seen db uniq fresh r h k x
      e =
    elim (elim-cases (match_account u.user_id name seen) _ _ h) [
      | inl (_, h1) ↦ insert_account-Fate c op name u _ db r k x uniq fresh h1 e
      | inr (existing, _, h1) ↦ update_existing-Fate c op u _ existing db r k x uniq h1 e
    ]
