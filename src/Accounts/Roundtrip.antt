-- ===== src/Accounts/Roundtrip.antt =====
-- What is imported, and what is read back: import_cookies and get_cookies of
-- app/services/cookie_service.py.
use mathlib.Core.Path.{subst}
use nbdpsy_mcp.Prelude.{
  ℕ, Bool, true, false, List, Option, none, some, String, ◌≡◌, refl, sym, ap, arith, ◌∙◌, inl, inr,
  str_eq, ◌==◌, is_none, Option-cases, if-cases, elim-cases,
}
use nbdpsy_mcp.Result.{ok, is_ok, ok_inj, >>=-eq-ok}
use nbdpsy_mcp.Table.{find-append_new, first_where}
use nbdpsy_mcp.Auth.Guards.{Operator, has_grant, assert_account_access}
use nbdpsy_mcp.Auth.Operators.{Access, grant_access}
use nbdpsy_mcp.Auth.Grants.{has_grant-grant_access}
use nbdpsy_mcp.Accounts.Account.{XhsAccount, Accounts, Db, find_account}
use nbdpsy_mcp.Accounts.Cookie.{Cookie, normalize_cookies}
use nbdpsy_mcp.Accounts.Reaping.{HasIds}
use nbdpsy_mcp.Accounts.Cleaning.{with_cleaning-Collects, cleaned_away-kept}
use nbdpsy_mcp.Accounts.Import.{
  Context, Imported, UserInfo, apply_cookie_state, with_cleaning, update_existing, match_account,
  match_again, insert_account, import_cookies, get_cookies, sealed, has_user_id, collides,
}
use nbdpsy_mcp.Accounts.Importing.{
  updated, updated-HasIds, find-updated, update_existing-ok, fresh_account, inserted,
  inserted-HasIds,
}

==-self : (k : ℕ) → (k == k) ≡ true
==-self k = ground arith

has_grant-assert :
    (op : Operator) (k : ℕ) (access : Access)
    → has_grant op.id k access ≡ true
    → is_ok (assert_account_access op k access) ≡ true
unfolding assert_account_access
has_grant-assert op k access h = ground (arith, h)

-- The access check reads the grants of its pair alone.
assert-grant :
    (op : Operator) (k : ℕ) (access access' : Access)
    → has_grant op.id k access' ≡ has_grant op.id k access
    → is_ok (assert_account_access op k access) ≡ true
    → assert_account_access op k access' ≡ ok tt
unfolding assert_account_access
assert-grant op k access access' same h = ground (arith, same, h)

module _ (lower : String → String) (dumps : List Cookie → String)
    (loads : String → Option (List Cookie)) (encrypt : String → String)
    (decrypt : String → Option String)
    (decrypt-encrypt : (plain : String) → decrypt (encrypt plain) ≡ some plain)
    (encrypt-nonempty : (plain : String) → str_eq (encrypt plain) "" ≡ false) (c : Context)
    (op : Operator) (u : UserInfo) (cookies : List Cookie)
    (loads-dumps : loads (dumps (normalize_cookies lower cookies))
      ≡ some (normalize_cookies lower cookies))
    (dumps-nonempty : str_eq (dumps (normalize_cookies lower cookies)) "" ≡ false) where
  abbrev code : String
  code = sealed lower dumps loads encrypt decrypt cookies

  abbrev ReadsBack : Imported → Type 0
  ReadsBack r =
      get_cookies lower dumps loads encrypt decrypt op r.account.id r.db
      ≡ ok (normalize_cookies lower cookies)

  -- The end of each path: the row with the sealed cookies is read back after the cleaning.
  get_cookies-with_cleaning :
      (account y : XhsAccount) (created : Bool) (db : Db)
      → HasIds db.accounts
      → find_account account.id db.accounts ≡ some y
      → y.login_cookies ≡ some code
      → is_ok (assert_account_access op account.id db.access) ≡ true
      → get_cookies lower dumps loads encrypt decrypt op account.id
          (with_cleaning c op account created db).db
        ≡ ok (normalize_cookies lower cookies)
  unfolding get_cookies
  get_cookies-with_cleaning account y created db uniq e code_of granted =
      let (row, grants) = with_cleaning-Collects c op account db created account.id uniq in
      let kept = cleaned_away-kept c op account db in
      let same = grants op.id (rw e) ∙ rw kept in
      rw (
        assert-grant op account.id db.access _ same granted,
        row,
        kept,
        e,
        code_of,
        encrypt-nonempty (dumps (normalize_cookies lower cookies)),
        decrypt-encrypt (dumps (normalize_cookies lower cookies)),
        dumps-nonempty,
        loads-dumps,
      )

  update_existing-get_cookies :
      (existing : XhsAccount) (db : Db) (r : Imported)
      → HasIds db.accounts
      → update_existing c op u code existing db ≡ ok r
      → ReadsBack r
  unfolding apply_cookie_state
  update_existing-get_cookies existing db r uniq h =
      let (granted, there, same) = update_existing-ok c op u code existing db r h in
      elim (Option-cases (find_account existing.id db.accounts)) [
        | inl e ↦ absurd (missing there e)
        | inr (x, e) ↦ subst ReadsBack (sym same) (
            get_cookies-with_cleaning (apply_cookie_state c.now u code existing)
              (apply_cookie_state c.now u code x) false (updated c op u code existing db)
              (updated-HasIds c op u code existing db uniq)
              (find-updated c op u code existing db existing.id x e
                ∙ ap some (rw (==-self existing.id)))
              refl granted)
      ]
    where
      missing : {o : Option XhsAccount} → is_none o ≡ false → o ≡ none → ⊥
      missing there e = ground (arith, there, e)

  insert_account-get_cookies :
      (name : String) (db : Db) (r : Imported)
      → HasIds db.accounts
      → find_account c.account_id db.accounts ≡ none
      → insert_account c op name u code db ≡ ok r
      → ReadsBack r
  unfolding insert_account match_again apply_cookie_state
  insert_account-get_cookies name db r uniq fresh h =
      elim (if-cases (collides (fresh_account c op name u code db) db.accounts) _ _ h) [
        | inl (_, h1) ↦ elim (elim-cases (first_where (has_user_id u.user_id) db.accounts) _ _ h1) [
          | inl (_, h2) ↦ cc
          | inr (existing, _, h2) ↦ update_existing-get_cookies existing db r uniq h2
        ]
        | inr (_, h1) ↦
            let (granted, h2, h3) =
              >>=-eq-ok (grant_access c.grant_id c.now op.id c.account_id (some op.id) db.access) _
                h1 in
            subst ReadsBack (ok_inj h3) (
              get_cookies-with_cleaning (fresh_account c op name u code db)
                (fresh_account c op name u code db) true (inserted c op name u code db granted.0)
                (inserted-HasIds c op name u code db granted.0 fresh uniq)
                (find-append_new (λ a. a.id) c.account_id db.accounts
                    (fresh_account c op name u code db) fresh
                  ∙ rw (==-self c.account_id))
                refl
                (has_grant-assert op c.account_id granted.0 (
                  has_grant-grant_access c.grant_id c.now op.id c.account_id (some op.id) db.access
                    granted h2 op.id c.account_id
                  ∙ rw (==-self op.id, ==-self c.account_id))))
      ]

  -- What is imported can be read back: after an import that succeeds, whichever row it took, and
  -- also after it has cleaned up, the same operator reads the normalized cookies from the account
  -- that it returns. The cipher decrypts what it encrypted, the JSON library parses what it
  -- printed of these cookies, neither gives the empty text, and the database gives distinct ids.
  pub import_cookies-get_cookies :
      (name : String) (seen : Accounts) (db : Db)
      → HasIds db.accounts
      → find_account c.account_id db.accounts ≡ none
      → (r : Imported)
      → import_cookies lower dumps loads encrypt decrypt c op name cookies u seen db ≡ ok r
      → get_cookies lower dumps loads encrypt decrypt op r.account.id r.db
        ≡ ok (normalize_cookies lower cookies)
  unfolding import_cookies
  import_cookies-get_cookies name seen db uniq fresh r h =
      elim (elim-cases (match_account u.user_id name seen) _ _ h) [
        | inl (_, h1) ↦ insert_account-get_cookies name db r uniq fresh h1
        | inr (existing, _, h1) ↦ update_existing-get_cookies existing db r uniq h1
      ]
