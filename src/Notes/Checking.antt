-- ===== src/Notes/Checking.antt =====
-- The end of a check of cookies (app/services/cookie_check.py), and what it makes of the accounts.
use mathlib.Core.Option
use nbdpsy_mcp.Prelude.{
  ℕ, Bool, true, false, Option, none, some, String, ◌≡◌, ◌≢◌, ◌⊎◌, inl, inr, refl, ap, ◌∙◌, arith,
  Bool-cases, ==_iff, subst, ◌==◌, if◌then◌else◌, str_eq, eq_iff,
}
use nbdpsy_mcp.Table.{update_where, find-update_where, find-update_other, apply_if, key-find}
use nbdpsy_mcp.Accounts.Account.{XhsAccount, Accounts, find_account, is_account}
use nbdpsy_mcp.Notes.Checks.{
  Check, Checks, UserInfo, Verdict, is_valid, is_invalid, is_captcha, status_of, fill, LoginCheck,
  verdict, failed, raised, checked, write_back, end_check, run_check, error as check_error,
}
use nbdpsy_mcp.Notes.Settling.{write_entry-same}

-- What a check must leave: the id, the name, the state, the cookies and the times of the account.
abbrev pub identity : XhsAccount → ℕ × String × String × Option String × Option ℕ × ℕ
identity a = (a.id, a.name, a.status, a.login_cookies, a.last_login_at, a.created_at)

checked-identity :
    (now : ℕ) (v : Verdict) (user_info : Option UserInfo) (a : XhsAccount)
    → identity (checked now v user_info a) ≡ identity a
checked-identity now v none a = refl
checked-identity now v (some info) a = refl

checked-id :
    (now : ℕ) (v : Verdict) (user_info : Option UserInfo) (a : XhsAccount)
    → (checked now v user_info a).id ≡ a.id
checked-id now v none a = refl
checked-id now v (some info) a = refl

module _ (now account_id : ℕ) (v : Verdict) (user_info : Option UserInfo)
    (accounts : Accounts) where
  written : Accounts
  written = update_where (is_account account_id) (checked now v user_info) accounts

  apply_if-identity :
      (o : Option XhsAccount)
      → Option.map identity
          (Option.map (apply_if (is_account account_id) (checked now v user_info)) o)
        ≡ Option.map identity o
  apply_if-identity none = refl
  apply_if-identity (some a) = elim (Bool-cases (is_account account_id a)) [
    | inl e ↦ rw e (ap some (checked-identity now v user_info a))
    | inr e ↦ rw e refl
  ]

  found-checked :
      (o : Option XhsAccount)
      → ((a : XhsAccount) → o ≡ some a → a.id ≡ account_id)
      → Option.map (apply_if (is_account account_id) (checked now v user_info)) o
        ≡ Option.map (checked now v user_info) o
  found-checked none h = refl
  found-checked (some a) h = rw (h a refl) (ground arith)

  find-written :
      (k : ℕ)
      → find_account k written
        ≡ Option.map
            (apply_if (is_account account_id) (checked now v user_info))
            (find_account k accounts)
  unfolding written
  find-written k =
      find-update_where (λ a. a.id) k (is_account account_id) (checked now v user_info) accounts
        (checked-id now v user_info)

  written-identity :
      (k : ℕ)
      → Option.map identity (find_account k written) ≡ Option.map identity (find_account k accounts)
  written-identity k =
      ap (Option.map identity) (find-written k) ∙ apply_if-identity (find_account k accounts)

  written-same :
      find_account account_id written
      ≡ Option.map (checked now v user_info) (find_account account_id accounts)
  written-same =
      find-written account_id
      ∙ found-checked (find_account account_id accounts)
          (λ a found. key-find (λ x. x.id) account_id accounts a found)

  written-other : (k : ℕ) → account_id ≢ k → find_account k written ≡ find_account k accounts
  unfolding written
  written-other k ne =
      find-update_other (λ a. a.id) k account_id (checked now v user_info) accounts
        (checked-id now v user_info) ne

  written-at :
      (k : ℕ)
      → find_account k written ≡ (
          if account_id == k
          then Option.map (checked now v user_info) (find_account k accounts)
          else find_account k accounts)
  written-at k = elim (Bool-cases (account_id == k)) [
    | inl e ↦ rw e (
        subst
          (λ q.
            find_account q written ≡ Option.map (checked now v user_info) (find_account q accounts))
          ((==_iff account_id k).0 e) written-same)
    | inr e ↦ rw e (written-other k (λ same. ground (arith, e, same)))
  ]

-- A field of the account: the text that the check gives, if it is not empty, and else as it was.
abbrev pub IsFilled : Option String → Option String → Option String → Type 0
IsFilled given old new =
    ((value : String) × (given ≡ some value) × (value ≢ "") × (new ≡ some value))
    ⊎ (((given ≡ none) ⊎ (given ≡ some "")) × (new ≡ old))

abbrev pub field_of : (UserInfo → Option String) → Option UserInfo → Option String
field_of field none = none
field_of field (some info) = field info

-- What the account `x` that was checked has become.
pub record Checked (now : ℕ) (v : Verdict) (user_info : Option UserInfo) (x y : XhsAccount)
    : Type 0 where
  pub cookie_status :
      y.cookie_status
      ≡ elim v [ is_valid ↦ "valid" | is_invalid ↦ "invalid" | is_captcha ↦ "captcha" ]
  pub last_check_at : y.last_check_at ≡ some now
  pub nickname : IsFilled (field_of (λ i. i.nickname) user_info) x.nickname y.nickname
  pub user_id : IsFilled (field_of (λ i. i.user_id) user_info) x.user_id y.user_id
  pub red_id : IsFilled (field_of (λ i. i.red_id) user_info) x.red_id y.red_id
  pub avatar : IsFilled (field_of (λ i. i.avatar) user_info) x.avatar y.avatar

fill-IsFilled : (given old : Option String) → IsFilled given old (fill given old)
fill-IsFilled none old = inr (inl refl, refl)
fill-IsFilled (some value) old = elim (Bool-cases (str_eq value "")) [
  | inl e ↦ rw e (inr (inr (ap some ((eq_iff value "").0 e)), refl))
  | inr e ↦ rw e (inl (value, refl, λ empty. ground (arith, e, (eq_iff value "").1 empty), refl))
]

checked-Checked :
    (now : ℕ) (v : Verdict) (user_info : Option UserInfo) (x : XhsAccount)
    → Checked now v user_info x (checked now v user_info x)
checked-Checked now v none x = record {
  cookie_status = refl;
  last_check_at = refl;
  nickname = inr (inl refl, refl);
  user_id = inr (inl refl, refl);
  red_id = inr (inl refl, refl);
  avatar = inr (inl refl, refl);
}
checked-Checked now v (some info) x = record {
  cookie_status = refl;
  last_check_at = refl;
  nickname = fill-IsFilled info.nickname x.nickname;
  user_id = fill-IsFilled info.user_id x.user_id;
  red_id = fill-IsFilled info.red_id x.red_id;
  avatar = fill-IsFilled info.avatar x.avatar;
}

-- What a check that gives a verdict makes of the account k.
abbrev pub After : ℕ → ℕ → Verdict → Option UserInfo → ℕ → XhsAccount → XhsAccount → Type 0
After now account_id v user_info k x y =
    ((account_id ≢ k) × (y ≡ x)) ⊎ ((account_id ≡ k) × Checked now v user_info x y)

found-After :
    (now account_id : ℕ) (v : Verdict) (user_info : Option UserInfo) (accounts : Accounts) (k : ℕ)
    (x : XhsAccount)
    → find_account k accounts ≡ some x
    → (y : XhsAccount) × (find_account k (written now account_id v user_info accounts) ≡ some y)
      × After now account_id v user_info k x y
found-After now account_id v user_info accounts k x e = elim (Bool-cases (account_id == k)) [
  | inl q ↦
      let same = (==_iff account_id k).0 q in
      (
        checked now v user_info x,
        written-at now account_id v user_info accounts k ∙ rw (q, e) refl,
        inr (same, checked-Checked now v user_info x),
      )
  | inr q ↦ (
    x,
    written-at now account_id v user_info accounts k ∙ rw q e,
    inl (λ same. ground (arith, q, same), refl),
  )
]

module _ (now id account_id : ℕ) (c : Check) where
  -- A check that runs comes to its end. If that is an error, no account was written. Else it is the
  -- verdict, and of every account that is there, the one that was checked has the verdict, the time of
  -- it, and those of its nickname, ids and picture that the check gives; each other one is as it was.
  -- No check creates or removes an account, or writes its id, name, state, cookies or the time of its
  -- login.
  pub run_check-Fate :
      (db_up : Bool) (result : LoginCheck) (checks : Checks) (accounts : Accounts) (k : ℕ)
      (x : XhsAccount)
      → checks id ≡ some c
      → find_account k accounts ≡ some x
      → let (checks', accounts') = run_check db_up now id account_id result checks accounts in
        ((q : ℕ)
          → Option.map identity (find_account q accounts')
            ≡ Option.map identity (find_account q accounts))
        × (((user_info : Option UserInfo) × (reason : Option String) × (checks' id
                ≡ some (end_check check_error user_info reason c))
              × (accounts' ≡ accounts))
            ⊎ ((v : Verdict) × (user_info : Option UserInfo) × (reason : Option String) × (result
                  ≡ verdict v user_info reason)
                × (checks' id ≡ some (end_check (status_of v) user_info reason c))
                × ((y : XhsAccount) × (find_account k accounts' ≡ some y)
                    × After now account_id v user_info k x y)))
  unfolding run_check write_back written
  run_check-Fate db_up (raised reason) checks accounts k x there found = (
    λ q. refl,
    inl (
      none,
      some reason,
      write_entry-same id (end_check check_error none (some reason)) checks c there,
      refl,
    ),
  )
  run_check-Fate db_up (failed user_info reason) checks accounts k x there found = (
    λ q. refl,
    inl (
      user_info,
      reason,
      write_entry-same id (end_check check_error user_info reason) checks c there,
      refl,
    ),
  )
  run_check-Fate false (verdict v user_info reason) checks accounts k x there found = (
    λ q. refl,
    inl (
      none,
      some "检测任务异常",
      write_entry-same id (end_check check_error none (some "检测任务异常")) checks c there,
      refl,
    ),
  )
  run_check-Fate true (verdict v user_info reason) checks accounts k x there found = (
    written-identity now account_id v user_info accounts,
    inr (
      v,
      user_info,
      reason,
      refl,
      write_entry-same id (end_check (status_of v) user_info reason) checks c there,
      found-After now account_id v user_info accounts k x found,
    ),
  )
