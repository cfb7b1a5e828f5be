-- ===== src/Auth/Grants.antt =====
-- The table of grants against its meaning: a set of pairs of an operator and an account. The calls
-- are those of app/services/operator_service.py and of delete_account.
use mathlib.Core.Path.{subst}
use nbdpsy_mcp.Prelude.{
  ℕ, suc, ◌+◌, ◌≤◌, Bool, true, false, not, ◌&&◌, ◌||◌, List, [], ◌∷◌, ◌++◌, Option, ◌≡◌, refl, sym,
  ap, arith, ◌==◌, if◌then◌else◌, inl, inr, ◌∙◌, List-cases, select, length, Bool-cases,
}
use nbdpsy_mcp.Result.{Result, ok, err, ok_inj, multiple_results, ◌>>=◌}
use nbdpsy_mcp.Table.{delete_where, count_where, one_or_none}
use nbdpsy_mcp.Auth.Guards.{OperatorAccountAccess, is_grant, has_grant}
use nbdpsy_mcp.Auth.Operators.{Access, new_grant, grant_access, revoke_access, delete_operator}

-- The calls that write grants, with the id and the time that a new row gets.
pub data Call : Type 0 where
  grant : (id now operator_id account_id : ℕ) → Option ℕ → Call
  revoke : (operator_id account_id : ℕ) → Call
  drop_operator drop_account : ℕ → Call

unfoldable pub run_call : Call → Access → Result Access
run_call (grant id now o a by_whom) access = grant_access id now o a by_whom access >>= λ r. ok r.0
run_call (revoke o a) access = ok (revoke_access o a access)
run_call (drop_operator o) access = ok (delete_operator o ([], access)).1
run_call (drop_account a) access = ok (delete_where (λ g. g.xhs_account_id == a) access)

unfoldable pub run : List Call → Access → Result Access
run [] access = ok access
run (c ∷ calls) access = run_call c access >>= run calls

-- What a call means for the pair of `o` and `a`, given whether it was granted.
unfoldable pub meaning : Call → ℕ → ℕ → Bool → Bool
meaning (grant _ _ o' a' _) o a before = (o' == o && a' == a) || before
meaning (revoke o' a') o a before = not (o' == o && a' == a) && before
meaning (drop_operator o') o a before = not (o' == o) && before
meaning (drop_account a') o a before = not (a' == a) && before

unfoldable pub granted : List Call → ℕ → ℕ → Bool → Bool
granted [] o a before = before
granted (c ∷ calls) o a before = granted calls o a (meaning c o a before)

-- The unique constraint: one row at most for a pair.
unfoldable pub OnePerPair : Access → Type 0
OnePerPair access = (o a : ℕ) → count_where (is_grant o a) access ≤ 1

count-append :
    (o a : ℕ) (access : Access) (g : OperatorAccountAccess)
    → count_where (is_grant o a) (access ++ g ∷ [])
      ≡ count_where (is_grant o a) access + (if is_grant o a g then 1 else 0)
count-append o a [] g = ground arith
count-append o a (x ∷ access) g = ground (arith, count-append o a access g)

pub count-delete_none :
    (o a : ℕ) (p : OperatorAccountAccess → Bool) (access : Access)
    → ((g : OperatorAccountAccess) → is_grant o a g ≡ true → not (p g) ≡ true)
    → count_where (is_grant o a) (delete_where p access) ≡ count_where (is_grant o a) access
count-delete_none o a p [] h = refl
count-delete_none o a p (x ∷ access) h = ground (arith, count-delete_none o a p access h, h x)

pub count-delete_all :
    (o a : ℕ) (p : OperatorAccountAccess → Bool) (access : Access)
    → ((g : OperatorAccountAccess) → is_grant o a g ≡ true → not (p g) ≡ false)
    → count_where (is_grant o a) (delete_where p access) ≡ 0
count-delete_all o a p [] h = refl
count-delete_all o a p (x ∷ access) h = ground (arith, count-delete_all o a p access h, h x)

-- What a new table grants, pair by pair, with one row at most for each.
abbrev After : Access → (ℕ → ℕ → Bool → Bool) → Access → Type 0
After access' m access =
    (o a : ℕ)
    → (count_where (is_grant o a) access' ≤ 1)
      × (has_grant o a access' ≡ m o a (has_grant o a access))

abbrev Refines : Call → Access → Type 0
Refines c access =
    (access' : Access) × (run_call c access ≡ ok access') × After access' (meaning c) access

-- A row that the table has not.
granting-new :
    (row : OperatorAccountAccess) (access : Access)
    → count_where (is_grant row.operator_id row.xhs_account_id) access ≡ 0
    → OnePerPair access
    → After
        (access ++ row ∷ [])
        (λ o a before. (row.operator_id == o && row.xhs_account_id == a) || before)
        access
unfolding OnePerPair has_grant
granting-new row access fresh one o a = ground (
  arith,
  count-append o a access row,
  one o a,
  fresh_pair (row.operator_id) (row.xhs_account_id) o a access fresh,
)
  where
    fresh_pair :
        (o a o' a' : ℕ) (access : Access)
        → count_where (is_grant o a) access ≡ 0
        → o ≡ o'
        → a ≡ a'
        → count_where (is_grant o' a') access ≡ 0
    fresh_pair o a o' a' access h ho ha = rw (sym ho, sym ha, h)

granting-append :
    (row : OperatorAccountAccess) (access : Access) (o a : ℕ)
    → has_grant o a (access ++ row ∷ [])
      ≡ ((row.operator_id == o && row.xhs_account_id == a) || has_grant o a access)
unfolding has_grant
granting-append row access o a = ground (arith, count-append o a access row)

has_grant-again :
    (o a : ℕ) (row : OperatorAccountAccess) (rest access : Access)
    → select (is_grant o a) access ≡ row ∷ rest
    → (o' a' : ℕ) → has_grant o' a' access ≡ ((o == o' && a == a') || has_grant o' a' access)
unfolding has_grant
has_grant-again o a row rest access there o' a' = ground (arith, again)
  where
    again : o ≡ o' → a ≡ a' → length (select (is_grant o' a') access) ≡ suc (length rest)
    again ho ha = rw (sym ho, sym ha, there)

-- A grant that succeeds adds its pair and nothing else.
pub has_grant-grant_access :
    (id now o a : ℕ) (by_whom : Option ℕ) (access : Access) (r : Access × OperatorAccountAccess)
    → grant_access id now o a by_whom access ≡ ok r
    → (o' a' : ℕ) → has_grant o' a' r.0 ≡ ((o == o' && a == a') || has_grant o' a' access)
unfolding grant_access one_or_none
has_grant-grant_access id now o a by_whom access r h o' a' =
    elim (List-cases (select (is_grant o a) access)) [
      | inl e ↦
          means {q = (access ++ new_grant id now o a by_whom ∷ [], new_grant id now o a by_whom)}
            (rw e) (granting-append (new_grant id now o a by_whom) access o' a')
      | inr (row, [], e) ↦
          means {q = (access, row)} (rw e) (has_grant-again o a row [] access e o' a')
      | inr (row, row' ∷ rest, e) ↦ absurd (failed (rw e))
    ]
  where
    means :
        {q : Access × OperatorAccountAccess}
        → grant_access id now o a by_whom access ≡ ok q
        → has_grant o' a' q.0 ≡ ((o == o' && a == a') || has_grant o' a' access)
        → has_grant o' a' r.0 ≡ ((o == o' && a == a') || has_grant o' a' access)
    means e m =
        subst
          (λ (q : Access × OperatorAccountAccess).
            has_grant o' a' q.0 ≡ ((o == o' && a == a') || has_grant o' a' access))
          (ok_inj (sym e ∙ h)) m

    failed : grant_access id now o a by_whom access ≡ err multiple_results → ⊥
    failed e = cc

-- The pair is granted already.
granting-again :
    (o a : ℕ) (row : OperatorAccountAccess) (rest access : Access)
    → select (is_grant o a) access ≡ row ∷ rest
    → OnePerPair access
    → (rest ≡ []) × After access (λ o' a' before. (o == o' && a == a') || before) access
unfolding OnePerPair has_grant
granting-again o a row (x ∷ rest) access there one = ground (arith, one o a, ap length there)
granting-again o a row [] access there one = (refl, λ o' a'. ground (arith, one o' a', again o' a'))
  where
    again : (o' a' : ℕ) → o ≡ o' → a ≡ a' → length (select (is_grant o' a') access) ≡ 1
    again o' a' ho ha = rw (sym ho, sym ha, there)

grant-Refines :
    (id now o a : ℕ) (by_whom : Option ℕ) (access : Access)
    → OnePerPair access
    → Refines (grant id now o a by_whom) access
unfolding run_call grant_access one_or_none meaning
grant-Refines id now o a by_whom access one = elim (List-cases (select (is_grant o a) access)) [
  | inl none_there ↦
      let row : OperatorAccountAccess = record {
        id = id;
        operator_id = o;
        xhs_account_id = a;
        granted_by = by_whom;
        created_at = now;
      } in
      let new = granting-new row access (ap length none_there) one in
      (access ++ row ∷ [], rw none_there, new)
  | inr (row, rest, there) ↦
      let (alone, after) = granting-again o a row rest access there one in
      (access, rw (there, alone), after)
]

drop-Refines :
    (c : Call) (p : OperatorAccountAccess → Bool) (keep : ℕ → ℕ → Bool) (access : Access)
    → run_call c access ≡ ok (delete_where p access)
    → ((o a : ℕ) (g : OperatorAccountAccess) → is_grant o a g ≡ true → not (p g) ≡ keep o a)
    → ((o a : ℕ) (before : Bool) → meaning c o a before ≡ (keep o a && before))
    → OnePerPair access
    → Refines c access
unfolding OnePerPair has_grant
drop-Refines c p keep access h kept m one = (delete_where p access, h, dropped)
  where
    dropped : After (delete_where p access) (meaning c) access
    dropped o a = elim (Bool-cases (keep o a)) [
      | inl e ↦ ground (
        arith,
        count-delete_none o a p access (λ g i. kept o a g i ∙ e),
        one o a,
        m o a (has_grant o a access),
        e,
      )
      | inr e ↦ ground (
        arith,
        count-delete_all o a p access (λ g i. kept o a g i ∙ e),
        m o a (has_grant o a access),
        e,
      )
    ]

pub call-Refines : (c : Call) (access : Access) → OnePerPair access → Refines c access
unfolding run_call meaning revoke_access delete_operator
call-Refines (grant id now o a by_whom) access one = grant-Refines id now o a by_whom access one
call-Refines (revoke o a) access one =
    drop-Refines (revoke o a) (is_grant o a) (λ o' a'. not (o == o' && a == a')) access refl
      (λ o' a' g h. ground arith) (λ o' a' b. refl) one
call-Refines (drop_operator o) access one =
    drop-Refines (drop_operator o) (λ g. g.operator_id == o) (λ o' a'. not (o == o')) access refl
      (λ o' a' g h. ground arith) (λ o' a' b. refl) one
call-Refines (drop_account a) access one =
    drop-Refines (drop_account a) (λ g. g.xhs_account_id == a) (λ o' a'. not (a == a')) access refl
      (λ o' a' g h. ground arith) (λ o' a' b. refl) one

-- Any sequence of calls on a table with one row at most for each pair ends without an exception, in
-- such a table again, and afterwards an operator has access to an account exactly if the sequence
-- means so: the last grant of the pair came after the last revocation and the last deletion of
-- its operator or its account, or there was no such deletion and the pair was granted before.
pub run-granted :
    (calls : List Call) (access : Access)
    → OnePerPair access
    → (access' : Access) × (run calls access ≡ ok access')
      × OnePerPair access'
      × ((o a : ℕ) → has_grant o a access' ≡ granted calls o a (has_grant o a access))
unfolding run granted OnePerPair
run-granted [] access one = (access, refl, one, λ o a. refl)
run-granted (c ∷ calls) access one =
    let (access1, h1, after) = call-Refines c access one in
    let (access2, h2, one2, m2) = run-granted calls access1 (λ o a. (after o a).0) in
    (access2, rw (h1, h2), one2, λ o a. m2 o a ∙ ap (granted calls o a) (after o a).1)
