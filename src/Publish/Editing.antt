-- ===== src/Publish/Editing.antt =====
-- What the handlers on an existing job guarantee (app/http/publish_rest.py).
use mathlib.Core.List.{reverse, reverse-append}
use nbdpsy_mcp.Prelude.{
  ℕ, ◌≤◌, Bool, true, ◌&&◌, List, [], ◌∷◌, Option, some, ◌≡◌, sym, ◌∙◌, arith, String, length,
  select, All, All-append, All-select, All-take, length-take_le,
}
use mathlib.Core.Path.{subst}
use nbdpsy_mcp.Result.{ok, err, ok_inj, value_error, >>=-eq-ok}
use nbdpsy_mcp.Auth.Guards.{Operator, OperatorAccountAccess, visible_account_ids, sees_account}
use nbdpsy_mcp.Publish.Job.{draft, PublishJob, PublishResult, Settings, is_publishing}
use nbdpsy_mcp.Publish.Store.{Jobs, find_job, finish, settle}
use nbdpsy_mcp.Publish.Outcome.{find-finish}
use nbdpsy_mcp.Publish.Edits.{
  status_name, is_job_status, same_account, same_status, check_status, check_account,
  list_publish_jobs,
}

abbrev pub listed :
    Operator → List OperatorAccountAccess → Option ℕ → Option String → PublishJob → Bool
listed op access account status j =
    sees_account (visible_account_ids op access) j.account_id
    && (same_account account j.account_id && same_status status j.status)

All-reverse : (P : PublishJob → Type 0) (jobs : Jobs) → All P jobs → All P (reverse jobs)
All-reverse P [] h = tt
All-reverse P (j ∷ jobs) h =
    subst (All P) (sym (reverse-append (j ∷ []) jobs))
      (All-append P (reverse jobs) (j ∷ []) (All-reverse P jobs h.1) (h.0, tt))

-- A listing that succeeds holds at most `limit` jobs, and each of them is on an account that the
-- operator sees, is on the account asked for and has the status asked for, where these are given.
pub list_publish_jobs-visible :
    (op : Operator) (access : List OperatorAccountAccess) (account : Option ℕ)
    (status : Option String) (limit : ℕ) (jobs l : Jobs)
    → list_publish_jobs op access account status limit jobs ≡ ok l
    → (length l ≤ limit) × All (λ j. listed op access account status j ≡ true) l
unfolding list_publish_jobs
list_publish_jobs-visible op access account status limit jobs l h =
    let (u, fine, h1) = >>=-eq-ok (check_status status) _ h in
    let (v, allowed, h2) = >>=-eq-ok (check_account op access account) _ h1 in
    let p = listed op access account status in
    let P = λ (j : PublishJob). p j ≡ true in
    subst (λ (m : Jobs). (length m ≤ limit) × All P m) (ok_inj h2)
      (
        length-take_le limit (reverse (select p jobs)),
        All-take P limit (reverse (select p jobs))
            (All-reverse P (select p jobs) (All-select p jobs)),
      )

-- A job whose draft was saved ends in the status `draft`, and no listing can ask for that status:
-- whatever the operator, the account, the limit and the table, it is refused as a bad request.
pub draft-not_listed :
    (cfg : Settings) (now jitter k : ℕ) (r : PublishResult) (jobs : Jobs) (x : PublishJob)
    → find_job k jobs ≡ some x
    → is_publishing x.status ≡ true
    → r.draft_saved ≡ true
    → (y : PublishJob) × (find_job k (finish cfg now jitter k r jobs) ≡ some y)
      × ((op : Operator) (access : List OperatorAccountAccess) (account : Option ℕ) (limit : ℕ)
            (table : Jobs)
          → list_publish_jobs op access account (some (status_name y.status)) limit table
            ≡ err value_error)
unfolding list_publish_jobs is_job_status
draft-not_listed cfg now jitter k r jobs x e busy saved = (
  settle cfg now jitter r x,
  find-finish cfg now jitter k r jobs x e ∙ ground arith,
  λ op access account limit table.
      let is_draft : (settle cfg now jitter r x).status ≡ draft = unfold settle in ground arith in
      rw is_draft,
)
