-- ===== src/Publish/Races.antt =====
-- The handlers `cancel` and `patch` of app/http/publish_rest.py against the claim of the scheduler,
-- which may come between their read and their write.
use mathlib.Core.Option
use nbdpsy_mcp.Prelude.{
  ℕ, true, List, [], some, ◌≡◌, inl, inr, refl, ap, ◌∙◌, arith, Bool-cases, ◌==◌,
}
use mathlib.Core.Path.{subst}
use nbdpsy_mcp.Result.{ok, ok_inj, >>=-eq-ok, ◌>>=◌}
use nbdpsy_mcp.Table.{find-update_where, key-find, apply_if, count_where, update_where}
use nbdpsy_mcp.Auth.Guards.{Operator, OperatorAccountAccess, assert_account_access}
use nbdpsy_mcp.Publish.Job.{pending, canceled, PublishJob, PublishResult, Settings, is_pending}
use nbdpsy_mcp.Publish.Store.{Jobs, find_job, modify, mark_publishing, is_claimable, claim, finish}
use nbdpsy_mcp.Publish.Spacing.{claim-own}
use nbdpsy_mcp.Publish.Outcome.{find-finish}
use nbdpsy_mcp.Publish.Endpoints.{IsoParser}
use nbdpsy_mcp.Publish.Edits.{
  get_or_404, done, Edited, refuse, cancel, cancel_publish_job, PublishJobPatchRequest, Changes,
  read_changes, is_empty, apply_changes, commit_patch, patch_publish_job,
}

find-cancel :
    (k : ℕ) (jobs : Jobs) (x : PublishJob)
    → find_job k jobs ≡ some x
    → find_job k (modify k cancel jobs) ≡ some (cancel x)
find-cancel k jobs x e =
    find-update_where (λ j. j.id) k (λ j. j.id == k) cancel jobs (λ j. refl)
    ∙ ground (arith, e, key-find (λ j. j.id) k jobs x e)

module _ (cfg : Settings) (op : Operator) (access : List OperatorAccountAccess) (k : ℕ)
    (jobs : Jobs) (x : PublishJob) (found : find_job k jobs ≡ some x) (waits : x.status ≡ pending)
    (allowed : assert_account_access op x.account_id access ≡ ok tt) where
  -- If a runner claims a waiting job between the read and the write of its cancellation by an
  -- operator with access, the handler answers that the job is canceled, and whatever the run then
  -- returns, also a published note, the end of the run leaves the job canceled with the note id,
  -- the link and the error that it had.
  pub cancel-overwrites_claim :
      (moment ended jitter : ℕ) (r : PublishResult)
      → (e : Edited) × (y : PublishJob) × (cancel_publish_job op access k jobs
            (mark_publishing moment k jobs).1
          ≡ ok e)
        × (e.answer ≡ done)
        × (find_job k (finish cfg ended jitter k r e.jobs) ≡ some y)
        × (y.status ≡ canceled)
        × (y.note_id ≡ x.note_id)
        × (y.note_url ≡ x.note_url)
        × (y.error ≡ x.error)
  unfolding cancel_publish_job
  cancel-overwrites_claim moment ended jitter r = (
    record {
      answer = done;
      jobs = modify k cancel (mark_publishing moment k jobs).1;
      submitted = [];
    },
    cancel (claim moment x),
    rw (found, ◌>>=◌, allowed, waits),
    refl,
    find-finish cfg ended jitter k r (modify k cancel (mark_publishing moment k jobs).1)
        (cancel (claim moment x))
        (find-cancel k (mark_publishing moment k jobs).1 (claim moment x)
          (claim-own moment k jobs x found (ap is_pending waits))),
    refl,
    refl,
    refl,
    refl,
  )

-- What a patch may do to a row: nothing, or the requested changes to its own row while that waits.
pub data Patched (k : ℕ) (x y : PublishJob) : Type 0 where
  same : y ≡ x → Patched k x y
  changed :
      (c : Changes) → x.id ≡ k → is_pending x.status ≡ true → y ≡ apply_changes c x → Patched k x y

commit_patch-Patched :
    (k l : ℕ) (c : Changes) (jobs : Jobs) (x : PublishJob)
    → find_job l jobs ≡ some x
    → (y : PublishJob) × (find_job l (commit_patch k c jobs).jobs ≡ some y) × Patched k x y
unfolding commit_patch
commit_patch-Patched k l c jobs x e = elim (Bool-cases (count_where (is_claimable k) jobs == 0)) [
  | inl gone ↦ rw gone (x, e, same refl)
  | inr there ↦ rw there (apply_if (is_claimable k) (apply_changes c) x, row, own)
]
  where
    row :
        find_job l (update_where (is_claimable k) (apply_changes c) jobs)
        ≡ some (apply_if (is_claimable k) (apply_changes c) x)
    row =
        find-update_where (λ j. j.id) l (is_claimable k) (apply_changes c) jobs
          (λ j. unfold apply_changes in refl)
        ∙ ap (Option.map (apply_if (is_claimable k) (apply_changes c))) e

    own : Patched k x (apply_if (is_claimable k) (apply_changes c) x)
    own = elim (Bool-cases (is_claimable k x)) [
      | inl yes_claimable ↦ changed c (ground arith) (ground arith) (rw yes_claimable)
      | inr not_claimable ↦ same (rw not_claimable)
    ]

-- Whatever the table was when a patch was read, a patch that succeeds leaves each row of the table
-- at its write as it is, but for its own row, and that only if it still waits: there it writes the title, the
-- content, the images, the topics and the schedule alone.
pub patch-Patched :
    (parser : IsoParser) (op : Operator) (access : List OperatorAccountAccess) (k : ℕ)
    (payload : PublishJobPatchRequest) (jobs jobs' : Jobs) (e : Edited) (l : ℕ) (x : PublishJob)
    → patch_publish_job parser op access k payload jobs jobs' ≡ ok e
    → find_job l jobs' ≡ some x
    → (y : PublishJob) × (find_job l e.jobs ≡ some y) × Patched k x y
unfolding patch_publish_job
patch-Patched parser op access k payload jobs jobs' e l x h found =
    let (job, h0, h1) = >>=-eq-ok (get_or_404 (find_job k jobs)) _ h in
    let (u, h2, h3) = >>=-eq-ok (assert_account_access op job.account_id access) _ h1 in
    elim (Bool-cases (is_pending job.status)) [
      | inr over ↦
          let q : refuse job.status jobs' ≡ e = ok_inj (rw over at h3) in
          subst (λ (d : Edited). (y : PublishJob) × (find_job l d.jobs ≡ some y) × Patched k x y) q
            (x, found, same refl)
      | inl open_job ↦
          let (c, h4, h5) = >>=-eq-ok (read_changes parser payload) _ (rw open_job at h3) in
          subst (λ (d : Edited). (y : PublishJob) × (find_job l d.jobs ≡ some y) × Patched k x y)
            (ok_inj h5)
            (elim (Bool-cases (is_empty c)) [
              | inl none_asked ↦ rw none_asked (x, found, same refl)
              | inr asked ↦ rw asked (commit_patch-Patched k l c jobs' x found)
            ])
    ]
