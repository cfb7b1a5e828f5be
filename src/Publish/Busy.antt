-- ===== src/Publish/Busy.antt =====
-- Which operations of app/publish/scheduler.py and app/http/publish_rest.py leave a job that does
-- not wait as it is, so that no second claim can take it.
use mathlib.Core.Option
use nbdpsy_mcp.Prelude.{
  ℕ, ◌++◌, ◌∷◌, [], Bool, true, false, List, Option, none, some, ◌≡◌, ◌≢◌, refl, sym, ap, ◌∙◌,
  arith, inl, inr, some_inj, Bool-cases, contains,
}
use nbdpsy_mcp.Table.{find-append_old, find-update_where, key-find, update_where, apply_if}
use nbdpsy_mcp.Publish.Job.{PublishJob, PublishResult, Settings, is_pending, is_publishing}
use nbdpsy_mcp.Publish.Store.{
  Jobs, find_job, recover_stale, modify, account_cooldown_gate, settle, finish, finishable,
  defer_or_pass, gate_job, cooldown_left, last_started, is_claimable,
}
use nbdpsy_mcp.Publish.Edits.{cancel, Changes, apply_changes}

-- No row of the job waits.
abbrev pub NotPending : Jobs → ℕ → Type 0
NotPending jobs k = (x : PublishJob) → find_job k jobs ≡ some x → is_pending x.status ≡ false

module _ (p : PublishJob → Bool) (f : PublishJob → PublishJob)
    (same : (x : PublishJob) → (f x).id ≡ x.id) where
  NotPending-update_where :
      (k : ℕ) (jobs : Jobs)
      → ((x : PublishJob)
          → x.id ≡ k
          → is_pending x.status ≡ false
          → is_pending (apply_if p f x).status ≡ false)
      → NotPending jobs k
      → NotPending (update_where p f jobs) k
  NotPending-update_where k jobs still busy y e =
      from (find_job k jobs) refl (sym (find-update_where (λ j. j.id) k p f jobs same) ∙ e)
    where
      from :
          (o : Option PublishJob)
          → find_job k jobs ≡ o
          → Option.map (apply_if p f) o ≡ some y
          → is_pending y.status ≡ false
      from none h q = cc
      from (some x) h q =
          sym (ap (λ r. is_pending r.status) (some_inj q))
          ∙ still x (key-find (λ j. j.id) k jobs x h) (busy x h)

-- A job of the flight set is not taken back to `pending`.
pub NotPending-recover_stale :
    (cfg : Settings) (now : ℕ) (in_flight : List ℕ) (k : ℕ) (jobs : Jobs)
    → contains in_flight k ≡ true
    → NotPending jobs k
    → NotPending (recover_stale cfg now in_flight jobs).0 k
unfolding recover_stale
NotPending-recover_stale cfg now in_flight k jobs flying =
    NotPending-update_where _ _ (λ x. refl) k jobs
      (λ x i h. ground (arith, ap (contains in_flight) i))

pub NotPending-finish :
    (cfg : Settings) (now jitter l k : ℕ) (r : PublishResult) (jobs : Jobs)
    → l ≢ k
    → NotPending jobs k
    → NotPending (finish cfg now jitter l r jobs) k
unfolding finish
NotPending-finish cfg now jitter l k r jobs ne =
    NotPending-update_where _ _ (λ x. ground arith) k jobs (λ x i h. ground arith)

pub NotPending-cancel :
    (l k : ℕ) (jobs : Jobs) → NotPending jobs k → NotPending (modify l cancel jobs) k
NotPending-cancel l k jobs = NotPending-update_where _ _ (λ x. refl) k jobs (λ x i h. ground arith)

pub NotPending-apply_changes :
    (l k : ℕ) (c : Changes) (jobs : Jobs)
    → NotPending jobs k
    → NotPending (update_where (is_claimable l) (apply_changes c) jobs) k
unfolding apply_changes
NotPending-apply_changes l k c jobs =
    NotPending-update_where _ _ (λ x. refl) k jobs (λ x i h. ground arith)

module _ (now interval l k : ℕ) (jobs : Jobs) where
  NotPending-defer_or_pass :
      (left : Option ℕ) → NotPending jobs k → NotPending (defer_or_pass now l jobs left).1 k
  NotPending-defer_or_pass none busy = busy
  NotPending-defer_or_pass (some left) busy =
      NotPending-update_where _ _ (λ x. refl) k jobs (λ x i h. ground arith) busy

  NotPending-gate_job :
      (o : Option PublishJob) → NotPending jobs k → NotPending (gate_job now interval l jobs o).1 k
  NotPending-gate_job none busy = busy
  NotPending-gate_job (some job) busy = elim (Bool-cases (is_pending job.status)) [
    | inl e ↦ rw e (
        NotPending-defer_or_pass (cooldown_left now interval (last_started job.account_id l jobs))
          busy)
    | inr e ↦ rw e busy
  ]

  pub NotPending-gate :
      NotPending jobs k → NotPending (account_cooldown_gate now interval l jobs).1 k
  unfolding account_cooldown_gate
  NotPending-gate = NotPending-gate_job (find_job l jobs)

-- A job that has been finished is not being published.
pub finish-ends :
    (cfg : Settings) (now jitter k : ℕ) (r : PublishResult) (jobs : Jobs) (y : PublishJob)
    → find_job k (finish cfg now jitter k r jobs) ≡ some y
    → is_publishing y.status ≡ false
unfolding finish
finish-ends cfg now jitter k r jobs y e = from (find_job k jobs) refl (
    sym (
      find-update_where (λ j. j.id) k (finishable k) (settle cfg now jitter r) jobs
        (λ x. ground arith))
    ∙ e)
  where
    from :
        (o : Option PublishJob)
        → find_job k jobs ≡ o
        → Option.map (apply_if (finishable k) (settle cfg now jitter r)) o ≡ some y
        → is_publishing y.status ≡ false
    from none h q = cc
    from (some x) h q =
        sym (ap (λ z. is_publishing z.status) (some_inj q))
        ∙ ground (arith, key-find (λ j. j.id) k jobs x h)

pub NotPending-append :
    (jobs : Jobs) (j : PublishJob) (k : ℕ) (x : PublishJob)
    → find_job k jobs ≡ some x
    → NotPending jobs k
    → NotPending (jobs ++ j ∷ []) k
NotPending-append jobs j k x e busy y ey =
    busy y (e ∙ sym (find-append_old (λ r. r.id) k jobs (j ∷ []) x e) ∙ ey)
