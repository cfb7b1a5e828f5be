-- ===== src/Publish/Outcome.antt =====
-- What a run of the browser leaves of a job: `finish` of app/publish/scheduler.py.
use nbdpsy_mcp.Prelude.{
  ℕ, zero, suc, ◌+◌, ◌*◌, ◌≤◌, ◌<◌, true, false, none, some, ◌≡◌, ◌≢◌, ◌⊎◌, ap, ◌∙◌, arith, length,
  get_or, ◌==◌, ◌&&◌, List, [], ◌∷◌, if◌then◌else◌,
}
use nbdpsy_mcp.Table.{find-update_where, key-find}
use nbdpsy_mcp.Publish.Job.{
  pending, failed, published, draft, PublishJob, PublishResult, Settings, is_pending, is_publishing,
}
use nbdpsy_mcp.Publish.Store.{Jobs, find_job, finish, finishable, settle, mark_publishing, claim}
use nbdpsy_mcp.Publish.Spacing.{claim-own}

-- What `finish` for the job `k` makes of the row of any job `q`, and of its own.
find_any-finish :
    (cfg : Settings) (now jitter k q : ℕ) (r : PublishResult) (jobs : Jobs) (x : PublishJob)
    → find_job q jobs ≡ some x
    → find_job q (finish cfg now jitter k r jobs)
      ≡ some (if (q == k) && is_publishing x.status then settle cfg now jitter r x else x)
unfolding finish
find_any-finish cfg now jitter k q r jobs x e =
    find-update_where (λ j. j.id) q (finishable k) (settle cfg now jitter r) jobs
      (λ j. ground arith)
    ∙ ground (arith, e, key-find (λ j. j.id) q jobs x e)

pub find-finish :
    (cfg : Settings) (now jitter k : ℕ) (r : PublishResult) (jobs : Jobs) (x : PublishJob)
    → find_job k jobs ≡ some x
    → find_job k (finish cfg now jitter k r jobs)
      ≡ some (if is_publishing x.status then settle cfg now jitter r x else x)
find-finish cfg now jitter k r jobs x e =
    find_any-finish cfg now jitter k k r jobs x e ∙ ground arith

-- A plain failure: nothing but an error comes back from the run.
abbrev pub IsPlainFailure : PublishResult → Type 0
IsPlainFailure r =
    (r.draft_saved ≡ false)
    × (r.success ≡ false)
    × (r.need_manual_login ≡ false)
    × (r.account_restricted ≡ false)

-- A retry goes back to the queue with one more retry counted, a delay of its own, and no start.
pub record IsRetry (cfg : Settings) (now jitter : ℕ) (x y : PublishJob) : Type 0 where
  pub status : y.status ≡ pending
  pub counted : y.retries ≡ x.retries + 1
  pub room : x.retries < length cfg.retry_delays
  pub next : y.next_retry_at ≡ some (now + get_or cfg.retry_delays x.retries 0 * jitter)
  pub stopped : y.started_at ≡ none

-- A saved draft.
abbrev pub IsDrafted : PublishResult → PublishJob → PublishJob → Type 0
IsDrafted r x y = (r.draft_saved ≡ true) × (y.status ≡ draft) × (y.retries ≡ x.retries)

-- A published note, with what the run says of it.
pub record IsPublished (r : PublishResult) (x y : PublishJob) : Type 0 where
  pub no_draft : r.draft_saved ≡ false
  pub success : r.success ≡ true
  pub status : y.status ≡ published
  pub note_id : y.note_id ≡ some r.note_id
  pub note_url : y.note_url ≡ some r.note_url
  pub error : y.error ≡ none
  pub retries : y.retries ≡ x.retries

-- A failure for good: a login by hand is needed, the account is restricted, or no retry is left.
pub record IsFailed (cfg : Settings) (r : PublishResult) (x y : PublishJob) : Type 0 where
  pub no_draft : r.draft_saved ≡ false
  pub no_success : r.success ≡ false
  pub cause :
      (r.need_manual_login ≡ true)
      ⊎ ((r.account_restricted ≡ true) ⊎ (length cfg.retry_delays ≤ x.retries))
  pub status : y.status ≡ failed
  pub note_id : y.note_id ≡ x.note_id
  pub retries : y.retries ≡ x.retries

-- What becomes of a job that is being published.
abbrev pub Settled : Settings → ℕ → ℕ → PublishResult → PublishJob → PublishJob → Type 0
Settled cfg now jitter r x y =
    IsDrafted r x y
    ⊎ (IsPublished r x y ⊎ (IsFailed cfg r x y ⊎ (IsPlainFailure r × IsRetry cfg now jitter x y)))

settle-Settled :
    (cfg : Settings) (now jitter : ℕ) (r : PublishResult) (x : PublishJob)
    → Settled cfg now jitter r x (settle cfg now jitter r x)
unfolding settle
settle-Settled cfg now jitter r x = ground arith

-- For every result of the run of a job and every row: the row of another job, or one that is not
-- being published, is left as it is. A row of the job that is being published becomes a draft if the
-- draft was saved; published, with the id and the address of the note and without an error, if the
-- run succeeded; failed with its retries as they were if the run did not succeed and a login by hand
-- is needed, the account is restricted, or no retry is left; and else it goes back to the queue with
-- one more retry counted.
pub finish_outcome :
    (cfg : Settings) (now jitter k q : ℕ) (r : PublishResult) (jobs : Jobs) (x : PublishJob)
    → find_job q jobs ≡ some x
    → (y : PublishJob) × (find_job q (finish cfg now jitter k r jobs) ≡ some y)
      × ((((q ≢ k) ⊎ (is_publishing x.status ≡ false)) × (y ≡ x))
          ⊎ ((q ≡ k) × (is_publishing x.status ≡ true) × Settled cfg now jitter r x y))
finish_outcome cfg now jitter k q r jobs x e = (
  if (q == k) && is_publishing x.status then settle cfg now jitter r x else x,
  find_any-finish cfg now jitter k q r jobs x e,
  ground (arith, settle-Settled cfg now jitter r x),
)

-- One attempt: the claim at a moment, and the end of the run at a later one with its result.
pub record Attempt : Type 0 where
  pub claimed_at : ℕ
  pub ended_at : ℕ
  pub jitter : ℕ
  pub result : PublishResult

unfoldable pub attempt : Settings → ℕ → Attempt → Jobs → Jobs
attempt cfg k t jobs =
    finish cfg t.ended_at t.jitter k t.result (mark_publishing t.claimed_at k jobs).1

unfoldable pub attempts : Settings → ℕ → List Attempt → Jobs → Jobs
attempts cfg k [] jobs = jobs
attempts cfg k (t ∷ ts) jobs = attempts cfg k ts (attempt cfg k t jobs)

abbrev pub AllFail : List Attempt → Type 0
AllFail [] = Unit
AllFail (t ∷ ts) = IsPlainFailure t.result × AllFail ts

-- Where `left` retries are left, one failed attempt leaves one less, or ends the job.
abbrev pub HasLeft : Settings → ℕ → Jobs → ℕ → Type 0
HasLeft cfg k jobs left =
    (x : PublishJob) × (find_job k jobs ≡ some x)
    × (x.status ≡ pending)
    × (x.retries + left ≡ length cfg.retry_delays)

attempted :
    (cfg : Settings) (k : ℕ) (t : Attempt) (jobs : Jobs) (x : PublishJob)
    → find_job k jobs ≡ some x
    → x.status ≡ pending
    → find_job k (attempt cfg k t jobs)
      ≡ some (settle cfg t.ended_at t.jitter t.result (claim t.claimed_at x))
unfolding attempt
attempted cfg k t jobs x e p =
    find-finish cfg t.ended_at t.jitter k t.result (mark_publishing t.claimed_at k jobs).1
      (claim t.claimed_at x) (claim-own t.claimed_at k jobs x e (ap is_pending p))

attempt-HasLeft :
    (cfg : Settings) (k left : ℕ) (t : Attempt) (jobs : Jobs)
    → IsPlainFailure t.result
    → HasLeft cfg k jobs (suc left)
    → HasLeft cfg k (attempt cfg k t jobs) left
attempt-HasLeft cfg k left t jobs fails (x, e, p, c) = (
  settle cfg t.ended_at t.jitter t.result (claim t.claimed_at x),
  attempted cfg k t jobs x e p,
  unfold settle in ground arith,
  unfold settle in ground arith,
)

attempt-last :
    (cfg : Settings) (k : ℕ) (t : Attempt) (jobs : Jobs)
    → IsPlainFailure t.result
    → HasLeft cfg k jobs 0
    → (y : PublishJob) × (find_job k (attempt cfg k t jobs) ≡ some y) × (y.status ≡ failed)
attempt-last cfg k t jobs fails (x, e, p, c) = (
  settle cfg t.ended_at t.jitter t.result (claim t.claimed_at x),
  attempted cfg k t jobs x e p,
  unfold settle in ground arith,
)

-- A waiting job with `left` retries left is failed by the plain failure of `left + 1` attempts, and
-- not before: after fewer it waits again. (No other step touches the job in between.)
pub attempts_exhaust :
    (cfg : Settings) (k left : ℕ) (ts : List Attempt) (jobs : Jobs)
    → HasLeft cfg k jobs left
    → AllFail ts
    → ((length ts ≡ left + 1)
        → (y : PublishJob) × (find_job k (attempts cfg k ts jobs) ≡ some y) × (y.status ≡ failed))
      × ((length ts ≤ left)
          → (y : PublishJob) × (find_job k (attempts cfg k ts jobs) ≡ some y)
            × (y.status ≡ pending))
unfolding attempts
attempts_exhaust cfg k left [] jobs h fails = (λ q. absurd (omega arith), λ q. (h.0, h.1, h.2))
attempts_exhaust cfg k zero (t ∷ []) jobs h fails =
    (λ q. attempt-last cfg k t jobs fails.0 h, λ q. absurd (omega arith))
attempts_exhaust cfg k zero (t ∷ u ∷ ts) jobs h fails =
    (λ q. absurd (omega arith), λ q. absurd (omega arith))
attempts_exhaust cfg k (suc left) (t ∷ ts) jobs h fails =
    let rest =
      attempts_exhaust cfg k left ts (attempt cfg k t jobs)
        (attempt-HasLeft cfg k left t jobs fails.0 h) fails.1 in
    (λ q. rest.0 (omega arith), λ q. rest.1 (omega arith))
