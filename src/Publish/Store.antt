-- ===== src/Publish/Store.antt =====
-- The methods of `PublishScheduler` (app/publish/scheduler.py) on the job table. The clock, the
-- random draws and the result of the browser run are arguments.
use nbdpsy_mcp.Prelude.{
  ℕ, ◌+◌, ◌-◌, ◌*◌, Bool, true, false, not, ◌&&◌, List, [], ◌∷◌, map, Option, none, some, ◌==◌,
  if◌then◌else◌, ltb, leb, or_text, contains, select, length, get_or,
}
use nbdpsy_mcp.Table.{find, update_where, count_where}
use nbdpsy_mcp.Publish.Job.{
  pending, publishing, published, failed, draft, PublishJob, PublishResult, Settings, seconds,
  is_pending, is_publishing, is_active,
}

abbrev pub Jobs : Type 0
Jobs = List PublishJob

abbrev pub find_job : ℕ → Jobs → Option PublishJob
find_job = find (λ j. j.id)

-- `column IS NULL OR column <= now`
abbrev pub is_due : ℕ → Option ℕ → Bool
is_due now none = true
is_due now (some t) = leb t now

abbrev pub is_ready : ℕ → PublishJob → Bool
is_ready now j = is_pending j.status && (is_due now j.schedule_time && is_due now j.next_retry_at)

-- The rows stand in the order of their ids, so the selection needs no sort.
unfoldable pub scan_once : ℕ → Jobs → List ℕ
scan_once now jobs = map (λ j. j.id) (select (is_ready now) jobs)

-- `started_at IS NOT NULL AND started_at <= now - timeout`; no moment is before the timeout, so
-- the sum stands for the difference.
abbrev pub is_overdue : Settings → ℕ → Option ℕ → Bool
is_overdue cfg now none = false
is_overdue cfg now (some t) = leb (t + seconds cfg.publish_job_timeout) now

abbrev pub is_stale : Settings → ℕ → List ℕ → PublishJob → Bool
is_stale cfg now in_flight j =
    is_publishing j.status && (is_overdue cfg now j.started_at && not (contains in_flight j.id))

abbrev pub back_to_pending : PublishJob → PublishJob
back_to_pending j = record j { status = pending; started_at = none }

unfoldable pub recover_stale : Settings → ℕ → List ℕ → Jobs → Jobs × ℕ
recover_stale cfg now in_flight jobs =
    let stale = is_stale cfg now in_flight in
    (update_where stale back_to_pending jobs, count_where stale jobs)

-- A job that the cooldown of `account_id` counts, other than `job_id`.
abbrev pub counts_for_cooldown : ℕ → ℕ → PublishJob → Bool
counts_for_cooldown account_id job_id j =
    (j.account_id == account_id) && (is_active j.status && not (j.id == job_id))

abbrev pub later : Option ℕ → Option ℕ → Option ℕ
later none t = t
later s none = s
later (some s) (some t) = if leb s t then some t else some s

-- The latest start among the jobs that count: `ORDER BY started_at DESC LIMIT 1`.
unfoldable pub last_started : ℕ → ℕ → Jobs → Option ℕ
last_started account_id job_id [] = none
last_started account_id job_id (j ∷ jobs) =
    let rest = last_started account_id job_id jobs in
    if counts_for_cooldown account_id job_id j then later j.started_at rest else rest

abbrev pub modify : ℕ → (PublishJob → PublishJob) → Jobs → Jobs
modify k f = update_where (λ j. j.id == k) f

-- What is left of the cooldown: nothing, if the job may go on.
-- `elapsed >= interval` is `last + interval <= now`, and `interval - elapsed` is
-- `last + interval - now`, so no difference falls below 0.
abbrev pub cooldown_left : ℕ → ℕ → Option ℕ → Option ℕ
cooldown_left now interval none = none
cooldown_left now interval (some last) =
    if leb (last + interval) now then none else some (last + interval - now)

abbrev pub defer : ℕ → ℕ → PublishJob → PublishJob
defer now left j = record j { next_retry_at = some (now + left) }

abbrev pub defer_or_pass : ℕ → ℕ → Jobs → Option ℕ → Bool × Jobs
defer_or_pass now job_id jobs none = (true, jobs)
defer_or_pass now job_id jobs (some left) = (false, modify job_id (defer now left) jobs)

abbrev pub gate_job : ℕ → ℕ → ℕ → Jobs → Option PublishJob → Bool × Jobs
gate_job now interval job_id jobs none = (true, jobs)
gate_job now interval job_id jobs (some job) =
    if not (is_pending job.status)
    then (true, jobs)
    else defer_or_pass now job_id jobs
        (cooldown_left now interval (last_started job.account_id job_id jobs))

-- `interval` is the draw of `random.uniform`, in microseconds.
unfoldable pub account_cooldown_gate : ℕ → ℕ → ℕ → Jobs → Bool × Jobs
account_cooldown_gate now interval job_id jobs =
    gate_job now interval job_id jobs (find_job job_id jobs)

abbrev pub is_claimable : ℕ → PublishJob → Bool
is_claimable job_id j = (j.id == job_id) && is_pending j.status

abbrev pub claim : ℕ → PublishJob → PublishJob
claim now j = record j { status = publishing; started_at = some now }

unfoldable pub mark_publishing : ℕ → ℕ → Jobs → Bool × Jobs
mark_publishing now job_id jobs = (
  count_where (is_claimable job_id) jobs == 1,
  update_where (is_claimable job_id) (claim now) jobs,
)

-- The retry branch of `finish`. `jitter` is the draw of `random.uniform(0.8, 1.5)` in millionths.
unfoldable pub retry_or_fail : Settings → ℕ → ℕ → PublishResult → PublishJob → PublishJob
retry_or_fail cfg now jitter r j =
    if ltb j.retries (length cfg.retry_delays)
    then record j {
      next_retry_at = some (now + get_or cfg.retry_delays j.retries 0 * jitter);
      retries = j.retries + 1;
      status = pending;
      started_at = none;
      error = r.error;
    }
    else record j { status = failed; started_at = none; error = r.error }

-- What `finish` writes to a job that is still `publishing`.
unfoldable pub settle : Settings → ℕ → ℕ → PublishResult → PublishJob → PublishJob
unfolding retry_or_fail
settle cfg now jitter r j =
    if r.draft_saved
    then record j {
      status = draft;
      note_id = some "";
      note_url = some "";
      error = some (or_text (some r.message) "已存草稿,请到小红书草稿箱手动发布");
    }
    else if r.success
    then record j {
      status = published;
      note_id = some r.note_id;
      note_url = some r.note_url;
      error = none;
    }
    else if r.need_manual_login
    then record j {
      status = failed;
      started_at = none;
      error = some (or_text r.error "需要人工登录/重新扫码");
    }
    else if r.account_restricted
    then record j {
      status = failed;
      started_at = none;
      error = some (or_text r.error "账号被小红书限制发布(违规/处罚态)");
    }
    else retry_or_fail cfg now jitter r j

abbrev pub finishable : ℕ → PublishJob → Bool
finishable job_id j = (j.id == job_id) && is_publishing j.status

unfoldable pub finish : Settings → ℕ → ℕ → ℕ → PublishResult → Jobs → Jobs
unfolding settle
finish cfg now jitter job_id r jobs =
    update_where (finishable job_id) (settle cfg now jitter r) jobs
