-- ===== src/Video/Store.antt =====
-- The methods of VideoScheduler (app/video/scheduler.py) and the functions of the job store on the
-- table of video jobs.
use nbdpsy_mcp.Prelude.{
  ℕ, ◌+◌, Bool, false, not, ◌&&◌, List, [], ◌∷◌, map, Option, none, some, String, ◌==◌,
  if◌then◌else◌, ltb, leb, contains, select,
}
use nbdpsy_mcp.Table.{find, update_where, count_where}
use nbdpsy_mcp.Video.Job.{
  queued, running, download, Stage, stage_done, VideoJob, is_queued, is_running, is_over,
}
use nbdpsy_mcp.Video.Stages.{update_stage, fail_job}

abbrev pub Jobs : Type 0
Jobs = List VideoJob

abbrev pub find_job : ℕ → Jobs → Option VideoJob
find_job = find (λ j. j.id)

abbrev pub has_id : ℕ → VideoJob → Bool
has_id id j = j.id == id

abbrev pub modify : ℕ → (VideoJob → VideoJob) → Jobs → Jobs
modify id f jobs = update_where (has_id id) f jobs

unfoldable pub create_job : ℕ → String → String → Option ℕ → String → VideoJob
create_job id url options user_id mode = record {
  id = id;
  url = url;
  video_id = none;
  title = none;
  duration_seconds = none;
  mode = mode;
  parent_job_id = none;
  status = queued;
  stage = download;
  stages = [];
  options = options;
  products = "{}";
  term_sheet = "[]";
  error = none;
  retry_count = 0;
  heartbeat_at = none;
  created_by = user_id;
}

-- `options` are the parent's with the block of the revision.
unfoldable pub create_revision_job : ℕ → VideoJob → String → VideoJob
create_revision_job id parent options =
    record (create_job id parent.url options parent.created_by "remake") {
      video_id = parent.video_id;
      title = parent.title;
      duration_seconds = parent.duration_seconds;
      parent_job_id = some parent.id;
      term_sheet = parent.term_sheet;
      status = running;
    }

-- `stats` is the JSON that names the parent.
unfoldable pub mark_stages_inherited : ℕ → List Stage → String → VideoJob → VideoJob
mark_stages_inherited now [] stats job = job
mark_stages_inherited now (s ∷ stages) stats job =
    mark_stages_inherited now stages stats (update_stage now s stage_done none (some stats) job)

abbrev pub back_to_queued : ℕ → VideoJob → VideoJob
back_to_queued now j = record j { status = queued; heartbeat_at = some now }

unfoldable pub reset_to_queued : ℕ → ℕ → Jobs → Jobs
reset_to_queued now id jobs = modify id (back_to_queued now) jobs

unfoldable pub scan_queued : Jobs → List ℕ
scan_queued jobs = map (λ j. j.id) (select (λ j. is_queued j.status) jobs)

abbrev pub is_claimable : ℕ → VideoJob → Bool
is_claimable id j = (j.id == id) && is_queued j.status

abbrev pub claim : ℕ → VideoJob → VideoJob
claim now j = record j { status = running; heartbeat_at = some now }

unfoldable pub mark_running : ℕ → ℕ → Jobs → Jobs × Bool
mark_running now id jobs =
    (update_where (is_claimable id) (claim now) jobs, count_where (is_claimable id) jobs == 1)

-- `heartbeat_at < now - timeout`, which NULL never is; the sum stands for the difference.
abbrev pub is_silent : ℕ → ℕ → Option ℕ → Bool
is_silent timeout now none = false
is_silent timeout now (some t) = ltb (t + timeout) now

abbrev pub max_retries : ℕ
max_retries = 2

-- A stale job that no worker of this process runs.
abbrev pub is_stale : ℕ → ℕ → List ℕ → VideoJob → Bool
is_stale timeout now in_flight j =
    (is_running j.status && is_silent timeout now j.heartbeat_at) && not (contains in_flight j.id)

abbrev pub recover : ℕ → VideoJob → VideoJob
recover now j =
    if leb max_retries j.retry_count
    then fail_job "恢复扫描：超过最大重试次数" j
    else record j { retry_count = j.retry_count + 1; status = queued; heartbeat_at = some now }

unfoldable pub recover_stale : ℕ → ℕ → List ℕ → Jobs → Jobs × ℕ
recover_stale timeout now in_flight jobs =
    let stale = is_stale timeout now in_flight in
    (
      update_where stale (recover now) jobs,
      count_where (λ j. stale j && not (leb max_retries j.retry_count)) jobs,
    )

-- `enqueue`: the table and the ids that it submits.
unfoldable pub enqueue : ℕ → ℕ → Jobs → Jobs × List ℕ
enqueue now id jobs = elim (find_job id jobs) [
  | none ↦ (jobs, [])
  | some job ↦ if is_over job.status then (jobs, []) else (reset_to_queued now id jobs, id ∷ [])
]
