-- ===== src/Video/Endpoints.antt =====
-- app/http/video_rest.py: the handlers on the jobs of videos. The state is the table of jobs and which
-- jobs have a directory of products. A new id, the clock, the options as JSON, the parent's products,
-- what the model made of the instructions, and whether files and the database fail are arguments.
use nbdpsy_mcp.Prelude.{
  ℕ, Bool, true, false, not, ◌&&◌, ◌||◌, List, [], ◌∷◌, ◌++◌, Option, none, some, String, ◌==◌,
  str_eq, if◌then◌else◌, leb, select, take, drop, update, ℤ, pos, negsuc, is_none,
}
use nbdpsy_mcp.Result.{
  Result, ok, err, not_found, access_denied, value_error, conflict, os_error, guard, ◌>>◌, ◌>>=◌,
}
use nbdpsy_mcp.Table.{delete_where}
use nbdpsy_mcp.Auth.Guards.{Operator, is_admin}
use nbdpsy_mcp.Video.Job.{
  Status, queued, running, completed, failed, Stage, stage_done, VideoJob, is_running, is_over,
}
use nbdpsy_mcp.Video.Stages.{update_stage, fail_job, first_incomplete_stage}
use nbdpsy_mcp.Video.Store.{
  Jobs, find_job, has_id, modify, create_job, create_revision_job, mark_stages_inherited,
  reset_to_queued,
}
use nbdpsy_mcp.Video.Revision.{inherited}

pub record State : Type 0 where
  pub jobs : Jobs
  pub dirs : ℕ → Bool

abbrev pub is_owner : Operator → Option ℕ → Bool
is_owner op none = false
is_owner op (some id) = id == op.id

abbrev pub can_access : VideoJob → Operator → Bool
can_access job op = is_admin op || is_owner op job.created_by

-- The start of every handler on one job: 404, then 403.
abbrev pub accessible : Operator → Option VideoJob → Result VideoJob
accessible op none = err not_found
accessible op (some job) = if can_access job op then ok job else err access_denied

-- The request passed the validation of its body, a link to a video of YouTube among it.
unfoldable pub create_video_job : Operator → ℕ → String → String → String → State → State × ℕ
create_video_job op id url options mode s =
    (record s { jobs = s.jobs ++ create_job id url options (some op.id) mode ∷ [] }, id)

abbrev pub status_text : Status → String
status_text queued = "queued"
status_text running = "running"
status_text completed = "completed"
status_text failed = "failed"

abbrev pub is_asked : Option String → VideoJob → Bool
is_asked none job = true
is_asked (some status) job = str_eq status "" || str_eq (status_text job.status) status

abbrev pub is_listed : Operator → Option String → VideoJob → Bool
is_listed op status job = (is_admin op || is_owner op job.created_by) && is_asked status job

abbrev pub newest_first : Jobs → Jobs
newest_first [] = []
newest_first (job ∷ jobs) = newest_first jobs ++ job ∷ []

-- `min(limit, 100)`
abbrev pub capped : ℤ → ℤ
capped (pos n) = if leb n 100 then pos n else pos 100
capped (negsuc n) = negsuc n

-- SQLite: a negative LIMIT is no limit, a negative OFFSET is none.
abbrev pub sql_limit : ℤ → Jobs → Jobs
sql_limit (pos n) jobs = take n jobs
sql_limit (negsuc n) jobs = jobs

abbrev pub sql_offset : ℤ → Jobs → Jobs
sql_offset (pos n) jobs = drop n jobs
sql_offset (negsuc n) jobs = jobs

unfoldable pub list_video_jobs : Operator → ℤ → ℤ → Option String → State → Jobs
list_video_jobs op limit offset status s =
    sql_limit (capped limit)
      (sql_offset offset (newest_first (select (is_listed op status) s.jobs)))

unfoldable pub get_video_job : Operator → ℕ → State → Result VideoJob
get_video_job op id s = accessible op (find_job id s.jobs)

abbrev pub clear_error : VideoJob → VideoJob
clear_error job = record job { error = none }

unfoldable pub retry_video_job : Operator → ℕ → ℕ → State → Result (State × Stage)
retry_video_job op now id s = do
  job ← accessible op (find_job id s.jobs)
  guard (is_over job.status) conflict
  ok (
    record s { jobs = reset_to_queued now id (modify id clear_error s.jobs) },
    first_incomplete_stage job,
  )

-- Running with a heartbeat: a worker has it.
abbrev pub is_claimed : VideoJob → Bool
is_claimed job = is_running job.status && not (is_none job.heartbeat_at)

unfoldable pub delete_video_job : Operator → ℕ → State → Result State
delete_video_job op id s = do
  job ← accessible op (find_job id s.jobs)
  guard (not (is_claimed job)) conflict
  ok (record { jobs = delete_where (has_id id) s.jobs; dirs = update s.dirs id false })

-- What a revision finds outside of the table: whether the parent has its products, the plan that was
-- made of the instructions or its refusal, whether copying the products, and the reset in the end,
-- get through. Other exceptions before the child is created, which write nothing, are left out.
pub record Outside : Type 0 where
  pub has_products : Bool
  pub plan : Option String
  pub copies : Bool
  pub resets : Bool

-- _enrich_inherited_stats: the stats of each inherited stage, made from the parent's.
unfoldable pub enrich_inherited_stats : ℕ → List Stage → (Stage → String) → VideoJob → VideoJob
enrich_inherited_stats now [] stats job = job
enrich_inherited_stats now (s ∷ stages) stats job =
    enrich_inherited_stats now stages stats
      (update_stage now s stage_done none (some (stats s)) job)

abbrev pub inherit_stages : ℕ → String → (Stage → String) → VideoJob → VideoJob
inherit_stages now named stats job =
    enrich_inherited_stats now inherited stats (mark_stages_inherited now inherited named job)

abbrev pub is_completed : Status → Bool
is_completed completed = true
is_completed _ = false

abbrev pub reset_reason : String
reset_reason = "入队失败"

-- From the creation of the child on: what is written stays written where the handler fails. Left out
-- are a reset that fails between its two commits (the child is queued for a moment, until fail_job
-- writes its failure), and a fail_job that fails as well (the child is left running, or queued).
abbrev pub derive :
    ℕ → ℕ → VideoJob → String → String → (Stage → String) → Bool → Bool → State → State × Result ℕ
derive now child parent options named stats copies resets s =
    let created = s.jobs ++ create_revision_job child parent options ∷ [] in
    let marked = modify child (inherit_stages now named stats) created in
    let dirs = update s.dirs child true in
    if not copies
    then (record { jobs = created; dirs = dirs }, err os_error)
    else if not resets
    then (record { jobs = modify child (fail_job reset_reason) marked; dirs = dirs }, err os_error)
    else (record { jobs = reset_to_queued now child marked; dirs = dirs }, ok child)

-- The search for the parent's products makes its directory.
abbrev pub open_products : VideoJob → State → State
open_products job s = record s { dirs = update s.dirs job.id true }

abbrev pub on_plan :
    ℕ
    → ℕ
    → (String → String)
    → String
    → (Stage → String)
    → Outside
    → VideoJob
    → State
    → Option String
    → State × Result ℕ
on_plan now child options_of named stats out job s none = (s, err value_error)
on_plan now child options_of named stats out job s (some plan) =
    derive now child job (options_of plan) named stats out.copies out.resets s

abbrev pub revise_from :
    ℕ
    → ℕ
    → (String → String)
    → String
    → (Stage → String)
    → Outside
    → VideoJob
    → State
    → State × Result ℕ
revise_from now child options_of named stats out job s =
    if not (str_eq job.mode "remake")
    then (s, err value_error)
    else if not (is_completed job.status)
    then (s, err conflict)
    else if not out.has_products
    then (open_products job s, err conflict)
    else on_plan now child options_of named stats out job (open_products job s) out.plan

abbrev pub on_access :
    ℕ
    → ℕ
    → (String → String)
    → String
    → (Stage → String)
    → Outside
    → State
    → Result VideoJob
    → State × Result ℕ
on_access now child options_of named stats out s (err raised) = (s, err raised)
on_access now child options_of named stats out s (ok job) =
    revise_from now child options_of named stats out job s

unfoldable pub revise_video_job :
    Operator
    → ℕ
    → ℕ
    → ℕ
    → (String → String)
    → String
    → (Stage → String)
    → Outside
    → State
    → State × Result ℕ
revise_video_job op now id child options_of named stats out s =
    on_access now child options_of named stats out s (accessible op (find_job id s.jobs))
