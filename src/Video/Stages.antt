-- ===== src/Video/Stages.antt =====
-- The stages of one job (app/video/scheduler.py): where a run starts, what each stage writes, and
-- the loop over the stages. A handler is what it returns for a job; the clock is an argument.
use nbdpsy_mcp.Prelude.{
  ℕ, zero, suc, Bool, true, false, ◌&&◌, List, [], ◌∷◌, Option, none, some, String, if◌then◌else◌,
  is_none, truncate,
}
use nbdpsy_mcp.Result.{Result, ok, err, value_error}
use nbdpsy_mcp.Video.Job.{
  running, completed, failed, Stage, deliver, same_stage, StageStatus, stage_running, stage_done,
  stage_error, Entry, Stages, VideoJob, is_queued, is_over, stage_order,
}

abbrev pub no_entry : Entry
no_entry = record {
  status = none;
  started_at = none;
  finished_at = none;
  error = none;
  stats = none;
}

-- `stages.get(stage) or {}`
unfoldable pub get_entry : Stage → Stages → Entry
get_entry s [] = no_entry
get_entry s ((t, e) ∷ stages) = if same_stage t s then e else get_entry s stages

unfoldable pub set_entry : Stage → Entry → Stages → Stages
set_entry s new [] = (s, new) ∷ []
set_entry s new ((t, e) ∷ stages) =
    let rest = set_entry s new stages in if same_stage t s then (t, new) ∷ stages else (t, e) ∷ rest

abbrev pub is_done : Option StageStatus → Bool
is_done (some stage_done) = true
is_done _ = false

abbrev pub stage_is_done : Stages → Stage → Bool
stage_is_done stages s = is_done (get_entry s stages).status

-- The first stage of the order that is not done, or the last one.
unfoldable pub first_undone : Stages → List Stage → Stage → Stage
first_undone stages [] last = last
first_undone stages (s ∷ order) last =
    if stage_is_done stages s then first_undone stages order last else s

unfoldable pub first_incomplete_stage : VideoJob → Stage
first_incomplete_stage job = first_undone job.stages (stage_order job) deliver

abbrev pub head : List Stage → Option Stage
head [] = none
head (s ∷ order) = some s

-- `order.index` raises a ValueError where the stage is not in the order.
unfoldable pub next_in : Stage → List Stage → Result (Option Stage)
next_in s [] = err value_error
next_in s (t ∷ order) = if same_stage t s then ok (head order) else next_in s order

unfoldable pub next_stage : VideoJob → Stage → Result (Option Stage)
next_stage job s = next_in s (stage_order job)

abbrev pub is_start : StageStatus → Bool
is_start stage_running = true
is_start _ = false

abbrev pub is_end : StageStatus → Bool
is_end stage_running = false
is_end _ = true

abbrev pub or_keep {ℓ} : {A : Type ℓ} → Option A → Option A → Option A
or_keep none old = old
or_keep (some new) old = some new

abbrev pub new_entry : ℕ → StageStatus → Option String → Option String → Entry → Entry
new_entry now status error stats e = record {
  status = some status;
  started_at = if is_start status && is_none e.started_at then some now else e.started_at;
  finished_at = if is_end status then some now else e.finished_at;
  error = or_keep error e.error;
  stats = or_keep stats e.stats;
}

abbrev pub is_error : StageStatus → Bool
is_error stage_error = true
is_error _ = false

unfoldable pub update_stage :
    ℕ → Stage → StageStatus → Option String → Option String → VideoJob → VideoJob
update_stage now s status error stats job = record job {
  stages = set_entry s (new_entry now status error stats (get_entry s job.stages)) job.stages;
  stage = s;
  error = if is_error status then error else job.error;
  status = if is_queued job.status then running else job.status;
}

abbrev pub touch : ℕ → VideoJob → VideoJob
touch now job = record job { heartbeat_at = some now }

unfoldable pub finish_job : String → VideoJob → VideoJob
finish_job products job = record job { products = products; status = completed; error = none }

unfoldable pub fail_job : String → VideoJob → VideoJob
fail_job reason job = record job { status = failed; error = some (truncate 2000 reason) }

-- What a handler writes to the job besides its stage.
pub record Details : Type 0 where
  pub video_id : Option String
  pub title : Option String
  pub duration_seconds : Option ℕ
  pub term_sheet : String

abbrev pub write_details : Details → VideoJob → VideoJob
write_details d job = record job {
  video_id = d.video_id;
  title = d.title;
  duration_seconds = d.duration_seconds;
  term_sheet = d.term_sheet;
}

-- How a handler ended: it raised, with the texts for the stage and for the job, or it returned its
-- stats and perhaps the products.
pub data Handled : Type 0 where
  raised : String → String → Handled
  returned : String → Option String → Handled

abbrev pub or_empty : Option String → String
or_empty none = "{}"
or_empty (some products) = products

-- On to the stage after this one, or the job is finished.
abbrev pub go_on : String → VideoJob → Result (Option Stage) → Result (VideoJob × Option Stage)
go_on products job (err e) = err e
go_on products job (ok none) = ok (finish_job products job, none)
go_on products job (ok (some t)) = ok (job, some t)

-- The end of a stage, and the stage to go on with.
unfoldable pub end_stage : ℕ → Stage → VideoJob → Handled → Result (VideoJob × Option Stage)
end_stage now s job (raised message reason) =
    ok (fail_job reason (update_stage now s stage_error (some message) none job), none)
end_stage now s job (returned stats products) =
    go_on (or_empty products) (touch now (update_stage now s stage_done none (some stats) job))
      (next_stage job s)

abbrev pub continue :
    (Option Stage → VideoJob → Option (Result VideoJob))
    → Result (VideoJob × Option Stage)
    → Option (Result VideoJob)
continue rest (err e) = some (err e)
continue rest (ok (job, next)) = rest next job

module _ (now : ℕ) (handler : Stage → VideoJob → Details × Handled) where
  abbrev pub begin_stage : Stage → VideoJob → VideoJob
  begin_stage s job = touch now (update_stage now s stage_running none none job)

  unfoldable pub run_stage : Stage → VideoJob → Result (VideoJob × Option Stage)
  run_stage s job =
      let begun = begin_stage s job in
      let (details, handled) = handler s begun in
      end_stage now s (write_details details begun) handled

  -- The loop on fuel; `none` where the fuel runs out.
  unfoldable pub run_from : ℕ → Option Stage → VideoJob → Option (Result VideoJob)
  run_from fuel none job = some (ok job)
  run_from zero (some s) job = none
  run_from (suc fuel) (some s) job =
      let rest = continue (run_from fuel) (run_stage s job) in
      if is_over job.status then some (ok job) else rest

  unfoldable pub run_stages : ℕ → VideoJob → Option (Result VideoJob)
  run_stages fuel job =
      if is_over job.status
      then some (ok job)
      else run_from fuel (some (first_incomplete_stage job)) job
