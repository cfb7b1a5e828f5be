-- ===== src/Video/Job.antt =====
-- app/models/video_job.py, and the orders of the stages of app/video/scheduler.py. The columns
-- created_at and updated_at, which the scheduler does not read, are left out; JSON that it only
-- passes on is a text.
use nbdpsy_mcp.Prelude.{
  ℕ, Bool, true, false, List, [], ◌∷◌, Option, String, ◌==◌, str_eq, if◌then◌else◌,
}

pub data Status : Type 0 where
  queued running completed failed : Status

pub data Stage : Type 0 where
  download analyze transcript resegment translate rewrite dub storyboard render compose mux
        deliver :
      Stage

unfoldable pub number : Stage → ℕ
number download = 0
number analyze = 1
number transcript = 2
number resegment = 3
number translate = 4
number rewrite = 5
number dub = 6
number storyboard = 7
number render = 8
number compose = 9
number mux = 10
number deliver = 11

abbrev pub same_stage : Stage → Stage → Bool
same_stage s t = number s == number t

pub data StageStatus : Type 0 where
  stage_running stage_done stage_error : StageStatus

pub record Entry : Type 0 where
  pub status : Option StageStatus
  pub started_at : Option ℕ
  pub finished_at : Option ℕ
  pub error : Option String
  pub stats : Option String

abbrev pub Stages : Type 0
Stages = List (Stage × Entry)

pub record VideoJob : Type 0 where
  pub id : ℕ
  pub url : String
  pub video_id : Option String
  pub title : Option String
  pub duration_seconds : Option ℕ
  pub mode : String
  pub parent_job_id : Option ℕ
  pub status : Status
  pub stage : Stage
  pub stages : Stages
  pub options : String
  pub products : String
  pub term_sheet : String
  pub error : Option String
  pub retry_count : ℕ
  pub heartbeat_at : Option ℕ
  pub created_by : Option ℕ

abbrev pub is_queued : Status → Bool
is_queued queued = true
is_queued _ = false

abbrev pub is_running : Status → Bool
is_running running = true
is_running _ = false

-- `job.status in ("completed", "failed")`
abbrev pub is_over : Status → Bool
is_over completed = true
is_over failed = true
is_over _ = false

-- STAGE_ORDER and REMAKE_STAGE_ORDER
abbrev pub transport_order : List Stage
transport_order = download ∷ transcript ∷ resegment ∷ translate ∷ dub ∷ mux ∷ deliver ∷ []

abbrev pub remake_order : List Stage
remake_order =
    download ∷ analyze ∷ transcript ∷ resegment ∷ translate ∷ rewrite ∷ dub ∷ storyboard ∷ render
    ∷ compose ∷ deliver ∷ []

unfoldable pub stage_order : VideoJob → List Stage
stage_order job = if str_eq job.mode "remake" then remake_order else transport_order
