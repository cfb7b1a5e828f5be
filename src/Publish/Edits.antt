-- ===== src/Publish/Edits.antt =====
-- The handlers of app/http/publish_rest.py on a job that exists: read, list, cancel, patch. Each
-- awaits between its read and its write, so a handler that writes takes the table twice: as it was
-- read, and as it is when the write comes.
use mathlib.Core.List.{reverse}
use nbdpsy_mcp.Prelude.{
  ℕ, Bool, true, false, not, ◌&&◌, ◌||◌, List, [], ◌∷◌, Option, none, some, String, ◌==◌, str_eq,
  if◌then◌else◌, select, take,
}
use nbdpsy_mcp.Result.{Result, ok, err, value_error, not_found, guard, ◌>>=◌, ◌>>◌}
use nbdpsy_mcp.Table.{update_where, count_where}
use nbdpsy_mcp.Auth.Guards.{
  Operator, OperatorAccountAccess, assert_account_access, visible_account_ids, sees_account,
}
use nbdpsy_mcp.Publish.Job.{
  Status, pending, publishing, published, failed, canceled, draft, PublishJob, is_pending,
}
use nbdpsy_mcp.Publish.Store.{Jobs, find_job, modify, is_claimable}
use nbdpsy_mcp.Publish.Endpoints.{IsoParser, parse_schedule_time, check_images}

-- The texts of the column `status`.
abbrev pub status_name : Status → String
status_name pending = "pending"
status_name publishing = "publishing"
status_name published = "published"
status_name failed = "failed"
status_name canceled = "canceled"
status_name draft = "draft"

-- `status in _JOB_STATUSES`
unfoldable pub is_job_status : String → Bool
is_job_status s =
    str_eq s "pending"
    || (str_eq s "publishing"
        || (str_eq s "published" || (str_eq s "failed" || str_eq s "canceled")))

abbrev pub get_or_404 : Option PublishJob → Result PublishJob
get_or_404 none = err not_found
get_or_404 (some job) = ok job

unfoldable pub get_publish_status :
    Operator → List OperatorAccountAccess → ℕ → Jobs → Result PublishJob
get_publish_status operator access job_id jobs = do
  job ← get_or_404 (find_job job_id jobs)
  assert_account_access operator job.account_id access
  ok job

abbrev pub same_account : Option ℕ → ℕ → Bool
same_account none account_id = true
same_account (some a) account_id = account_id == a

abbrev pub same_status : Option String → Status → Bool
same_status none s = true
same_status (some name) s = str_eq (status_name s) name

abbrev pub check_status : Option String → Result (Unit {0})
check_status none = ok tt
check_status (some name) = guard (is_job_status name) value_error

abbrev pub check_account : Operator → List OperatorAccountAccess → Option ℕ → Result (Unit {0})
check_account operator access none = ok tt
check_account operator access (some a) = assert_account_access operator a access

-- `account_id` and `status` are the optional filters, `limit` is at least 0.
unfoldable pub list_publish_jobs :
    Operator → List OperatorAccountAccess → Option ℕ → Option String → ℕ → Jobs → Result Jobs
list_publish_jobs operator access account_id status limit jobs = do
  check_status status
  check_account operator access account_id
  let visible = visible_account_ids operator access
  ok (
      take limit (
        reverse (
          select
            (λ j.
              sees_account visible j.account_id
              && (same_account account_id j.account_id && same_status status j.status))
            jobs)))

-- `{ok: true}`, `{ok: false, status}`, or the same with the status "unknown".
pub data Answer : Type 0 where
  done unknown : Answer
  refused : Status → Answer

pub record Edited : Type 0 where
  pub answer : Answer
  pub jobs : Jobs
  pub submitted : List ℕ

abbrev pub refuse : Status → Jobs → Edited
refuse s jobs = record { answer = refused s; jobs = jobs; submitted = [] }

abbrev pub cancel : PublishJob → PublishJob
cancel j = record j { status = canceled }

-- The write names the row by its id alone: `UPDATE … SET status='canceled' WHERE id = …`.
unfoldable pub cancel_publish_job :
    Operator → List OperatorAccountAccess → ℕ → Jobs → Jobs → Result Edited
cancel_publish_job operator access job_id jobs jobs' = do
  job ← get_or_404 (find_job job_id jobs)
  assert_account_access operator job.account_id access
  ok (
      if not (is_pending job.status)
      then refuse job.status jobs'
      else record { answer = done; jobs = modify job_id cancel jobs'; submitted = [] })

-- A field of the request body: left out (`not in model_fields_set`), null, or given.
pub data Field (A : Type 0) : Type 0 where
  omitted null : Field A
  given : A → Field A

pub record PublishJobPatchRequest : Type 0 where
  pub title : Field String
  pub content : Field String
  pub images : Field (List String)
  pub topics : Field (List String)
  pub schedule_time : Field String

-- The columns that the update sets: `none` leaves a column as it is.
pub record Changes : Type 0 where
  pub title : Option String
  pub content : Option String
  pub images : Option (List String)
  pub topics : Option (List String)
  pub schedule_time : Option (Option ℕ)

-- A column that is NOT NULL refuses an explicit null.
abbrev pub required : Field String → Result (Option String)
required omitted = ok none
required null = err value_error
required (given s) = ok (some s)

abbrev pub images_change : Field (List String) → Result (Option (List String))
images_change omitted = ok none
images_change null = do check_images []; ok (some [])
images_change (given images) = do check_images images; ok (some images)

abbrev pub topics_change : Field (List String) → Option (List String)
topics_change omitted = none
topics_change null = some []
topics_change (given topics) = some topics

abbrev pub schedule_change : IsoParser → Field String → Result (Option (Option ℕ))
schedule_change fromisoformat omitted = ok none
schedule_change fromisoformat null = ok (some none)
schedule_change fromisoformat (given raw) = do
  parsed ← parse_schedule_time fromisoformat (some raw)
  ok (some parsed)

unfoldable pub read_changes : IsoParser → PublishJobPatchRequest → Result Changes
read_changes fromisoformat payload = do
  title ← required payload.title
  content ← required payload.content
  images ← images_change payload.images
  schedule_time ← schedule_change fromisoformat payload.schedule_time
  ok (record {
    title = title;
    content = content;
    images = images;
    topics = topics_change payload.topics;
    schedule_time = schedule_time;
  })

abbrev pub is_unset {ℓ} : {A : Type ℓ} → Option A → Bool
is_unset none = true
is_unset (some _) = false

-- `not changes`
abbrev pub is_empty : Changes → Bool
is_empty c =
    is_unset c.title
    && (is_unset c.content
        && (is_unset c.images && (is_unset c.topics && is_unset c.schedule_time)))

abbrev pub schedule_cleared : Option (Option ℕ) → Bool
schedule_cleared (some none) = true
schedule_cleared _ = false

abbrev pub write {ℓ} : {A : Type ℓ} → Option A → A → A
write none old = old
write (some new) old = new

unfoldable pub apply_changes : Changes → PublishJob → PublishJob
apply_changes c j = record j {
  title = write c.title j.title;
  content = write c.content j.content;
  images = write c.images j.images;
  topics = write c.topics j.topics;
  schedule_time = write c.schedule_time j.schedule_time;
}

-- `fresh.status if fresh else "unknown"`
abbrev pub refused_now : Option PublishJob → Answer
refused_now none = unknown
refused_now (some fresh) = refused fresh.status

-- The conditional update, and what follows from its row count.
unfoldable pub commit_patch : ℕ → Changes → Jobs → Edited
commit_patch job_id c jobs' =
    if count_where (is_claimable job_id) jobs' == 0
    then record { answer = refused_now (find_job job_id jobs'); jobs = jobs'; submitted = [] }
    else record {
      answer = done;
      jobs = update_where (is_claimable job_id) (apply_changes c) jobs';
      submitted = if schedule_cleared c.schedule_time then job_id ∷ [] else [];
    }

unfoldable pub patch_publish_job :
    IsoParser
    → Operator
    → List OperatorAccountAccess
    → ℕ
    → PublishJobPatchRequest
    → Jobs
    → Jobs
    → Result Edited
patch_publish_job fromisoformat operator access job_id payload jobs jobs' = do
  job ← get_or_404 (find_job job_id jobs)
  assert_account_access operator job.account_id access
  if not (is_pending job.status) then ok (refuse job.status jobs') else do
    c ← read_changes fromisoformat payload
    ok (
        if is_empty c
        then record { answer = done; jobs = jobs'; submitted = [] }
        else commit_patch job_id c jobs')
