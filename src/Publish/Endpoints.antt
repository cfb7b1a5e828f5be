-- ===== src/Publish/Endpoints.antt =====
-- The handlers of app/http/publish_rest.py. A handler that awaits between its read and its write
-- takes the job table twice, as it was read and as it is when the write comes. The parser of ISO
-- times, the id that the database gives and the random draws are arguments.
use nbdpsy_mcp.Prelude.{
  ℕ, ◌+◌, ◌-◌, ◌*◌, ◌/◌, Bool, true, not, ◌&&◌, List, [], ◌∷◌, ◌++◌, Option, none, some, String,
  ◌==◌, str_eq, if◌then◌else◌, ltb, leb, length, is_none,
}
use nbdpsy_mcp.Result.{Result, ok, err, value_error, overflow_error, guard, ◌>>=◌, ◌>>◌}
use nbdpsy_mcp.Table.{count_where}
use nbdpsy_mcp.Auth.Guards.{Operator, OperatorAccountAccess, assert_account_access}
use nbdpsy_mcp.Publish.Job.{pending, PublishJob, Settings, seconds, counts_for_day}
use nbdpsy_mcp.Publish.Store.{Jobs}

-- What `datetime.fromisoformat` reads: a local moment, and the offset from UTC if it has one.
pub data Offset : Type 0 where
  naive : Offset
  east : ℕ → Offset
  west : ℕ → Offset

abbrev pub IsoParser : Type 0
IsoParser = String → Option (ℕ × Offset)

-- `astimezone(UTC).replace(tzinfo=None)`; a moment before the first one overflows.
unfoldable pub to_utc : ℕ → Offset → Result ℕ
to_utc t naive = ok t
to_utc t (east d) = if leb d t then ok (t - d) else err overflow_error
to_utc t (west d) = ok (t + d)

abbrev read_iso : Option (ℕ × Offset) → Result (Option ℕ)
read_iso none = err value_error
read_iso (some (t, o)) = do u ← to_utc t o; ok (some u)

unfoldable pub parse_schedule_time : IsoParser → Option String → Result (Option ℕ)
unfolding to_utc
parse_schedule_time fromisoformat none = ok none
parse_schedule_time fromisoformat (some raw) =
    if str_eq raw "" then ok none else read_iso (fromisoformat raw)

abbrev pub day : ℕ
day = seconds 86400

-- The moments are counted from a midnight.
abbrev pub today_start : ℕ → ℕ
today_start now = now / day * day

-- `jitter` is the draw of `random.uniform`, in microseconds.
unfoldable pub next_active_window_start : Settings → ℕ → ℕ → ℕ
next_active_window_start cfg now jitter =
    (now + day) / day * day + seconds (3600 * cfg.active_window_start_utc_hour) + jitter

pub record PublishNoteRequest : Type 0 where
  pub account_id : ℕ
  pub title : String
  pub content : String
  pub images : List String
  pub topics : List String
  pub schedule_time : Option String

abbrev pub max_images : ℕ
max_images = 18

unfoldable pub check_images : List String → Result (Unit {0})
check_images images = do
  guard (not (length images == 0)) value_error
  guard (leb (length images) max_images) value_error

abbrev pub is_due_today : ℕ → Option ℕ → Bool
is_due_today now none = true
is_due_today now (some t) = ltb t (today_start now + day)

abbrev pub counted_today : ℕ → ℕ → PublishJob → Bool
counted_today account_id now j =
    (j.account_id == account_id) && (counts_for_day j.status && leb (today_start now) j.created_at)

-- The daily cap: a job that would go out today, on an account that is full, moves to the next day.
unfoldable pub apply_daily_cap : Settings → ℕ → ℕ → ℕ → Jobs → Option ℕ → Option ℕ
apply_daily_cap cfg now jitter account_id jobs scheduled_at =
    if is_due_today now scheduled_at
      && leb cfg.publish_daily_cap (count_where (counted_today account_id now) jobs)
    then some (next_active_window_start cfg now jitter)
    else scheduled_at

abbrev pub new_job : ℕ → ℕ → ℕ → PublishNoteRequest → Option ℕ → PublishJob
new_job id now operator_id payload scheduled_at = record {
  id = id;
  account_id = payload.account_id;
  title = payload.title;
  content = payload.content;
  images = payload.images;
  topics = payload.topics;
  schedule_time = scheduled_at;
  status = pending;
  started_at = none;
  note_id = none;
  note_url = none;
  error = none;
  retries = 0;
  next_retry_at = none;
  created_by = some operator_id;
  created_at = now;
}

-- The table after a handler, and the jobs that it submits to the queue.
pub record Written (A : Type 0) : Type 0 where
  pub reply : A
  pub jobs : Jobs
  pub submitted : List ℕ

-- `seen` is the table of the daily count, `jobs` that of the commit.
unfoldable pub publish_note :
    Settings
    → IsoParser
    → ℕ
    → ℕ
    → ℕ
    → Operator
    → List OperatorAccountAccess
    → PublishNoteRequest
    → Jobs
    → Jobs
    → Result (Written ℕ)
publish_note cfg fromisoformat now jitter new_id operator access payload seen jobs = do
  asked ← parse_schedule_time fromisoformat payload.schedule_time
  assert_account_access operator payload.account_id access
  check_images payload.images
  let scheduled_at = apply_daily_cap cfg now jitter payload.account_id seen asked
  ok (record {
    reply = new_id;
    jobs = jobs ++ new_job new_id now operator.id payload scheduled_at ∷ [];
    submitted = if is_none scheduled_at then new_id ∷ [] else [];
  })
