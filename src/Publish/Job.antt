-- ===== src/Publish/Job.antt =====
-- app/models/publish_job.py and the result record of app/browser/sync_client.py. A moment is a
-- number of microseconds. `images_json` and `topics_json` are held as the lists that they encode.
use nbdpsy_mcp.Prelude.{ℕ, ◌*◌, Bool, true, false, List, Option, String}

pub data Status : Type 0 where
  pending publishing published failed canceled draft : Status

pub record PublishJob : Type 0 where
  pub id : ℕ
  pub account_id : ℕ
  pub title : String
  pub content : String
  pub images : List String
  pub topics : List String
  pub schedule_time : Option ℕ
  pub status : Status
  pub started_at : Option ℕ
  pub note_id : Option String
  pub note_url : Option String
  pub error : Option String
  pub retries : ℕ
  pub next_retry_at : Option ℕ
  pub created_by : Option ℕ
  pub created_at : ℕ

pub record PublishResult : Type 0 where
  pub success : Bool
  pub note_id : String
  pub note_url : String
  pub error : Option String
  pub need_manual_login : Bool
  pub account_restricted : Bool
  pub draft_saved : Bool
  pub message : String

-- The settings that the scheduler and the endpoints read, in the units of app/core/config.py.
pub record Settings : Type 0 where
  pub publish_job_timeout : ℕ
  pub publish_min_interval_min : ℕ
  pub publish_min_interval_max : ℕ
  pub publish_daily_cap : ℕ
  pub retry_delays : List ℕ
  pub active_window_start_utc_hour : ℕ
  pub active_window_jitter_sec : ℕ

abbrev pub seconds : ℕ → ℕ
seconds n = n * 1000000

-- Status tests, as the queries and guards of the program write them.
abbrev pub is_pending : Status → Bool
is_pending pending = true
is_pending _ = false

abbrev pub is_publishing : Status → Bool
is_publishing publishing = true
is_publishing _ = false

-- `status in ('published', 'publishing')`
abbrev pub is_active : Status → Bool
is_active published = true
is_active publishing = true
is_active _ = false

-- `status in ('pending', 'publishing', 'published')`
abbrev pub counts_for_day : Status → Bool
counts_for_day pending = true
counts_for_day publishing = true
counts_for_day published = true
counts_for_day _ = false

-- No operation of the scheduler takes a job out of these.
abbrev pub is_terminal : Status → Bool
is_terminal pending = false
is_terminal publishing = false
is_terminal _ = true
