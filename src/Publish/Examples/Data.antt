-- ===== src/Publish/Examples/Data.antt =====
-- A table with two jobs of one account, and the settings of app/core/config.py.
use nbdpsy_mcp.Prelude.{ℕ, true, false, List, [], ◌∷◌, none, some, refl}
use nbdpsy_mcp.Table.{find}
use nbdpsy_mcp.Table.Unique.{Unique}
use nbdpsy_mcp.Auth.Guards.{Operator, OperatorAccountAccess}
use nbdpsy_mcp.Publish.Job.{pending, published, PublishJob, PublishResult, Settings}
use nbdpsy_mcp.Publish.Store.{Jobs}

abbrev pub settings : Settings
settings = record {
  publish_job_timeout = 600;
  publish_min_interval_min = 1200;
  publish_min_interval_max = 3600;
  publish_daily_cap = 8;
  retry_delays = 120 ∷ 600 ∷ 1800 ∷ [];
  active_window_start_utc_hour = 1;
  active_window_jitter_sec = 7200;
}

abbrev pub waiting_job : PublishJob
waiting_job = record {
  id = 1;
  account_id = 7;
  title = "t";
  content = "c";
  images = "a.png" ∷ [];
  topics = [];
  schedule_time = none;
  status = pending;
  started_at = none;
  note_id = none;
  note_url = none;
  error = none;
  retries = 0;
  next_retry_at = none;
  created_by = some 1;
  created_at = 0;
}

-- The other job of the account, published at second 1.
abbrev pub published_job : PublishJob
published_job = record waiting_job { id = 2; status = published; started_at = some 1000000 }

abbrev pub table : Jobs
table = waiting_job ∷ published_job ∷ []

abbrev pub start_time : ℕ
start_time = 10000000000

pub table-Unique : Unique (λ j. j.id) table
unfolding find
table-Unique = (refl, (refl, tt))

abbrev pub failure : PublishResult
failure = record {
  success = false;
  note_id = "";
  note_url = "";
  error = some "timeout";
  need_manual_login = false;
  account_restricted = false;
  draft_saved = false;
  message = "";
}

abbrev pub success_result : PublishResult
success_result = record failure { success = true; note_id = "n1"; note_url = "u1"; error = none }

abbrev pub draft_result : PublishResult
draft_result = record success_result { draft_saved = true }

abbrev pub admin : Operator
admin = record {
  id = 1;
  name = "root";
  apikey_hash = "h";
  role = "admin";
  enabled = true;
  created_at = 0;
  created_by = none;
}

abbrev pub member : Operator
member = record admin { id = 2; name = "m"; role = "operator" }

abbrev pub grants : List OperatorAccountAccess
grants =
    record { id = 1; operator_id = 2; xhs_account_id = 7; granted_by = some 1; created_at = 0 } ∷ []
