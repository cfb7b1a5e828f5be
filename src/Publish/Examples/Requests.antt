-- ===== src/Publish/Examples/Requests.antt =====
-- The theorems about the handlers of app/http/publish_rest.py and the guards at concrete inputs.
use nbdpsy_mcp.Prelude.{ℕ, ◌+◌, ◌≤◌, [], ◌∷◌, none, some, ◌≡◌, refl, arith}
use nbdpsy_mcp.Result.{ok, err}
use nbdpsy_mcp.Table.{find, update_where, count_where}
use nbdpsy_mcp.Auth.Guards.{assert_account_access, has_grant, visible_account_ids}
use nbdpsy_mcp.Publish.Job.{canceled, PublishJob, Settings}
use nbdpsy_mcp.Publish.Store.{Jobs, find_job, mark_publishing, finish}
use nbdpsy_mcp.Result.{is_ok}
use nbdpsy_mcp.Auth.Guards.{sees_account}
use nbdpsy_mcp.Auth.Agreement.{visible-assert}
use nbdpsy_mcp.Publish.Endpoints.{
  IsoParser, PublishNoteRequest, Written, publish_note, parse_schedule_time, check_images,
  apply_daily_cap, next_active_window_start,
}
use nbdpsy_mcp.Publish.Edits.{
  omitted, given, PublishJobPatchRequest, patch_publish_job, commit_patch, read_changes,
  apply_changes, Edited, done, cancel_publish_job,
}
use nbdpsy_mcp.Publish.Requests.{Created, goes_out_today, publish_note-Created, publish_note-cap}
use nbdpsy_mcp.Publish.Races.{cancel-overwrites_claim, Patched, patch-Patched}
use nbdpsy_mcp.Publish.Examples.Data.{
  settings, waiting_job, published_job, table, start_time, success_result, admin, member, grants,
}

visible-assert_example :
    sees_account (visible_account_ids member grants) 7
    ≡ is_ok (assert_account_access member 7 grants)
visible-assert_example = visible-assert member 7 grants

abbrev no_times : IsoParser
no_times raw = none

abbrev request : PublishNoteRequest
request = record {
  account_id = 7;
  title = "t";
  content = "c";
  images = "a.png" ∷ [];
  topics = [];
  schedule_time = none;
}

abbrev reply : Written ℕ
unfolding publish_note parse_schedule_time assert_account_access has_grant check_images
    apply_daily_cap
reply = elim (publish_note settings no_times start_time 0 3 member grants request table table) [
  | ok w ↦ w
  | err e ↦ record { reply = 0; jobs = []; submitted = [] }
]

publish_note-Created_example :
    Created settings no_times start_time 0 3 member grants request table table reply
unfolding publish_note parse_schedule_time assert_account_access has_grant check_images
    apply_daily_cap
publish_note-Created_example =
    publish_note-Created settings no_times start_time 0 3 member grants request table table reply
      refl

publish_note-cap_example : count_where (goes_out_today 7 start_time) reply.jobs ≤ 8 + 0
unfolding publish_note parse_schedule_time assert_account_access has_grant check_images
    apply_daily_cap
publish_note-cap_example =
    publish_note-cap settings no_times start_time 0 3 member grants request table table reply 7 0
      refl (omega arith) (omega arith)

-- With a cap of one job a day, two requests that both count before the other commits both go out.
abbrev one_a_day : Settings
one_a_day = record settings { publish_daily_cap = 1 }

abbrev after_request : ℕ → Jobs → Jobs → Jobs
after_request new_id seen jobs =
    elim (publish_note one_a_day no_times start_time 0 new_id member grants request seen jobs) [
      | ok w ↦ w.jobs
      | err e ↦ jobs
    ]

raced : count_where (goes_out_today 7 start_time) (after_request 2 [] (after_request 1 [] [])) ≡ 2
unfolding publish_note parse_schedule_time assert_account_access has_grant check_images
    apply_daily_cap
raced = refl

in_turn :
    count_where
      (goes_out_today 7 start_time)
      (after_request 2 (after_request 1 [] []) (after_request 1 [] []))
    ≡ 1
unfolding publish_note parse_schedule_time assert_account_access has_grant check_images
    apply_daily_cap next_active_window_start
in_turn = refl

cancel-overwrites_claim_example :
    (e : Edited) × (y : PublishJob) × (cancel_publish_job member grants 1 table
        (mark_publishing 5 1 table).1
      ≡ ok e)
    × (e.answer ≡ done)
    × (find_job 1 (finish settings 9 1000000 1 success_result e.jobs) ≡ some y)
    × (y.status ≡ canceled)
    × (y.note_id ≡ none)
    × (y.note_url ≡ none)
    × (y.error ≡ none)
unfolding find assert_account_access has_grant
cancel-overwrites_claim_example =
    cancel-overwrites_claim settings member grants 1 table waiting_job refl refl refl 5 9 1000000
      success_result

abbrev new_title : PublishJobPatchRequest
new_title = record {
  title = given "u";
  content = omitted;
  images = omitted;
  topics = omitted;
  schedule_time = omitted;
}

abbrev patched : Edited
unfolding patch_publish_job commit_patch read_changes apply_changes find update_where
    assert_account_access
patched = elim (patch_publish_job no_times admin [] 1 new_title table table) [
  | ok e ↦ e
  | err e ↦ record { answer = done; jobs = []; submitted = [] }
]

patch-Patched_example :
    (y : PublishJob) × (find_job 2 patched.jobs ≡ some y) × Patched 1 published_job y
unfolding patch_publish_job commit_patch read_changes apply_changes find update_where
    assert_account_access
patch-Patched_example =
    patch-Patched no_times admin [] 1 new_title table table patched 2 published_job refl refl
