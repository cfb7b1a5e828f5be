-- ===== src/Video/Examples/Rest.antt =====
-- A completed remake, its revision, and listings.
use nbdpsy_mcp.Prelude.{
  ℕ, ◌≤◌, ◌≡◌, Bool, true, false, [], ◌∷◌, none, some, String, pos, negsuc, refl, length, All, ◌⊎◌,
}
use nbdpsy_mcp.Result.{ok, err, os_error, conflict}
use nbdpsy_mcp.Table.{find}
use nbdpsy_mcp.Auth.Guards.{Operator}
use nbdpsy_mcp.Video.Job.{VideoJob, Stage, completed}
use nbdpsy_mcp.Video.Store.{find_job, create_job, create_revision_job}
use nbdpsy_mcp.Video.Endpoints.{
  State, Outside, list_video_jobs, revise_video_job, delete_video_job, retry_video_job,
}
use nbdpsy_mcp.Video.Remedies.{Fate, revise_video_job-Fate, revise_video_job-remedy}
use nbdpsy_mcp.Video.Listing.{IsShown, IsIn, list_video_jobs-Listed}

abbrev op : Operator
op = record {
  id = 3;
  name = "op";
  apikey_hash = "";
  role = "operator";
  enabled = true;
  created_at = 0;
  created_by = none;
}

abbrev film : VideoJob
film = record (create_job 1 "u" "{}" (some 3) "remake") { status = completed }

abbrev state : State
state = record { jobs = film ∷ []; dirs = λ id. true }

abbrev options_of : String → String
options_of plan = plan

abbrev stats : Stage → String
stats s = "{}"

abbrev outside : Bool → Outside
outside copies = record { has_products = true; plan = some "{}"; copies = copies; resets = true }

revise_video_job-Fate_example :
    Fate op 1 2 state.jobs (revise_video_job op 900 1 2 options_of "{}" stats (outside true) state)
unfolding find create_job
revise_video_job-Fate_example =
    revise_video_job-Fate op 900 1 2 options_of "{}" stats (outside true) state refl

revised : (revise_video_job op 900 1 2 options_of "{}" stats (outside true) state).1 ≡ ok 2
unfolding revise_video_job find create_job
revised = refl

not_copied :
    (revise_video_job op 900 1 2 options_of "{}" stats (outside false) state).1 ≡ err os_error
unfolding revise_video_job find create_job
not_copied = refl

-- A child that is left cannot be retried: it is marked as running.
left-retry_video_job :
    retry_video_job op 950 2
      (revise_video_job op 900 1 2 options_of "{}" stats (outside false) state).0
    ≡ err conflict
unfolding revise_video_job retry_video_job create_revision_job find create_job
left-retry_video_job = refl

revise_video_job-remedy_example :
    (s' : State) × (delete_video_job op 2
        (revise_video_job op 900 1 2 options_of "{}" stats (outside false) state).0
      ≡ ok s')
    × ((k : ℕ) → find_job k s'.jobs ≡ find_job k state.jobs)
    × (s'.dirs 2 ≡ false)
unfolding find create_job
revise_video_job-remedy_example =
    revise_video_job-remedy op 900 1 2 options_of "{}" stats (outside false) state refl not_copied

list_video_jobs-Listed_example :
    All (IsShown op none) (list_video_jobs op (pos 5) (pos 0) none state)
    × (length (list_video_jobs op (pos 200) (pos 0) none state) ≤ 100)
    × All
        (λ job.
          IsIn job (list_video_jobs op (negsuc 200) (pos 0) none state) ⊎ ¬ IsShown op none job)
        state.jobs
list_video_jobs-Listed_example = list_video_jobs-Listed op (pos 0) (pos 5) none state 200
