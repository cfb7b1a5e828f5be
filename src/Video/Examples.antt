-- ===== src/Video/Examples.antt =====
-- A job, its revision, and runs of its stages.
mod Rest
use nbdpsy_mcp.Prelude.{false, List, [], ◌∷◌, none, some, ◌≡◌, refl, arith, contains}
use nbdpsy_mcp.Result.{ok}
use nbdpsy_mcp.Table.{find}
use nbdpsy_mcp.Video.Job.{VideoJob, Stage, stage_order, mux, rewrite}
use nbdpsy_mcp.Video.Stages.{Handled, returned, raised, Details, run_stages, first_incomplete_stage}
use nbdpsy_mcp.Video.Store.{
  find_job, create_job, create_revision_job, mark_stages_inherited, scan_queued, mark_running,
}
use nbdpsy_mcp.Video.Resume.{Ended}
use nbdpsy_mcp.Video.Run.{run_stages-Ended}
use nbdpsy_mcp.Video.Revision.{
  Call, claims, recovers, after_calls, IsHidden, inherited, revision-hidden,
  revision-first_incomplete_stage,
}

abbrev pub job : VideoJob
job = create_job 1 "u" "{}" none "transport"

abbrev details : Details
details = record { video_id = none; title = some "t"; duration_seconds = none; term_sheet = "[]" }

-- Every stage succeeds but the one that joins the tracks.
abbrev handler : Stage → VideoJob → Details × Handled
handler mux j = (details, raised "OSError: disk" "mux: disk")
handler s j = (details, returned "{}" none)

run_stages-Ended_example :
    (job' : VideoJob) × (run_stages 5 handler 7 job ≡ some (ok job')) × Ended (stage_order job) job'
unfolding create_job stage_order
run_stages-Ended_example = run_stages-Ended 5 handler job 7 refl (omega arith)

abbrev calls : List Call
calls = recovers 900 5000 [] ∷ claims 5001 2 ∷ []

revision-hidden_example :
    (find_job 2 (after_calls calls (job ∷ create_revision_job 2 job "{}" ∷ []))
      ≡ some (create_revision_job 2 job "{}"))
    × (contains (scan_queued (after_calls calls (job ∷ create_revision_job 2 job "{}" ∷ []))) 2
        ≡ false)
    × ((mark_running 5002 2 (after_calls calls (job ∷ create_revision_job 2 job "{}" ∷ []))).1
        ≡ false)
unfolding find create_job
revision-hidden_example = revision-hidden calls (job ∷ []) 2 5002 job "{}" (refl, tt) refl
