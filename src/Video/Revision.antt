-- ===== src/Video/Revision.antt =====
-- A revision in the making (create_revision_job of app/video/scheduler.py) among the calls of the
-- worker.
use mathlib.Core.Option
use nbdpsy_mcp.Prelude.{
  ℕ, Bool, true, false, ◌&&◌, List, [], ◌∷◌, ◌++◌, none, some, String, ◌≡◌, refl, ap, arith, ◌∙◌,
  contains, ◌==◌,
}
use nbdpsy_mcp.Table.{find-append_new, find-update_where, apply_if}
use nbdpsy_mcp.Table.Unique.{Unique, Unique-append, Unique-update_where, count_where-key}
use nbdpsy_mcp.Table.Deletion.{contains-ids_where}
use nbdpsy_mcp.Video.Job.{
  running, VideoJob, Stage, is_queued, download, analyze, transcript, resegment, translate, rewrite,
  number, stage_order,
}
use nbdpsy_mcp.Video.Stages.{
  update_stage, fail_job, get_entry, set_entry, first_undone, first_incomplete_stage,
}
use nbdpsy_mcp.Video.Store.{
  Jobs, find_job, create_job, create_revision_job, mark_stages_inherited, scan_queued, is_claimable,
  claim, mark_running, is_stale, recover, recover_stale,
}

-- What the worker calls on its own, with the clock and the jobs in flight at that moment.
pub data Call : Type 0 where
  claims : (now id : ℕ) → Call
  recovers : (timeout now : ℕ) → List ℕ → Call

unfoldable pub after_call : Call → Jobs → Jobs
after_call (claims now id) jobs = (mark_running now id jobs).0
after_call (recovers timeout now in_flight) jobs = (recover_stale timeout now in_flight jobs).0

unfoldable pub after_calls : List Call → Jobs → Jobs
after_calls [] jobs = jobs
after_calls (c ∷ calls) jobs = after_calls calls (after_call c jobs)

-- A row that no call of the worker reaches: running, with no heartbeat.
abbrev pub IsHidden : VideoJob → Type 0
IsHidden j = (j.status ≡ running) × (j.heartbeat_at ≡ none)

abbrev pub HasIds : Jobs → Type 0
HasIds = Unique (λ j. j.id)

recover-id : (now : ℕ) (j : VideoJob) → (recover now j).id ≡ j.id
unfolding fail_job
recover-id now j = ground arith

claim-hidden :
    (now id k : ℕ) (j : VideoJob) → IsHidden j → apply_if (is_claimable id) (claim now) j ≡ j
claim-hidden now id k j h = rw (h.0, &&-false (j.id == id))
  where
    &&-false : (b : Bool) → (b && false) ≡ false
    &&-false b = ground arith

recover-hidden :
    (timeout now : ℕ) (in_flight : List ℕ) (j : VideoJob)
    → IsHidden j
    → apply_if (is_stale timeout now in_flight) (recover now) j ≡ j
recover-hidden timeout now in_flight j h = rw (h.0, h.1)

hidden-call :
    (c : Call) (jobs : Jobs) (k : ℕ) (j : VideoJob)
    → IsHidden j
    → HasIds jobs
    → find_job k jobs ≡ some j
    → (find_job k (after_call c jobs) ≡ some j) × HasIds (after_call c jobs)
unfolding after_call mark_running recover_stale
hidden-call (claims now id) jobs k j h u e = (
  find-update_where (λ x. x.id) k (is_claimable id) (claim now) jobs (λ x. refl)
      ∙ ap (Option.map (apply_if (is_claimable id) (claim now))) e
      ∙ ap some (claim-hidden now id k j h),
  Unique-update_where (λ x. x.id) (is_claimable id) (claim now) (λ x. refl) jobs u,
)
hidden-call (recovers timeout now in_flight) jobs k j h u e = (
  find-update_where (λ x. x.id) k (is_stale timeout now in_flight) (recover now) jobs
        (recover-id now)
      ∙ ap (Option.map (apply_if (is_stale timeout now in_flight) (recover now))) e
      ∙ ap some (recover-hidden timeout now in_flight j h),
  Unique-update_where (λ x. x.id) (is_stale timeout now in_flight) (recover now) (recover-id now)
      jobs u,
)

hidden-calls :
    (calls : List Call) (jobs : Jobs) (k : ℕ) (j : VideoJob)
    → IsHidden j
    → HasIds jobs
    → find_job k jobs ≡ some j
    → (find_job k (after_calls calls jobs) ≡ some j) × HasIds (after_calls calls jobs)
unfolding after_calls
hidden-calls [] jobs k j h u e = (e, u)
hidden-calls (c ∷ calls) jobs k j h u e =
    let (e', u') = hidden-call c jobs k j h u e in
    hidden-calls calls (after_call c jobs) k j h u' e'

-- While a revision is prepared, whatever the worker calls, its row stays as it is: no scan lists
-- it and no claim of it succeeds. Its id is new to a table with distinct ids.
pub revision-hidden :
    (calls : List Call) (jobs : Jobs) (id now : ℕ) (parent : VideoJob) (options : String)
    → HasIds jobs
    → find_job id jobs ≡ none
    → (find_job id (after_calls calls (jobs ++ create_revision_job id parent options ∷ []))
        ≡ some (create_revision_job id parent options))
      × (contains
            (scan_queued (after_calls calls (jobs ++ create_revision_job id parent options ∷ [])))
            id
          ≡ false)
      × ((mark_running now id
            (after_calls calls (jobs ++ create_revision_job id parent options ∷ []))).1
          ≡ false)
unfolding scan_queued mark_running create_revision_job create_job
revision-hidden calls jobs id now parent options u fresh =
    let child = create_revision_job id parent options in
    let (e, u') =
      hidden-calls calls (jobs ++ child ∷ []) id child (refl, refl)
        (Unique-append (λ x. x.id) jobs child u fresh)
        (find-append_new (λ x. x.id) id jobs child fresh ∙ rw (==-self id)) in
    (
      e,
      contains-ids_where (λ x. x.id) id (λ x. is_queued x.status) _ u' ∙ rw e,
      ap (λ n. n == 1) (count_where-key (λ x. x.id) id (λ x. is_queued x.status) _ u') ∙ rw e,
    )
  where
    ==-self : (k : ℕ) → (k == k) ≡ true
    ==-self k = ground arith

-- The stages that a revision takes over from its parent.
abbrev pub inherited : List Stage
inherited = download ∷ analyze ∷ transcript ∷ resegment ∷ translate ∷ []

-- A revision whose inherited stages are marked starts with the rewriting, and is still hidden.
pub revision-first_incomplete_stage :
    (now id : ℕ) (parent : VideoJob) (options stats : String)
    → (first_incomplete_stage
          (mark_stages_inherited now inherited stats (create_revision_job id parent options))
        ≡ rewrite)
      × IsHidden (mark_stages_inherited now inherited stats (create_revision_job id parent options))
unfolding first_incomplete_stage first_undone stage_order mark_stages_inherited update_stage
    get_entry set_entry number create_revision_job create_job
revision-first_incomplete_stage now id parent options stats = (refl, (refl, refl))
