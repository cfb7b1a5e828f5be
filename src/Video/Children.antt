-- ===== src/Video/Children.antt =====
-- The child that a revision creates (the end of revise_video_job in app/http/video_rest.py).
use mathlib.Core.Option
use nbdpsy_mcp.Prelude.{
  ℕ, Bool, true, false, [], ◌∷◌, ◌++◌, none, some, String, ◌==◌, ◌≡◌, ◌≢◌, ◌⊎◌, inl, inr, refl, sym,
  ap, ◌∙◌, arith, if◌then◌else◌, Bool-cases,
}
use nbdpsy_mcp.Result.{Result, ok, err, os_error}
use nbdpsy_mcp.Table.{
  find-append_new, find-append_other, find-update_where, find-update_other, apply_if,
}
use nbdpsy_mcp.Video.Job.{VideoJob, Stage, queued, running, failed, rewrite, stage_order, number}
use nbdpsy_mcp.Video.Stages.{
  update_stage, fail_job, first_incomplete_stage, first_undone, get_entry, set_entry,
}
use nbdpsy_mcp.Video.Store.{
  Jobs, find_job, has_id, modify, create_job, create_revision_job, mark_stages_inherited,
  back_to_queued, reset_to_queued,
}
use nbdpsy_mcp.Video.Endpoints.{
  State, is_claimed, enrich_inherited_stats, inherit_stages, reset_reason, derive,
}

module _ (child : ℕ) (jobs : Jobs) (row : VideoJob) (own : row.id ≡ child) where
  -- A row that is added.
  find-added : find_job child jobs ≡ none → find_job child (jobs ++ row ∷ []) ≡ some row
  find-added fresh = find-append_new (λ j. j.id) child jobs row fresh ∙ rw own (ground arith)

  find-added_other : (k : ℕ) → child ≢ k → find_job k (jobs ++ row ∷ []) ≡ find_job k jobs
  find-added_other k ne = find-append_other (λ j. j.id) k jobs row (λ e. ne (sym own ∙ e))

module _ (child : ℕ) (f : VideoJob → VideoJob) (keeps : (j : VideoJob) → (f j).id ≡ j.id) where
  find-modify_same :
      (jobs : Jobs) (row : VideoJob)
      → row.id ≡ child
      → find_job child jobs ≡ some row
      → find_job child (modify child f jobs) ≡ some (f row)
  find-modify_same jobs row own there =
      find-update_where (λ j. j.id) child (has_id child) f jobs keeps
      ∙ ap (Option.map (apply_if (has_id child) f)) there
      ∙ rw own (ground arith)

  find-modify_other :
      (k : ℕ) (jobs : Jobs) → child ≢ k → find_job k (modify child f jobs) ≡ find_job k jobs
  find-modify_other k jobs ne = find-update_other (λ j. j.id) k child f jobs keeps ne

inherit_stages-id :
    (now : ℕ) (named : String) (stats : Stage → String) (j : VideoJob)
    → (inherit_stages now named stats j).id ≡ j.id
unfolding mark_stages_inherited enrich_inherited_stats update_stage
inherit_stages-id now named stats j = refl

fail_job-id : (reason : String) (j : VideoJob) → (fail_job reason j).id ≡ j.id
unfolding fail_job
fail_job-id reason j = refl

-- The child is there for the worker, from the rewriting on.
abbrev pub IsReady : ℕ → VideoJob → Result ℕ → Type 0
IsReady child row answer =
    (answer ≡ ok child) × (row.status ≡ queued) × (first_incomplete_stage row ≡ rewrite)

-- The child is there, no worker takes it, and it can be deleted.
abbrev pub IsLeft : VideoJob → Result ℕ → Type 0
IsLeft row answer =
    (answer ≡ err os_error)
    × ((row.status ≡ running) ⊎ (row.status ≡ failed))
    × (is_claimed row ≡ false)

-- A child of the parent, ready or left.
abbrev pub HasChild : ℕ → VideoJob → State × Result ℕ → Type 0
HasChild child parent after =
    (row : VideoJob) × (find_job child after.0.jobs ≡ some row)
    × (row.parent_job_id ≡ some parent.id)
    × (row.created_by ≡ parent.created_by)
    × (IsReady child row after.1 ⊎ IsLeft row after.1)

-- The other jobs are as they were.
abbrev pub KeepsOthers : ℕ → Jobs → Jobs → Type 0
KeepsOthers child jobs jobs' =
    (k : ℕ)
    → (if child == k then none else find_job k jobs')
      ≡ (if child == k then none else find_job k jobs)

pub keeps_others :
    (child : ℕ) (jobs jobs' : Jobs)
    → ((k : ℕ) → child ≢ k → find_job k jobs' ≡ find_job k jobs)
    → KeepsOthers child jobs jobs'
keeps_others child jobs jobs' same k = elim (Bool-cases (child == k)) [
  | inl e ↦ rw e refl
  | inr e ↦ rw e (same k (λ q. ground (arith, e, q)))
]

module _ (now child : ℕ) (parent : VideoJob) (options named : String) (stats : Stage → String)
    (s : State) (fresh : find_job child s.jobs ≡ none) where
  abbrev new_child : VideoJob
  new_child = create_revision_job child parent options

  abbrev prepared : VideoJob
  prepared = inherit_stages now named stats new_child

  abbrev created : Jobs
  created = s.jobs ++ new_child ∷ []

  abbrev marked : Jobs
  marked = modify child (inherit_stages now named stats) created

  new_child-id : new_child.id ≡ child
  unfolding create_revision_job create_job
  new_child-id = refl

  find-created : find_job child created ≡ some new_child
  find-created = find-added child s.jobs new_child new_child-id fresh

  find-marked : find_job child marked ≡ some prepared
  find-marked =
      find-modify_same child (inherit_stages now named stats) (inherit_stages-id now named stats)
        created new_child new_child-id find-created

  prepared-id : prepared.id ≡ child
  prepared-id = inherit_stages-id now named stats new_child ∙ new_child-id

  find-marked_other : (k : ℕ) → child ≢ k → find_job k marked ≡ find_job k s.jobs
  find-marked_other k ne =
      find-modify_other child (inherit_stages now named stats) (inherit_stages-id now named stats) k
        created ne
      ∙ find-added_other child s.jobs new_child new_child-id k ne

  pub derive-HasChild :
      (copies resets : Bool)
      → HasChild child parent (derive now child parent options named stats copies resets s)
  unfolding reset_to_queued create_revision_job create_job mark_stages_inherited
      enrich_inherited_stats update_stage fail_job first_incomplete_stage first_undone stage_order
      get_entry set_entry number
  derive-HasChild false resets = (new_child, find-created, refl, refl, inr (refl, inl refl, refl))
  derive-HasChild true false = (
    fail_job reset_reason prepared,
    find-modify_same child (fail_job reset_reason) (fail_job-id reset_reason) marked prepared
        prepared-id find-marked,
    refl,
    refl,
    inr (refl, inr refl, refl),
  )
  derive-HasChild true true = (
    back_to_queued now prepared,
    find-modify_same child (back_to_queued now) (λ j. refl) marked prepared prepared-id find-marked,
    refl,
    refl,
    inl (refl, refl, refl),
  )

  pub derive-others :
      (copies resets : Bool) (k : ℕ)
      → child ≢ k
      → find_job k (derive now child parent options named stats copies resets s).0.jobs
        ≡ find_job k s.jobs
  unfolding reset_to_queued
  derive-others false resets k ne = find-added_other child s.jobs new_child new_child-id k ne
  derive-others true false k ne =
      find-modify_other child (fail_job reset_reason) (fail_job-id reset_reason) k marked ne
      ∙ find-marked_other k ne
  derive-others true true k ne =
      find-modify_other child (back_to_queued now) (λ j. refl) k marked ne ∙ find-marked_other k ne
