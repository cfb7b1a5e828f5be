-- ===== src/Video/Remedies.antt =====
-- What a revision leaves behind (revise_video_job in app/http/video_rest.py), and which jobs can be
-- deleted.
use nbdpsy_mcp.Prelude.{
  ℕ, true, false, ◌||◌, Option, none, some, String, ◌==◌, str_eq, ◌≡◌, ◌≢◌, ◌⊎◌, inl, inr, refl,
  sym, ap, ◌∙◌, arith, if◌then◌else◌, Bool-cases, subst, ==_iff, update,
}
use nbdpsy_mcp.Result.{
  Error, not_found, access_denied, value_error, Result, ok, err, os_error, conflict,
}
use nbdpsy_mcp.Auth.Guards.{Operator, is_admin}
use nbdpsy_mcp.Table.{delete_where}
use nbdpsy_mcp.Table.Deletion.{find-delete_key}
use nbdpsy_mcp.Video.Job.{Status, VideoJob, Stage, queued, running, failed, completed}
use nbdpsy_mcp.Video.Store.{has_id, Jobs, find_job}
use nbdpsy_mcp.Video.Endpoints.{
  is_owner, delete_video_job, is_claimed, can_access, State, accessible, Outside, is_completed,
  derive, open_products, on_plan, revise_from, revise_video_job,
}
use nbdpsy_mcp.Video.Children.{KeepsOthers, keeps_others, HasChild, derive-HasChild, derive-others}

-- Nothing is written to the table.
abbrev pub IsRefused : Jobs → State × Result ℕ → Type 0
IsRefused jobs after = (after.0.jobs ≡ jobs) × ((e : Error) × (after.1 ≡ err e) × (e ≢ os_error))

-- A completed remake that the operator may see.
abbrev pub IsRevisable : Operator → ℕ → Jobs → VideoJob → Type 0
IsRevisable op id jobs parent =
    (find_job id jobs ≡ some parent)
    × (can_access parent op ≡ true)
    × (str_eq parent.mode "remake" ≡ true)
    × (parent.status ≡ completed)

abbrev pub Fate : Operator → ℕ → ℕ → Jobs → State × Result ℕ → Type 0
Fate op id child jobs after =
    KeepsOthers child jobs after.0.jobs
    × (IsRefused jobs after
        ⊎ ((parent : VideoJob) × IsRevisable op id jobs parent × HasChild child parent after))

accessible-cases :
    (op : Operator) (o : Option VideoJob)
    → ((e : Error) × (accessible op o ≡ err e) × (e ≢ os_error))
      ⊎ ((job : VideoJob) × (accessible op o ≡ ok job)
          × (o ≡ some job)
          × (can_access job op ≡ true))
accessible-cases op none = inl (not_found, refl, λ e. cc)
accessible-cases op (some job) = elim (Bool-cases (can_access job op)) [
  | inl e ↦ inr (job, rw e refl, refl, e)
  | inr e ↦ inl (access_denied, rw e refl, λ q. cc)
]

err_inj : {e e' : Error} → ◌≡◌ {A = Result ℕ} (err e) (err e') → e ≡ e'
err_inj h = cc

ok_err : {T : Type 0} {x : T} {e : Error} → ok x ≡ err e → ⊥
ok_err h = cc

is_completed-true : (status : Status) → is_completed status ≡ true → status ≡ completed
is_completed-true completed e = refl
is_completed-true queued e = cc
is_completed-true running e = cc
is_completed-true failed e = cc

module _ (op : Operator) (now id child : ℕ) (options_of : String → String) (named : String)
    (stats : Stage → String) (out : Outside) (s : State)
    (fresh : find_job child s.jobs ≡ none) where
  -- The child is not among the jobs before.
  gone :
      (o : Option VideoJob) (k : ℕ)
      → (if child == k then none else o) ≡ (if child == k then none else find_job k s.jobs)
      → (if child == k then none else o) ≡ find_job k s.jobs
  gone o k same = same ∙ (elim (Bool-cases (child == k)) [
    | inl e ↦ rw e (sym (subst (λ q. find_job q s.jobs ≡ none) ((==_iff child k).0 e) fresh))
    | inr e ↦ rw e refl
  ])

  refused :
      (s' : State) (e : Error)
      → s'.jobs ≡ s.jobs
      → e ≢ os_error
      → Fate op id child s.jobs (s', err e)
  refused s' e same other = (
    keeps_others child s.jobs s'.jobs (λ k ne. ap (find_job k) same),
    inl (same, (e, refl, other)),
  )

  planned :
      (parent : VideoJob) (plan : Option String)
      → IsRevisable op id s.jobs parent
      → Fate op id child s.jobs
          (on_plan now child options_of named stats out parent (open_products parent s) plan)
  planned parent none revisable = refused (open_products parent s) value_error refl (λ q. cc)
  planned parent (some plan) revisable =
      let s' = open_products parent s in
      let after = derive now child parent (options_of plan) named stats out.copies out.resets s' in
      (
        keeps_others child s.jobs after.0.jobs (
            derive-others now child parent (options_of plan) named stats s' fresh out.copies
              out.resets),
        inr (
          parent,
          revisable,
          derive-HasChild now child parent (options_of plan) named stats s' fresh out.copies
              out.resets,
        ),
      )

  revise_from-Fate :
      (parent : VideoJob)
      → find_job id s.jobs ≡ some parent
      → can_access parent op ≡ true
      → Fate op id child s.jobs (revise_from now child options_of named stats out parent s)
  revise_from-Fate parent found allowed = elim (Bool-cases (str_eq parent.mode "remake")) [
    | inr e ↦ rw e (refused s value_error refl (λ q. cc))
    | inl remake ↦ elim (Bool-cases (is_completed parent.status)) [
      | inr e ↦ rw (remake, e) (refused s conflict refl (λ q. cc))
      | inl e ↦ elim (Bool-cases out.has_products) [
        | inr h ↦ rw (remake, e, h) (refused (open_products parent s) conflict refl (λ q. cc))
        | inl h ↦
            rw (remake, e, h)
              (planned parent out.plan (found, allowed, remake, is_completed-true parent.status e))
      ]
    ]
  ]

  -- A revision that is refused writes no job. Else the parent is a completed remake that the operator
  -- may see, and there is a child of it with the parent's owner: on success it is queued and starts
  -- with the rewriting; where files or the database fail it is left to no worker, and can be
  -- deleted. No other job changes.
  pub revise_video_job-Fate :
      Fate op id child s.jobs (revise_video_job op now id child options_of named stats out s)
  unfolding revise_video_job
  revise_video_job-Fate = elim (accessible-cases op (find_job id s.jobs)) [
    | inl (e, raised, other) ↦ rw raised (refused s e refl other)
    | inr (parent, allowed, found, access) ↦ rw allowed (revise_from-Fate parent found access)
  ]

  remove :
      (after : State) (row : VideoJob)
      → find_job child after.jobs ≡ some row
      → can_access row op ≡ true
      → is_claimed row ≡ false
      → KeepsOthers child s.jobs after.jobs
      → (s' : State) × (delete_video_job op child after ≡ ok s')
        × ((k : ℕ) → find_job k s'.jobs ≡ find_job k s.jobs)
        × (s'.dirs child ≡ false)
  unfolding delete_video_job
  remove after row there allowed free others = (
    record { jobs = delete_where (has_id child) after.jobs; dirs = update after.dirs child false },
    rw (there, allowed, free) refl,
    λ k. find-delete_key (λ j. j.id) k child after.jobs ∙ gone (find_job k after.jobs) k (others k),
    ground arith,
  )

  -- When files or the database fail after the child was created, the same operator can delete it, and
  -- then the table has the jobs it had before the revision, and the child no directory.
  pub revise_video_job-remedy :
      (revise_video_job op now id child options_of named stats out s).1 ≡ err os_error
      → (s' : State) × (delete_video_job op child
            (revise_video_job op now id child options_of named stats out s).0
          ≡ ok s')
        × ((k : ℕ) → find_job k s'.jobs ≡ find_job k s.jobs)
        × (s'.dirs child ≡ false)
  revise_video_job-remedy wrong =
      let after = revise_video_job op now id child options_of named stats out s in
      let (others, fate) = revise_video_job-Fate in
      elim fate [
        | inl (_, (e, same, other)) ↦ absurd (other (err_inj (sym same ∙ wrong)))
        | inr (parent, revisable, (row, there, _, owned, inl (right, _, _))) ↦
            absurd (ok_err (sym right ∙ wrong))
        | inr (parent, revisable, (row, there, _, owned, inr (_, _, free))) ↦
            remove after.0 row there
              (ap (λ owner. is_admin op || is_owner op owner) owned ∙ revisable.1) free others
      ]
