-- ===== src/Video/Resume.antt =====
-- A run of the stages of one job (app/video/scheduler.py): its end, and where it resumes.
use mathlib.Core.Path.{subst}
use nbdpsy_mcp.Prelude.{
  ℕ, suc, true, false, List, [], ◌∷◌, ◌++◌, Option, none, some, String, ◌≡◌, refl, sym, arith, ◌∙◌,
  ◌⊎◌, inl, inr, if◌then◌else◌, length, All, All-append,
}
use nbdpsy_mcp.Result.{Result, ok}
use nbdpsy_mcp.Video.Job.{
  Status, queued, running, completed, failed, Stage, deliver, same_stage, StageStatus,
  stage_running, stage_done, stage_error, Entry, Stages, VideoJob, is_queued, is_over, stage_order,
}
use nbdpsy_mcp.Video.Stages.{
  get_entry, set_entry, stage_is_done, first_undone, head, next_in, next_stage, new_entry,
  update_stage, finish_job, fail_job, Handled, raised, returned, Details, end_stage, begin_stage,
  run_stage, run_from, write_details, touch, or_empty,
}

get-set_entry :
    (s t : Stage) (new : Entry) (stages : Stages)
    → get_entry t (set_entry s new stages) ≡ (if same_stage s t then new else get_entry t stages)
unfolding get_entry set_entry
get-set_entry s t new [] = ground arith
get-set_entry s t new ((r, e) ∷ stages) = ground (arith, get-set_entry s t new stages)

-- Are all of these stages done?
abbrev pub AllDone : Stages → List Stage → Type 0
AllDone stages order = All (λ s. stage_is_done stages s ≡ true) order

-- No stage of the list is `s`.
abbrev pub Without : Stage → List Stage → Type 0
Without s order = All (λ t. same_stage s t ≡ false) order

AllDone-set_entry :
    (s : Stage) (new : Entry) (stages : Stages) (order : List Stage)
    → Without s order
    → AllDone stages order
    → AllDone (set_entry s new stages) order
AllDone-set_entry s new stages [] w d = tt
AllDone-set_entry s new stages (t ∷ order) w d =
    (rw (get-set_entry s t new stages, w.0, d.0), AllDone-set_entry s new stages order w.1 d.1)

-- Everything in front is done: the first stage that is not done comes after it.
first_undone-append :
    (stages : Stages) (front rest : List Stage) (last : Stage)
    → AllDone stages front
    → first_undone stages (front ++ rest) last ≡ first_undone stages rest last
unfolding first_undone
first_undone-append stages [] rest last d = refl
first_undone-append stages (s ∷ front) rest last d =
    rw (d.0, first_undone-append stages front rest last d.1)

next_in-append :
    (s : Stage) (front rest : List Stage)
    → Without s front
    → next_in s (front ++ s ∷ rest) ≡ ok (head rest)
unfolding next_in
next_in-append s [] rest w = ground arith
next_in-append s (t ∷ front) rest w = ground (arith, w.0, next_in-append s front rest w.1)

-- The stages in front of one are other stages.
abbrev pub Distinct : List Stage → List Stage → Type 0
Distinct front [] = Unit
Distinct front (s ∷ rest) = Without s front × Distinct (front ++ s ∷ []) rest

-- A run of a job ends in one of two ways: every stage of its order is done and the job is
-- completed, or the job failed in the stage that is the first one not done.
abbrev pub Ended : List Stage → VideoJob → Type 0
Ended order job =
    ((job.status ≡ completed) × AllDone job.stages order)
    ⊎ ((job.status ≡ failed) × (first_undone job.stages order deliver ≡ job.stage))

stage_order-mode : (job job' : VideoJob) → job'.mode ≡ job.mode → stage_order job' ≡ stage_order job
unfolding stage_order
stage_order-mode job job' h = rw h

-- The row that a stage works on: the front is done, the job is not over.
pub record Ready (front : List Stage) (s : Stage) (rest : List Stage) (job : VideoJob)
    : Type 0 where
  pub order : stage_order job ≡ front ++ s ∷ rest
  pub done : AllDone job.stages front
  pub open_status : is_over job.status ≡ false
  pub others : Without s front

done-set_entry :
    (s : Stage) (new : Entry) (stages : Stages) (front : List Stage)
    → Without s front
    → AllDone stages front
    → stage_is_done (set_entry s new stages) s ≡ true
    → AllDone (set_entry s new stages) (front ++ s ∷ [])
done-set_entry s new stages front w d h =
    All-append (λ t. stage_is_done (set_entry s new stages) t ≡ true) front (s ∷ [])
      (AllDone-set_entry s new stages front w d) (h, tt)

same_stage_refl : (s : Stage) → same_stage s s ≡ true
same_stage_refl s = ground arith

running-open :
    (status : Status)
    → is_over status ≡ false
    → is_over (if is_queued status then running else status) ≡ false
running-open queued h = refl
running-open running h = refl
running-open completed h = h
running-open failed h = h

-- A row that a stage writes without ending the job.
update_stage-Ready :
    (now : ℕ) (st : StageStatus) (error stats : Option String) (front : List Stage) (s : Stage)
    (rest : List Stage) (job : VideoJob)
    → Ready front s rest job
    → Ready front s rest (update_stage now s st error stats job)
unfolding update_stage stage_order
update_stage-Ready now st error stats front s rest job r = record {
  order = r.order;
  done = AllDone-set_entry s _ job.stages front r.others r.done;
  open_status = running-open job.status r.open_status;
  others = r.others;
}

touch-Ready :
    (now : ℕ) (front : List Stage) (s : Stage) (rest : List Stage) (job : VideoJob)
    → Ready front s rest job
    → Ready front s rest (touch now job)
unfolding stage_order
touch-Ready now front s rest job r = record {
  order = r.order;
  done = r.done;
  open_status = r.open_status;
  others = r.others;
}

write_details-Ready :
    (d : Details) (front : List Stage) (s : Stage) (rest : List Stage) (job : VideoJob)
    → Ready front s rest job
    → Ready front s rest (write_details d job)
unfolding stage_order
write_details-Ready d front s rest job r = record {
  order = r.order;
  done = r.done;
  open_status = r.open_status;
  others = r.others;
}

-- A stage that raises.
raised-Ended :
    (now : ℕ) (message reason : String) (front : List Stage) (s : Stage) (rest : List Stage)
    (job : VideoJob)
    → Ready front s rest job
    → Ended
        (front ++ s ∷ rest)
        (fail_job reason (update_stage now s stage_error (some message) none job))
unfolding fail_job update_stage first_undone
raised-Ended now message reason front s rest job r = inr (
  refl,
  first_undone-append _ front (s ∷ rest) deliver
        (AllDone-set_entry s _ job.stages front r.others r.done)
      ∙ rw (
        get-set_entry s s (new_entry now stage_error (some message) none (get_entry s job.stages))
            job.stages,
        same_stage_refl s,
      ),
)

all_done :
    (now : ℕ) (stats : String) (front : List Stage) (s : Stage) (rest : List Stage) (job : VideoJob)
    → Ready front s rest job
    → AllDone (update_stage now s stage_done none (some stats) job).stages (front ++ s ∷ [])
unfolding update_stage
all_done now stats front s rest job r = done-set_entry s _ job.stages front r.others r.done (
    rw (
      get-set_entry s s (new_entry now stage_done none (some stats) (get_entry s job.stages))
          job.stages,
      same_stage_refl s,
    ))

-- What the end of a stage leaves to do, and with which row.
abbrev Ends : List Stage → Result (VideoJob × Option Stage) → Type 0
Ends order result = (job' : VideoJob) × (result ≡ ok (job', none)) × Ended order job'

Follows : List Stage → Stage → List Stage → Result (VideoJob × Option Stage) → Type 0
Follows front s [] result = Ends (front ++ s ∷ []) result
Follows front s (t ∷ rest) result =
    Ends (front ++ s ∷ t ∷ rest) result
    ⊎ ((job' : VideoJob) × (result ≡ ok (job', some t))
        × (stage_order job' ≡ front ++ s ∷ t ∷ rest)
        × AllDone job'.stages (front ++ s ∷ [])
        × (is_over job'.status ≡ false))

end_stage-Follows :
    (now : ℕ) (front : List Stage) (s : Stage) (rest : List Stage) (job : VideoJob) (h : Handled)
    → Ready front s rest job
    → Follows front s rest (end_stage now s job h)
unfolding end_stage next_stage Follows update_stage finish_job stage_order
end_stage-Follows now front s [] job (raised message reason) r = (
  fail_job reason (update_stage now s stage_error (some message) none job),
  refl,
  raised-Ended now message reason front s [] job r,
)
end_stage-Follows now front s (t ∷ rest) job (raised message reason) r = inl (
  fail_job reason (update_stage now s stage_error (some message) none job),
  refl,
  raised-Ended now message reason front s (t ∷ rest) job r,
)
end_stage-Follows now front s [] job (returned stats products) r = (
  finish_job (or_empty products) (touch now (update_stage now s stage_done none (some stats) job)),
  rw (r.order, next_in-append s front [] r.others),
  inl (refl, all_done now stats front s [] job r),
)
end_stage-Follows now front s (t ∷ rest) job (returned stats products) r = inr (
  touch now (update_stage now s stage_done none (some stats) job),
  rw (r.order, next_in-append s front (t ∷ rest) r.others),
  r.order,
  all_done now stats front s (t ∷ rest) job r,
  running-open job.status r.open_status,
)

pub append-step :
    (front rest : List Stage) (s : Stage) → front ++ s ∷ rest ≡ (front ++ s ∷ []) ++ rest
append-step [] rest s = refl
append-step (t ∷ front) rest s = rw (append-step front rest s)

module _ (now : ℕ) (handler : Stage → VideoJob → Details × Handled) where
  run_stage-Follows :
      (front : List Stage) (s : Stage) (rest : List Stage) (job : VideoJob)
      → Ready front s rest job
      → Follows front s rest (run_stage now handler s job)
  unfolding run_stage
  run_stage-Follows front s rest job r =
      end_stage-Follows now front s rest _ (handler s (begin_stage now handler s job)).1 (
        write_details-Ready (handler s (begin_stage now handler s job)).0 front s rest _ (
          touch-Ready now front s rest _
            (update_stage-Ready now stage_running none none front s rest job r)))

  pub run_from-Ended :
      (rest : List Stage) (front : List Stage) (s : Stage) (job : VideoJob)
      → Ready front s rest job
      → Distinct front (s ∷ rest)
      → (job' : VideoJob) × (run_from now handler (suc (length rest)) (some s) job ≡ some (ok job'))
        × Ended (front ++ s ∷ rest) job'
  unfolding run_from Follows
  run_from-Ended [] front s job r d =
      let (job', e, ended) = run_stage-Follows front s [] job r in
      (job', rw (r.open_status, e), ended)
  run_from-Ended (t ∷ rest) front s job r d = elim (run_stage-Follows front s (t ∷ rest) job r) [
    | inl (job', e, ended) ↦ (job', rw (r.open_status, e), ended)
    | inr (job1, e, order, done, still) ↦
        let (job', e', ended) =
          run_from-Ended rest (front ++ s ∷ []) t job1
            (record {
              order = order ∙ append-step front (t ∷ rest) s;
              done = done;
              open_status = still;
              others = d.1.0;
            })
            d.1 in
        (
          job',
          rw (r.open_status, e, e'),
          subst (λ (o : List Stage). Ended o job') (sym (append-step front (t ∷ rest) s)) ended,
        )
  ]
