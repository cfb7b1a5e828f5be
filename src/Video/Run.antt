-- ===== src/Video/Run.antt =====
-- The whole run of a job, `_run_stages` of app/video/scheduler.py.
use mathlib.Core.Path.{subst}
use nbdpsy_mcp.Prelude.{
  ℕ, zero, suc, ◌≤◌, Bool, true, false, not, ◌&&◌, List, [], ◌∷◌, ◌++◌, Option, none, some, ◌≡◌,
  refl, sym, ap, arith, inl, inr, if◌then◌else◌, Bool-cases, if-cases, length, length-append,
  str_eq,
}
use nbdpsy_mcp.Result.{Result, ok, err}
use nbdpsy_mcp.Video.Job.{
  Stage, deliver, download, transcript, resegment, translate, dub, mux, analyze, rewrite,
  storyboard, render, compose, same_stage, number, Stages, VideoJob, is_over, stage_order,
  transport_order, remake_order,
}
use nbdpsy_mcp.Video.Stages.{
  stage_is_done, first_undone, first_incomplete_stage, Handled, Details, continue, run_stage,
  run_from, run_stages,
}
use nbdpsy_mcp.Video.Resume.{AllDone, Without, Distinct, Ended, run_from-Ended, append-step}

without : Stage → List Stage → Bool
without s [] = true
without s (t ∷ order) = not (same_stage s t) && without s order

without-Without : (s : Stage) (order : List Stage) → without s order ≡ true → Without s order
unfolding without
without-Without s [] h = tt
without-Without s (t ∷ order) h = (ground arith, without-Without s order (ground arith))

distinct : List Stage → List Stage → Bool
distinct front [] = true
distinct front (s ∷ rest) = without s front && distinct (front ++ s ∷ []) rest

distinct-Distinct : (front rest : List Stage) → distinct front rest ≡ true → Distinct front rest
unfolding distinct
distinct-Distinct front [] h = tt
distinct-Distinct front (s ∷ rest) h = (
  without-Without s front (ground arith),
  distinct-Distinct (front ++ s ∷ []) rest (ground arith),
)

append_nil : (l : List Stage) → l ++ [] ≡ l
append_nil [] = refl
append_nil (s ∷ l) = rw (append_nil l)

Distinct-split :
    (done front : List Stage) (s : Stage) (rest : List Stage)
    → Distinct done (front ++ s ∷ rest)
    → Distinct (done ++ front) (s ∷ rest)
Distinct-split done [] s rest d =
    subst (λ (l : List Stage). Distinct l (s ∷ rest)) (sym (append_nil done)) d
Distinct-split done (t ∷ front) s rest d =
    subst (λ (l : List Stage). Distinct l (s ∷ rest)) (sym (append-step done front t))
      (Distinct-split (done ++ t ∷ []) front s rest d.1)

-- An order, cut at its first stage that is not done.
Cut : Stages → List Stage → Stage → Type 0
Cut stages order last =
    (front : List Stage) × (rest : List Stage) × (order
      ≡ front ++ first_undone stages order last ∷ rest)
    × AllDone stages front

Cut-last :
    (stages : Stages) (init : List Stage) (last : Stage) → Cut stages (init ++ last ∷ []) last
unfolding Cut first_undone
Cut-last stages [] last = ([], [], ap (λ s. s ∷ []) (either (stage_is_done stages last)), tt)
  where
    either : (b : Bool) → last ≡ (if b then last else last)
    either true = refl
    either false = refl
Cut-last stages (s ∷ init) last = elim (Bool-cases (stage_is_done stages s)) [
  | inl e ↦
      let (front, rest, same, done) = Cut-last stages init last in
      (s ∷ front, rest, rw e (ap (λ l. s ∷ l) same), (e, done))
  | inr e ↦ ([], init ++ last ∷ [], rw e, tt)
]

order-Cut :
    (remake : Bool) (stages : Stages)
    → Cut stages (if remake then remake_order else transport_order) deliver
order-Cut true stages =
    Cut-last stages
      (download ∷ analyze ∷ transcript ∷ resegment ∷ translate ∷ rewrite ∷ dub ∷ storyboard ∷ render
        ∷ compose ∷ [])
      deliver
order-Cut false stages =
    Cut-last stages (download ∷ transcript ∷ resegment ∷ translate ∷ dub ∷ mux ∷ []) deliver

order-Distinct : (remake : Bool) → Distinct [] (if remake then remake_order else transport_order)
unfolding number distinct without
order-Distinct true = distinct-Distinct [] remake_order refl
order-Distinct false = distinct-Distinct [] transport_order refl

module _ (now : ℕ) (handler : Stage → VideoJob → Details × Handled) where
  continue-more :
      (k k' : Option Stage → VideoJob → Option (Result VideoJob)) {z : Result VideoJob}
      → ((n : Option Stage) (j : VideoJob) → k n j ≡ some z → k' n j ≡ some z)
      → (r : Result (VideoJob × Option Stage)) → continue k r ≡ some z
      → continue k' r ≡ some z
  continue-more k k' h (err e) q = q
  continue-more k k' h (ok (j, n)) q = h n j q

  -- More fuel gives the same result.
  run_from-more :
      (fuel fuel' : ℕ) {z : Result VideoJob} (next : Option Stage) (job : VideoJob)
      → fuel ≤ fuel'
      → run_from now handler fuel next job ≡ some z
      → run_from now handler fuel' next job ≡ some z
  unfolding run_from
  run_from-more fuel fuel' none job le h = h
  run_from-more zero fuel' (some s) job le h = cc
  run_from-more (suc fuel) zero (some s) job le h = absurd (omega arith)
  run_from-more (suc fuel) (suc fuel') (some s) job le h =
      elim (if-cases (is_over job.status) _ _ h) [
        | inl (e, q) ↦ rw e q
        | inr (e, q) ↦ rw e (
            continue-more (run_from now handler fuel) (run_from now handler fuel')
              (λ n j. run_from-more fuel fuel' n j (omega arith)) (run_stage now handler s job) q)
      ]

  -- From the cut of the order on.
  run_cut :
      (job : VideoJob) (front rest : List Stage) (fuel : ℕ)
      → is_over job.status ≡ false
      → stage_order job ≡ front ++ first_incomplete_stage job ∷ rest
      → AllDone job.stages front
      → Distinct [] (stage_order job)
      → length (stage_order job) ≤ fuel
      → (job' : VideoJob) × (run_stages now handler fuel job ≡ some (ok job'))
        × Ended (stage_order job) job'
  unfolding run_stages
  run_cut job front rest fuel still order done d enough =
      let d' =
        Distinct-split [] front (first_incomplete_stage job) rest (subst (Distinct []) order d) in
      let (job', e, ended) =
        run_from-Ended now handler rest front (first_incomplete_stage job) job
          (record { order = order; done = done; open_status = still; others = d'.0 }) d' in
      (
        job',
        rw (
          still,
          run_from-more (suc (length rest)) fuel (some (first_incomplete_stage job)) job
              (omega (
                arith,
                enough,
                ap length order,
                length-append front (first_incomplete_stage job ∷ rest),
              ))
              e,
        ),
        subst (λ (o : List Stage). Ended o job') (sym order) ended,
      )

  -- A run of a job that is not over ends without an exception, with as much fuel as its order has
  -- stages or more, whatever the handlers do: every stage of the order is done and the job is
  -- completed, or the job is failed in the first stage that is not done.
  pub run_stages-Ended :
      (job : VideoJob) (fuel : ℕ)
      → is_over job.status ≡ false
      → length (stage_order job) ≤ fuel
      → (job' : VideoJob) × (run_stages now handler fuel job ≡ some (ok job'))
        × Ended (stage_order job) job'
  unfolding stage_order first_incomplete_stage Cut
  run_stages-Ended job fuel still enough =
      let (front, rest, same, done) = order-Cut (str_eq job.mode "remake") job.stages in
      run_cut job front rest fuel still same done (order-Distinct (str_eq job.mode "remake")) enough
