-- ===== src/Publish/Selection.antt =====
-- Which jobs the queries of app/publish/scheduler.py pick: `scan_once`, `recover_stale`,
-- `mark_publishing`, and what the runner does not ask.
use mathlib.Core.Option
use nbdpsy_mcp.Prelude.{
  ℕ, ◌+◌, ◌-◌, ◌<◌, Bool, true, false, Option, none, some, ◌≡◌, refl, ap, ◌∙◌, arith, [], ◌∷◌, ◌==◌,
  map, contains, select, inl, inr, Bool-cases,
}
use nbdpsy_mcp.Table.{find, find-update_where, key-find, apply_if}
use nbdpsy_mcp.Table.Unique.{Unique, passes}
use nbdpsy_mcp.Publish.Job.{pending, PublishJob, is_pending}
use nbdpsy_mcp.Publish.Store.{
  Jobs, find_job, scan_once, is_ready, mark_publishing, claim, account_cooldown_gate, gate_job,
  last_started, cooldown_left, defer_or_pass, is_claimable, defer, modify,
}
use nbdpsy_mcp.Publish.Spacing.{mark-claims, mark-Unique, found-claim}

module _ (now : ℕ) where
  scan-missing :
      (k : ℕ) (jobs : Jobs)
      → find_job k jobs ≡ none
      → contains (map (λ j. j.id) (select (is_ready now) jobs)) k ≡ false
  unfolding find
  scan-missing k [] h = refl
  scan-missing k (j ∷ jobs) h = ground (arith, scan-missing k jobs)

  -- In a table with distinct ids, the scan picks a job exactly if its row is there, waits, and
  -- neither its schedule nor its next retry lies in the future.
  pub scan_once-picks :
      (k : ℕ) (jobs : Jobs)
      → Unique (λ j. j.id) jobs
      → contains (scan_once now jobs) k ≡ passes (is_ready now) (find_job k jobs)
  unfolding scan_once find
  scan_once-picks k [] u = refl
  scan_once-picks k (j ∷ jobs) u = elim (Bool-cases (j.id == k)) [
    | inl e ↦ ground (arith, scan_once-picks k jobs u.1, u.0, scan-missing k jobs)
    | inr e ↦ ground (arith, scan_once-picks k jobs u.1)
  ]

-- In a table with distinct ids, of two claims of one job, at any two moments with nothing in
-- between, the second fails: the claim is exclusive.
pub mark_publishing-once :
    (now moment k : ℕ) (jobs : Jobs)
    → Unique (λ j. j.id) jobs
    → (mark_publishing moment k (mark_publishing now k jobs).1).0 ≡ false
mark_publishing-once now moment k jobs u =
    mark-claims moment k (mark_publishing now k jobs).1 (mark-Unique now k jobs u)
    ∙ ap (passes (λ j. is_pending j.status)) (found-claim now k jobs k)
    ∙ claimed (find_job k jobs) refl
  where
    claimed :
        (o : Option PublishJob)
        → find_job k jobs ≡ o
        → passes (λ j. is_pending j.status) (Option.map (apply_if (is_claimable k) (claim now)) o)
          ≡ false
    claimed none e = refl
    claimed (some x) e = ground (arith, key-find (λ j. j.id) k jobs x e)

-- The runner asks for neither the schedule nor the backoff of its job: in a table with distinct
-- ids, a waiting job whose next retry lies in the future, on an account with no other publication,
-- is not picked by the scan, and yet passes the gate and is claimed, once the queue holds it.
pub claim-ignores_backoff :
    (now interval k t : ℕ) (jobs : Jobs) (x : PublishJob)
    → Unique (λ j. j.id) jobs
    → find_job k jobs ≡ some x
    → x.status ≡ pending
    → x.next_retry_at ≡ some t
    → now < t
    → last_started x.account_id k jobs ≡ none
    → (contains (scan_once now jobs) k ≡ false)
      × (account_cooldown_gate now interval k jobs ≡ (true, jobs))
      × ((mark_publishing now k jobs).0 ≡ true)
unfolding account_cooldown_gate
claim-ignores_backoff now interval k t jobs x u e p next future alone = (
  scan_once-picks now k jobs u ∙ ground (arith, e),
  rw (e, gate_job, p, alone),
  mark-claims now k jobs u ∙ ground (arith, e),
)

left_early :
    (now interval last : ℕ)
    → now < last + interval
    → cooldown_left now interval (some last) ≡ some (last + interval - now)
left_early now interval last h = ground arith

left_over : (interval last : ℕ) → cooldown_left (last + interval) interval (some last) ≡ none
left_over interval last = ground arith

-- What the gate does with a waiting job.
gate_waiting :
    (now interval k : ℕ) (jobs : Jobs) (x : PublishJob)
    → find_job k jobs ≡ some x
    → x.status ≡ pending
    → account_cooldown_gate now interval k jobs
      ≡ defer_or_pass now k jobs (cooldown_left now interval (last_started x.account_id k jobs))
unfolding account_cooldown_gate
gate_waiting now interval k jobs x e p = rw (e, gate_job, p)

-- A job that the gate holds back waits until the latest start that counts and the interval drawn
-- have passed; from then on the same draw lets it pass.
pub gate-defers :
    (now interval k last : ℕ) (jobs : Jobs) (x : PublishJob)
    → find_job k jobs ≡ some x
    → x.status ≡ pending
    → last_started x.account_id k jobs ≡ some last
    → now < last + interval
    → ((account_cooldown_gate now interval k jobs).0 ≡ false)
      × (find_job k (account_cooldown_gate now interval k jobs).1
          ≡ some (record x { next_retry_at = some (last + interval) }))
      × ((account_cooldown_gate (last + interval) interval k jobs).0 ≡ true)
gate-defers now interval k last jobs x e p found early = (
  ap (λ (g : Bool × Jobs). g.0) held,
  ap (λ (g : Bool × Jobs). find_job k g.1) held
      ∙ find-update_where (λ j. j.id) k (λ j. j.id == k) (defer now (last + interval - now)) jobs
          (λ j. refl)
      ∙ ground (arith, e, key-find (λ j. j.id) k jobs x e),
  ap (λ (g : Bool × Jobs). g.0) let_through,
)
  where
    held :
        account_cooldown_gate now interval k jobs
        ≡ (false, modify k (defer now (last + interval - now)) jobs)
    held =
        gate_waiting now interval k jobs x e p
        ∙ ap (λ o. defer_or_pass now k jobs (cooldown_left now interval o)) found
        ∙ ap (defer_or_pass now k jobs) (left_early now interval last early)

    let_through : account_cooldown_gate (last + interval) interval k jobs ≡ (true, jobs)
    let_through =
        gate_waiting (last + interval) interval k jobs x e p
        ∙ ap
            (λ o.
              defer_or_pass (last + interval) k jobs (cooldown_left (last + interval) interval o))
            found
        ∙ ap (defer_or_pass (last + interval) k jobs) (left_over interval last)
