-- ===== src/Publish/Examples/Outcome.antt =====
-- The theorems about the queries of the scheduler and about `finish` at concrete inputs.
use nbdpsy_mcp.Prelude.{
  ℕ, ◌+◌, ◌≤◌, true, false, List, [], ◌∷◌, some, ◌≡◌, ◌≢◌, ◌⊎◌, refl, arith, contains, length,
}
use nbdpsy_mcp.Table.{find}
use nbdpsy_mcp.Publish.Job.{pending, publishing, failed, PublishJob, is_publishing}
use nbdpsy_mcp.Publish.Store.{
  find_job, scan_once, last_started, account_cooldown_gate, mark_publishing, finish,
}
use nbdpsy_mcp.Publish.Outcome.{Settled, finish_outcome, Attempt, attempts, attempts_exhaust}
use nbdpsy_mcp.Publish.Selection.{claim-ignores_backoff, gate-defers}
use nbdpsy_mcp.Publish.Examples.Data.{settings, waiting_job, table, start_time, failure}

abbrev busy_job : PublishJob
busy_job = record waiting_job { status = publishing; started_at = some start_time }

finish_outcome_example :
    (y : PublishJob) × (find_job 1 (finish settings start_time 1000000 1 failure (busy_job ∷ []))
      ≡ some y)
    × ((((◌≢◌ {A = ℕ} 1 1) ⊎ (is_publishing busy_job.status ≡ false)) × (y ≡ busy_job))
        ⊎ ((◌≡◌ {A = ℕ} 1 1)
            × (is_publishing busy_job.status ≡ true)
            × Settled settings start_time 1000000 failure busy_job y))
unfolding find
finish_outcome_example =
    finish_outcome settings start_time 1000000 1 1 failure (busy_job ∷ []) busy_job refl

abbrev failed_attempt : Attempt
failed_attempt = record { claimed_at = 0; ended_at = 1; jitter = 1000000; result = failure }

abbrev four_failures : List Attempt
four_failures = failed_attempt ∷ failed_attempt ∷ failed_attempt ∷ failed_attempt ∷ []

attempts_exhaust_example :
    ((length four_failures ≡ 3 + 1)
      → (y : PublishJob) × (find_job 1 (attempts settings 1 four_failures table) ≡ some y)
        × (y.status ≡ failed))
    × ((length four_failures ≤ 3)
        → (y : PublishJob) × (find_job 1 (attempts settings 1 four_failures table) ≡ some y)
          × (y.status ≡ pending))
unfolding find
attempts_exhaust_example =
    attempts_exhaust settings 1 3 four_failures table (waiting_job, refl, refl, omega arith)
      (
        (refl, refl, refl, refl),
        ((refl, refl, refl, refl), ((refl, refl, refl, refl), ((refl, refl, refl, refl), tt))),
      )

-- After a failure the next retry lies ahead, and no other job of the account is published.
abbrev deferred_job : PublishJob
deferred_job = record waiting_job { retries = 1; next_retry_at = some (start_time + 120000000) }

claim-ignores_backoff_example :
    (contains (scan_once start_time (deferred_job ∷ [])) 1 ≡ false)
    × (account_cooldown_gate start_time 1200000000 1 (deferred_job ∷ [])
        ≡ (true, deferred_job ∷ []))
    × ((mark_publishing start_time 1 (deferred_job ∷ [])).0 ≡ true)
unfolding find last_started
claim-ignores_backoff_example =
    claim-ignores_backoff start_time 1200000000 1 (start_time + 120000000) (deferred_job ∷ [])
      deferred_job (refl, tt) refl refl refl (omega arith) refl

-- A minute after the publication at 1 s.
gate-defers_example :
    ((account_cooldown_gate 61000000 1200000000 1 table).0 ≡ false)
    × (find_job 1 (account_cooldown_gate 61000000 1200000000 1 table).1
        ≡ some (record waiting_job { next_retry_at = some 1201000000 }))
    × ((account_cooldown_gate 1201000000 1200000000 1 table).0 ≡ true)
unfolding find last_started
gate-defers_example =
    gate-defers 61000000 1200000000 1 1000000 table waiting_job refl refl refl (omega arith)
