-- ===== src/Publish/Examples/Process.antt =====
-- The theorems about the publishing process at a run that claims a job.
use nbdpsy_mcp.Prelude.{ℕ, ◌+◌, ◌≤◌, true, false, [], ◌∷◌, some, ◌≡◌, ◌⊎◌, refl, sym, ◌∙◌, arith}
use nbdpsy_mcp.Table.{find, update_where}
use nbdpsy_mcp.Publish.Job.{publishing, PublishJob, is_active}
use nbdpsy_mcp.Publish.Store.{
  find_job, recover_stale, last_started, account_cooldown_gate, mark_publishing,
}
use nbdpsy_mcp.Publish.Runner.{
  System, started, Reach, here, next, take_next, get_lock, gate, mark, submit, take_job, acquire,
  pass_gate, claim_job,
}
use nbdpsy_mcp.Publish.Spacing.{Spaced}
use nbdpsy_mcp.Publish.Invariant.Defs.{min_gap}
use nbdpsy_mcp.Publish.Safety.{
  Reach-Spaced, Reach-exclusive, running-not_claimed, running-not_recovered,
}
use nbdpsy_mcp.Publish.Examples.Data.{
  settings, waiting_job, published_job, table, start_time, table-Unique,
}

only_published :
    (k : ℕ) (x : PublishJob) → find_job k table ≡ some x → is_active x.status ≡ true → k ≡ 2
unfolding find
only_published k x e h = ground arith

table-Spaced : Spaced (min_gap settings) table
table-Spaced k l x y s t ex ey ne same ax ay sx sy =
    absurd (ne (only_published k x ex ax ∙ sym (only_published l y ey ay)))

-- A runner takes job 1 from the queue and claims it.
abbrev claimed : System
unfolding take_job acquire pass_gate claim_job
claimed =
    claim_job
      (pass_gate
        (acquire (take_job (record (started table start_time) { queue = 1 ∷ [] }) 0 1 []) 0 1 7) 0 1
        7 1200000000)
      0 1 7

claimed-Reach : Reach settings (started table start_time) claimed
unfolding take_job acquire pass_gate claim_job account_cooldown_gate last_started mark_publishing
    find update_where
claimed-Reach =
    next
      (next
        (next (next (next here (submit 1)) (take_next 0 1 [] refl refl)) (get_lock 0 1 7 refl refl))
        (gate 0 1 7 1200000000 refl (omega arith)))
      (mark 0 1 7 refl)

-- The claim at 10,000 s comes at least 1,200 s after the publication at 1 s.
Reach-Spaced_example :
    (start_time + min_gap settings ≤ 1000000) ⊎ (1000000 + min_gap settings ≤ start_time)
unfolding claimed-Reach
Reach-Spaced_example =
    Reach-Spaced settings table start_time claimed table-Unique table-Spaced claimed-Reach 1 2
      (record waiting_job { status = publishing; started_at = some start_time }) published_job
      start_time 1000000 refl refl (λ q. absurd (omega arith)) refl refl refl refl refl

Reach-exclusive_example : ◌≡◌ {A = ℕ} 0 0
unfolding claimed-Reach
Reach-exclusive_example =
    Reach-exclusive settings table start_time claimed table-Unique table-Spaced claimed-Reach 0 0 7
      refl refl

running-not_claimed_example : mark_publishing start_time 1 claimed.jobs ≡ (false, claimed.jobs)
unfolding claimed-Reach
running-not_claimed_example =
    running-not_claimed settings table start_time claimed table-Unique table-Spaced claimed-Reach 0
      1 7 start_time refl

-- An hour later, past the timeout.
running-not_recovered_example :
    find_job 1 (recover_stale settings (start_time + 3600000000) claimed.in_flight claimed.jobs).0
    ≡ find_job 1 claimed.jobs
unfolding claimed-Reach
running-not_recovered_example =
    running-not_recovered settings table start_time claimed table-Unique table-Spaced claimed-Reach
      0 1 7 (start_time + 3600000000) refl
