-- ===== src/Publish/Safety.antt =====
-- What holds in every state that the publishing process (app/publish/scheduler.py,
-- app/publish/queue.py, app/browser/account_locks.py) reaches, in any order of steps.
use nbdpsy_mcp.Prelude.{ℕ, ◌≡◌, true, false, some, refl, ap, ◌∙◌, arith, contains}
use nbdpsy_mcp.Table.{find-update_where, key-find}
use nbdpsy_mcp.Table.Unique.{Unique, passes}
use mathlib.Core.Path.{subst}
use nbdpsy_mcp.Publish.Job.{Settings, is_pending}
use nbdpsy_mcp.Publish.Store.{
  Jobs, find_job, mark_publishing, recover_stale, is_stale, back_to_pending,
}
use nbdpsy_mcp.Publish.Spacing.{Spaced, mark-claims, mark-fails}
use nbdpsy_mcp.Publish.Runner.{System, running, Reach, started}
use nbdpsy_mcp.Publish.Invariant.Defs.{section, min_gap, Fits, Inv}
use nbdpsy_mcp.Publish.Invariant.Moved.{exclusive}
use nbdpsy_mcp.Publish.Invariant.Reached.{Reach-Inv, started-Inv}

module _ (cfg : Settings) (jobs : Jobs) (now : ℕ) (t : System) (unique : Unique (λ j. j.id) jobs)
    (spaced : Spaced (min_gap cfg) jobs) (r : Reach cfg (started jobs now) t) where
  reached : Inv cfg t
  reached = Reach-Inv (started-Inv cfg jobs now unique spaced) r

  -- If the table that a process starts over has distinct ids, and any two published or publishing
  -- jobs of one account in it start at least the minimal interval apart, then the same distance
  -- holds in every state that the process reaches: over every interleaving of runners, handlers
  -- and recovery, over crashes, and for every draw that is at least the minimum.
  pub Reach-Spaced : Spaced (min_gap cfg) t.jobs
  Reach-Spaced = reached.spaced

  -- In every state that a process reaches from a table with distinct ids whose active jobs of one
  -- account start at least the minimal interval apart, two runners in the critical
  -- section of one account are the same runner.
  pub Reach-exclusive :
      (v w a : ℕ) → section (t.phase v) ≡ some a → section (t.phase w) ≡ some a → v ≡ w
  Reach-exclusive = exclusive reached

  busy_row : (w k a : ℕ) → t.phase w ≡ running k a → Fits cfg t (running k a)
  busy_row w k a at = subst (Fits cfg t) at (reached.fits w)

  -- In every state that a process reaches from a table with distinct ids whose active jobs of one
  -- account start at least the minimal interval apart, while a runner publishes a
  -- job, no claim of that job succeeds at any moment, and a claim that is tried changes nothing in the table.
  pub running-not_claimed :
      (w k a moment : ℕ)
      → t.phase w ≡ running k a
      → mark_publishing moment k t.jobs ≡ (false, t.jobs)
  running-not_claimed w k a moment at =
      let (known, busy, _) = busy_row w k a at in
      let missed : (mark_publishing moment k t.jobs).0 ≡ false =
        mark-claims moment k t.jobs reached.unique
        ∙ ap (passes (λ j. is_pending j.status)) known.1
        ∙ busy known.0 known.1 in
      λ i. (missed i, mark-fails moment k t.jobs reached.unique missed i)

  -- In every state that a process reaches from a table with distinct ids whose active jobs of one
  -- account start at least the minimal interval apart, the recovery of stale jobs
  -- leaves the row of a job that a runner publishes as it is, however long ago it started.
  pub running-not_recovered :
      (w k a moment : ℕ)
      → t.phase w ≡ running k a
      → find_job k (recover_stale cfg moment t.in_flight t.jobs).0 ≡ find_job k t.jobs
  unfolding recover_stale
  running-not_recovered w k a moment at =
      let (known, _, flying) = busy_row w k a at in
      let (x, e, _) = known in
      let flown : contains t.in_flight x.id ≡ true =
        ap (contains t.in_flight) (key-find (λ j. j.id) k t.jobs x e) ∙ flying in
      find-update_where (λ j. j.id) k (is_stale cfg moment t.in_flight) back_to_pending t.jobs
        (λ j. refl)
      ∙ ground (arith, e, flown)
