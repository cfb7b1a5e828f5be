-- ===== src/Publish/Invariant/Defs.antt =====
-- What holds between two steps of the publishing process (app/publish/scheduler.py,
-- app/browser/account_locks.py).
use nbdpsy_mcp.Prelude.{ℕ, true, Option, none, some, ◌≡◌}
use nbdpsy_mcp.Table.Unique.{Unique}
use nbdpsy_mcp.Prelude.{contains}
use nbdpsy_mcp.Publish.Job.{PublishJob, Settings, seconds, is_pending, is_publishing}
use nbdpsy_mcp.Publish.Store.{Jobs, find_job}
use nbdpsy_mcp.Publish.Busy.{NotPending}
use nbdpsy_mcp.Publish.Spacing.{Spaced, Cooled}
use nbdpsy_mcp.Publish.Runner.{Phase, idle, waiting, locked, cleared, running, runner, System}

-- The account whose lock a runner has.
abbrev pub section : Phase → Option ℕ
section idle = none
section (waiting k a) = none
section (locked k a) = some a
section (cleared k a) = some a
section (running k a) = some a

abbrev pub min_gap : Settings → ℕ
min_gap cfg = seconds cfg.publish_min_interval_min

-- The job's row is there, on the account that the runner read.
abbrev pub Known : Jobs → ℕ → ℕ → Type 0
Known jobs k a = (x : PublishJob) × (find_job k jobs ≡ some x) × (x.account_id ≡ a)

-- Whoever publishes the job is a runner of this process.
abbrev pub Owned : System → ℕ → ℕ → Type 0
Owned s k a =
    (x : PublishJob)
    → find_job k s.jobs ≡ some x
    → is_publishing x.status ≡ true
    → (v : ℕ) × (s.phase v ≡ running k a)

-- What the phase of a runner says about the rest of the system.
abbrev pub Fits : Settings → System → Phase → Type 0
Fits cfg s idle = Unit
Fits cfg s (waiting k a) = Known s.jobs k a × Owned s k a
Fits cfg s (locked k a) = Known s.jobs k a × Owned s k a
Fits cfg s (cleared k a) =
    Known s.jobs k a
    × Owned s k a
    × ((x : PublishJob)
        → find_job k s.jobs ≡ some x
        → is_pending x.status ≡ true
        → Cooled (min_gap cfg) s.now s.jobs k a)
Fits cfg s (running k a) = Known s.jobs k a × NotPending s.jobs k × (contains s.in_flight k ≡ true)

pub record Inv (cfg : Settings) (s : System) : Type 0 where
  pub unique : Unique (λ j. j.id) s.jobs
  pub locks : (w a : ℕ) → section (s.phase w) ≡ some a → s.held a ≡ some (runner w)
  pub fits : (w : ℕ) → Fits cfg s (s.phase w)
  pub spaced : Spaced (min_gap cfg) s.jobs
