-- ===== src/Publish/Invariant/Ambient.antt =====
-- A step of the rest of the system, which moves no runner, keeps the invariant.
use nbdpsy_mcp.Prelude.{ℕ, ◌+◌, ◌≤◌, true, List, Option, some, ◌≡◌, refl, ◌∙◌, ap, arith, contains}
use nbdpsy_mcp.Publish.Job.{PublishJob, Settings, is_publishing}
use nbdpsy_mcp.Publish.Store.{Jobs, find_job}
use nbdpsy_mcp.Publish.Rows.{Calm, Origin, fresh, old, Calm-refl}
use nbdpsy_mcp.Publish.Spacing.{Spaced-Calm}
use nbdpsy_mcp.Publish.Runner.{Phase, running, Owner, runner, System}
use nbdpsy_mcp.Publish.Invariant.Defs.{section, min_gap, Owned, Inv}
use nbdpsy_mcp.Publish.Busy.{NotPending}
use nbdpsy_mcp.Publish.Invariant.Moved.{Moved, Fits-Moved}

-- A publisher of the job stays its publisher, as far as the job is still being published.
pub Owned-Calm :
    (s s' : System)
    → Calm s.jobs s'.jobs
    → (k a : ℕ)
    → ((v : ℕ) (y : PublishJob)
        → s.phase v ≡ running k a
        → find_job k s'.jobs ≡ some y
        → is_publishing y.status ≡ true
        → s'.phase v ≡ running k a)
    → Owned s k a
    → Owned s' k a
Owned-Calm s s' calm k a stays owned y e h = go (calm.origin k y e)
  where
    go : Origin s.jobs k y → (v : ℕ) × (s'.phase v ≡ running k a)
    go (fresh none_before waits) = absurd (ground arith)
    go (old x found ev) = let (v, r) = owned x found (ev.publishing h) in (v, stays v y r e h)

-- A step of the rest of the system: no phase changes, and a job in flight does not wait again.
record Ambient (s s' : System) : Type 0 where
  calm : Calm s.jobs s'.jobs
  time : s.now ≤ s'.now
  phases : s'.phase ≡ s.phase
  flights : s'.in_flight ≡ s.in_flight
  busy :
      (k : ℕ)
      → contains s.in_flight k ≡ true
      → (x : PublishJob) → find_job k s.jobs ≡ some x
      → NotPending s.jobs k
      → NotPending s'.jobs k

module _ {cfg : Settings} {s s' : System} (inv : Inv cfg s) (m : Ambient s s') where
  ambient-Moved : (v : ℕ) → Moved s s' v
  ambient-Moved v = record {
    calm = m.calm;
    time = m.time;
    stays = ap (λ (f : ℕ → Phase). f v) m.phases;
    flight = λ k a at h. rw (m.flights) h;
    busy = λ k a at flying. m.busy k flying;
    owned =
        λ k a. Owned-Calm s s' m.calm k a (λ w y r e h. ap (λ (f : ℕ → Phase). f w) m.phases ∙ r);
  }

  ambient-Inv :
      ((w a : ℕ) → section (s'.phase w) ≡ some a → s'.held a ≡ some (runner w)) → Inv cfg s'
  ambient-Inv locks = record {
    unique = m.calm.unique inv.unique;
    locks = locks;
    fits = λ v. Fits-Moved inv (ambient-Moved v);
    spaced = Spaced-Calm (min_gap cfg) m.calm inv.spaced;
  }

-- The steps that leave the runners and the locks alone.
module _ {cfg : Settings} (s : System) (inv : Inv cfg s) where
  pub write-Inv :
      (jobs : Jobs)
      → Calm s.jobs jobs
      → ((k : ℕ)
          → contains s.in_flight k ≡ true
          → (x : PublishJob) → find_job k s.jobs ≡ some x
          → NotPending s.jobs k
          → NotPending jobs k)
      → Inv cfg (record s { jobs = jobs })
  write-Inv jobs calm busy =
      ambient-Inv inv
        (record { calm = calm; time = omega arith; phases = refl; flights = refl; busy = busy })
        inv.locks

  pub tick-Inv : (d : ℕ) → Inv cfg (record s { now = s.now + d })
  tick-Inv d =
      ambient-Inv inv
        (record {
          calm = Calm-refl s.jobs;
          time = omega arith;
          phases = refl;
          flights = refl;
          busy = λ k f x e b. b;
        })
        inv.locks

  pub queue-Inv : (q : List ℕ) → Inv cfg (record s { queue = q })
  queue-Inv q =
      ambient-Inv inv
        (record {
          calm = Calm-refl s.jobs;
          time = omega arith;
          phases = refl;
          flights = refl;
          busy = λ k f x e b. b;
        })
        inv.locks

  pub held-Inv :
      (held : ℕ → Option Owner)
      → ((w a : ℕ) → section (s.phase w) ≡ some a → held a ≡ some (runner w))
      → Inv cfg (record s { held = held })
  held-Inv held locks =
      ambient-Inv inv
        (record {
          calm = Calm-refl s.jobs;
          time = omega arith;
          phases = refl;
          flights = refl;
          busy = λ k f x e b. b;
        })
        locks
