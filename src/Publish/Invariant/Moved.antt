-- ===== src/Publish/Invariant/Moved.antt =====
-- A step keeps what the phases of the runners that it does not move say.
use nbdpsy_mcp.Prelude.{
  ℕ, ◌≤◌, Bool, true, false, some, ◌≡◌, ◌≢◌, refl, sym, ◌∙◌, ap, arith, contains, some_inj,
}
use mathlib.Core.Path.{subst}
use nbdpsy_mcp.Publish.Job.{PublishJob, Settings, is_pending, is_publishing}
use nbdpsy_mcp.Publish.Store.{Jobs, find_job}
use nbdpsy_mcp.Publish.Rows.{Calm}
use nbdpsy_mcp.Publish.Spacing.{Cooled-Calm}
use nbdpsy_mcp.Publish.Runner.{Phase, idle, waiting, locked, cleared, running, System}
use nbdpsy_mcp.Publish.Invariant.Defs.{section, min_gap, Known, Owned, Fits, Inv}
use nbdpsy_mcp.Publish.Busy.{NotPending}

pub Known-Calm :
    {jobs jobs' : Jobs} (k : ℕ) {a : ℕ} → Calm jobs jobs' → Known jobs k a → Known jobs' k a
Known-Calm k calm (x, e, same) =
    let (y, e', ev) = calm.keeps k x e in (y, e', ev.same_account ∙ same)

-- The lock excludes: two runners in the critical section of one account are one.
pub exclusive :
    {cfg : Settings} {s : System}
    → Inv cfg s
    → (v w a : ℕ) → section (s.phase v) ≡ some a
    → section (s.phase w) ≡ some a
    → v ≡ w
exclusive inv v w a hv hw = ground (arith, inv.locks v a hv, inv.locks w a hw)

-- Two runners in critical sections have different jobs.
pub apart :
    {cfg : Settings} {s : System}
    → Inv cfg s
    → (v w k l a b : ℕ) → v ≢ w
    → section (s.phase v) ≡ some b
    → section (s.phase w) ≡ some a
    → Known s.jobs l b
    → Known s.jobs k a
    → k ≢ l
apart {s = s} inv v w k l a b ne hv hw (y, ey, by') (x, ex, ax) same =
    let rows : x ≡ y = some_inj (sym ex ∙ ap (λ i. find_job i s.jobs) same ∙ ey) in
    let accounts : a ≡ b = sym ax ∙ ap (λ r. r.account_id) rows ∙ by' in
    ne (exclusive inv v w b hv (hw ∙ ap some accounts))

-- A runner that has passed the gate, or has the lock, sees no one publish its job.
pub unpublished :
    {cfg : Settings} {s : System}
    → Inv cfg s
    → (w k a : ℕ) (x : PublishJob) → section (s.phase w) ≡ some a
    → s.phase w ≢ running k a
    → Owned s k a
    → find_job k s.jobs ≡ some x
    → is_publishing x.status ≡ false
unpublished {s = s} inv w k a x inside other owned e = go (is_publishing x.status) refl
  where
    go : (b : Bool) → is_publishing x.status ≡ b → b ≡ false
    go false h = refl
    go true h =
        let (v, r) = owned x e h in
        let same : v ≡ w = exclusive inv v w a (ap section r) inside in
        absurd (other (ap s.phase (sym same) ∙ r))

-- `v` is a runner that the step does not move.
pub record Moved (s s' : System) (v : ℕ) : Type 0 where
  pub calm : Calm s.jobs s'.jobs
  pub time : s.now ≤ s'.now
  pub stays : s'.phase v ≡ s.phase v
  pub flight :
      (k a : ℕ)
      → s.phase v ≡ running k a
      → contains s.in_flight k ≡ true
      → contains s'.in_flight k ≡ true
  pub busy :
      (k a : ℕ)
      → s.phase v ≡ running k a
      → contains s.in_flight k ≡ true
      → (x : PublishJob) → find_job k s.jobs ≡ some x
      → NotPending s.jobs k
      → NotPending s'.jobs k
  pub owned : (k a : ℕ) → Owned s k a → Owned s' k a

module _ {cfg : Settings} {s s' : System} {v : ℕ} (inv : Inv cfg s) (m : Moved s s' v) where
  -- A job that waits now has waited, unless it was being published, which the lock excludes.
  waited :
      (k a : ℕ) (y : PublishJob)
      → Known s.jobs k a
      → Owned s k a
      → s.phase v ≡ cleared k a
      → find_job k s'.jobs ≡ some y
      → is_pending y.status ≡ true
      → (x : PublishJob) × (find_job k s.jobs ≡ some x) × (is_pending x.status ≡ true)
  waited k a y known owned at e p =
      let (x, found, _) = known in
      let (y', found', ev) = m.calm.keeps k x found in
      let still = unpublished inv v k a x (ap section at) (λ r. cc (at, r)) owned found in
      let same : y' ≡ y = cc (found', e) in
      (x, found, ground (arith, ev.terminal, ap (λ r. r.status) same))

  Fits-phase : (p : Phase) → s.phase v ≡ p → Fits cfg s p → Fits cfg s' p
  Fits-phase idle at f = tt
  Fits-phase (waiting k a) at (known, owned) = (Known-Calm k m.calm known, m.owned k a owned)
  Fits-phase (locked k a) at (known, owned) = (Known-Calm k m.calm known, m.owned k a owned)
  Fits-phase (cleared k a) at (known, owned, cool) = (
    Known-Calm k m.calm known,
    m.owned k a owned,
    λ y e p.
        let (x, found, waits) = waited k a y known owned at e p in
        Cooled-Calm (min_gap cfg) m.calm m.time (cool x found waits),
  )
  Fits-phase (running k a) at (known, busy, flying) =
      (Known-Calm k m.calm known, m.busy k a at flying known.0 known.1 busy, m.flight k a at flying)

  pub Fits-Moved : Fits cfg s' (s'.phase v)
  Fits-Moved = subst (Fits cfg s') (sym m.stays) (Fits-phase (s.phase v) refl (inv.fits v))
