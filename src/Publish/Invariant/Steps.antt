-- ===== src/Publish/Invariant/Steps.antt =====
-- Each step of `Step` but the claim keeps the invariant.
use nbdpsy_mcp.Prelude.{
  ℕ, ◌≤◌, Bool, true, List, none, some, ◌≡◌, ◌≢◌, refl, sym, ◌∙◌, ap, arith, contains, inl, inr,
  update, ◌==◌, Bool-cases, ==_iff, some_inj, contains-select_ne,
}
use mathlib.Core.Path.{subst}
use native.Mathlib.Nat.{le_refl}
use nbdpsy_mcp.Publish.Job.{PublishJob, PublishResult, Settings, is_pending, is_publishing}
use nbdpsy_mcp.Publish.Store.{Jobs, find_job, finish, account_cooldown_gate}
use nbdpsy_mcp.Publish.Rows.{Calm, Calm-refl, Calm-finish, Calm-gate}
use nbdpsy_mcp.Publish.Spacing.{Cooled, Cooled-Calm, gate-Cooled}
use nbdpsy_mcp.Publish.Runner.{
  Phase, idle, waiting, locked, cleared, running, System, leave, enter, begin_run, take_job,
  acquire, pass_gate, finish_job, restart, discard,
}
use nbdpsy_mcp.Publish.Invariant.Defs.{section, min_gap, Known, Owned, Fits, Inv}
use nbdpsy_mcp.Publish.Busy.{NotPending, NotPending-finish, NotPending-gate, finish-ends}
use nbdpsy_mcp.Publish.Invariant.Moved.{Known-Calm, apart}
use nbdpsy_mcp.Publish.Invariant.Ambient.{Owned-Calm}
use nbdpsy_mcp.Publish.Invariant.Move.{
  update_other, begin_run-Fits, move-Inv, keep_locks, leave_locks,
}

module _ {cfg : Settings} (s : System) (inv : Inv cfg s) where
  -- A runner that does not publish moves to a phase where it does not publish either.
  pub quiet-Owned :
      (s' : System) (w : ℕ) (p : Phase)
      → s'.phase ≡ update s.phase w p
      → Calm s.jobs s'.jobs
      → ((k a : ℕ) → s.phase w ≢ running k a)
      → (k a : ℕ) → Owned s k a
      → Owned s' k a
  quiet-Owned s' w p phases calm quiet k a = Owned-Calm s s' calm k a (λ v y r e h.
      ap (λ (f : ℕ → Phase). f v) phases
      ∙ update_other s.phase w v p (λ same. quiet k a (ap s.phase (sym same) ∙ r))
      ∙ r)

  pub take_job-Inv : (w k : ℕ) (rest : List ℕ) → s.phase w ≡ idle → Inv cfg (take_job s w k rest)
  unfolding take_job
  take_job-Inv w k rest at =
      let s' = take_job s w k rest in
      move-Inv inv (record {
        calm = Calm-refl s.jobs;
        time = omega arith;
        phases = refl;
        flight = λ v l a ne r h. h;
        busy = λ v l a ne r f b. b;
        owned =
            quiet-Owned s' w (begin_run k (find_job k s.jobs)) refl (Calm-refl s.jobs)
              (λ l a r. cc (at, r));
        fits = begin_run-Fits cfg s' k (find_job k s.jobs) refl;
        locks = keep_locks inv w (begin_run k (find_job k s.jobs)) (λ a. ground arith);
      })

  pub acquire-Inv :
      (w k a : ℕ) → s.phase w ≡ waiting k a → s.held a ≡ none → Inv cfg (acquire s w k a)
  unfolding acquire
  acquire-Inv w k a at free =
      let s' = acquire s w k a in
      let owned = quiet-Owned s' w (locked k a) refl (Calm-refl s.jobs) (λ l b r. cc (at, r)) in
      let before = subst (Fits cfg s) at (inv.fits w) in
      move-Inv inv (record {
        calm = Calm-refl s.jobs;
        time = omega arith;
        phases = refl;
        flight = λ v l b ne r h. h;
        busy = λ v l b ne r f c. c;
        owned = owned;
        fits = (before.0, owned k a before.1);
        locks = λ v b h. ground (arith, inv.locks v b);
      })

  -- The runner goes idle and gives its lock back.
  pub leave-Inv :
      (w k a : ℕ) (jobs : Jobs) (flights : List ℕ)
      → section (s.phase w) ≡ some a
      → Calm s.jobs jobs
      → ((v l b : ℕ)
          → v ≢ w
          → s.phase v ≡ running l b
          → contains s.in_flight l ≡ true
          → contains flights l ≡ true)
      → ((v l b : ℕ)
          → v ≢ w
          → s.phase v ≡ running l b
          → contains s.in_flight l ≡ true
          → NotPending s.jobs l
          → NotPending jobs l)
      → ((l b : ℕ)
          → Owned s l b
          → Owned (leave (record s { jobs = jobs; in_flight = flights }) w a) l b)
      → Inv cfg (leave (record s { jobs = jobs; in_flight = flights }) w a)
  leave-Inv w k a jobs flights inside calm flight busy owned = move-Inv inv (record {
    calm = calm;
    time = omega arith;
    phases = refl;
    flight = flight;
    busy = busy;
    owned = owned;
    fits = tt;
    locks = leave_locks inv w a inside;
  })

  gated-Fits :
      (w k a interval : ℕ)
      → s.phase w ≡ locked k a
      → min_gap cfg ≤ interval
      → (account_cooldown_gate s.now interval k s.jobs).0 ≡ true
      → Fits cfg
          (enter
            (record s { jobs = (account_cooldown_gate s.now interval k s.jobs).1 })
            w
            (cleared k a))
          (cleared k a)
  gated-Fits w k a interval at long open_gate = (
    Known-Calm k calm before.0,
    quiet-Owned s' w (cleared k a) refl calm (λ l b r. cc (at, r)) k a before.1,
    cool before.0,
  )
    where
      jobs' : Jobs
      jobs' = (account_cooldown_gate s.now interval k s.jobs).1

      s' : System
      s' = enter (record s { jobs = jobs' }) w (cleared k a)

      calm : Calm s.jobs jobs'
      calm = Calm-gate s.now interval k s.jobs

      before : Known s.jobs k a × Owned s k a
      before = subst (Fits cfg s) at (inv.fits w)

      cool :
          Known s.jobs k a
          → (y : PublishJob) → find_job k jobs' ≡ some y
          → is_pending y.status ≡ true
          → Cooled (min_gap cfg) s.now jobs' k a
      cool (x, e, same) y ey waits = elim (Bool-cases (is_pending x.status)) [
        | inl p ↦ Cooled-Calm (min_gap cfg) calm (le_refl s.now) (λ l z t ez ne az active start.
            omega (
              arith,
              gate-Cooled s.now interval k s.jobs x e p open_gate l z t ez ne (az ∙ sym same) active
                  start,
            ))
        | inr p ↦ absurd (
            cc (
              waits,
              NotPending-gate s.now interval k k s.jobs
                  (λ z ez. ap (λ r. is_pending r.status) (some_inj (sym ez ∙ e)) ∙ p) y ey,
            ))
      ]

  pub pass_gate-Inv :
      (w k a interval : ℕ)
      → s.phase w ≡ locked k a
      → min_gap cfg ≤ interval
      → Inv cfg (pass_gate s w k a interval)
  unfolding pass_gate
  pass_gate-Inv w k a interval at long = elim (Bool-cases gated.0) [
    | inl open_gate ↦ rw open_gate (
        move-Inv inv (record {
          calm = Calm-gate s.now interval k s.jobs;
          time = omega arith;
          phases = refl;
          flight = λ v l b ne r h. h;
          busy = λ v l b ne r f. NotPending-gate s.now interval k l s.jobs;
          owned =
              quiet-Owned (enter s' w (cleared k a)) w (cleared k a) refl
                (Calm-gate s.now interval k s.jobs) (λ l b r. cc (at, r));
          fits = gated-Fits w k a interval at long open_gate;
          locks = keep_locks inv w (cleared k a) (λ b h. inv.locks w b (ap section at ∙ h));
        }))
    | inr closed ↦ rw closed (
        leave-Inv w k a gated.1 s.in_flight (ap section at) (Calm-gate s.now interval k s.jobs)
          (λ v l b ne r h. h) (λ v l b ne r f. NotPending-gate s.now interval k l s.jobs)
          (quiet-Owned (leave s' w a) w idle refl (Calm-gate s.now interval k s.jobs)
            (λ l b r. cc (at, r))))
  ]
    where
      gated : Bool × Jobs
      gated = account_cooldown_gate s.now interval k s.jobs

      s' : System
      s' = record s { jobs = gated.1 }

  pub finish_job-Inv :
      (w k a jitter : ℕ) (r : PublishResult)
      → s.phase w ≡ running k a
      → Inv cfg (finish_job cfg s w k a jitter r)
  unfolding finish_job
  finish_job-Inv w k a jitter r at =
      leave-Inv w k a jobs' (discard k s.in_flight) (ap section at) calm
        (λ v l b ne rl f. contains-select_ne k l s.in_flight (differ v l b ne rl) f)
        (λ v l b ne rl f. NotPending-finish cfg s.now jitter k l r s.jobs (differ v l b ne rl))
        (λ l b. Owned-Calm s s' calm l b (λ v y rv e busy. stays l b v y rv e busy))
    where
      jobs' : Jobs
      jobs' = finish cfg s.now jitter k r s.jobs

      s' : System
      s' = leave (record s { jobs = jobs'; in_flight = discard k s.in_flight }) w a

      calm : Calm s.jobs jobs'
      calm = Calm-finish cfg s.now jitter k r s.jobs

      own : (v l b : ℕ) → s.phase v ≡ running l b → Known s.jobs l b
      own v l b rl = (subst (Fits cfg s) rl (inv.fits v)).0

      differ : (v l b : ℕ) → v ≢ w → s.phase v ≡ running l b → k ≢ l
      differ v l b ne rl =
          apart inv v w k l a b ne (ap section rl) (ap section at) (own v l b rl) (own w k a at)

      stays :
          (l b v : ℕ) (y : PublishJob)
          → s.phase v ≡ running l b
          → find_job l jobs' ≡ some y
          → is_publishing y.status ≡ true
          → s'.phase v ≡ running l b
      stays l b v y rv e busy = elim (Bool-cases (w == v)) [
        | inl same ↦
            let q : k ≡ l = cc (at, rv, ap s.phase ((==_iff w v).0 same)) in
            absurd (
              cc (
                busy,
                finish-ends cfg s.now jitter k r s.jobs y (ap (λ i. find_job i jobs') q ∙ e),
              ))
        | inr other ↦ ground (arith, rv)
      ]

  pub crash-Inv : Inv cfg (restart s)
  unfolding restart
  crash-Inv = record {
    unique = inv.unique;
    locks = λ w a h. cc;
    fits = λ w. tt;
    spaced = inv.spaced;
  }
