-- ===== src/Publish/Runner.antt =====
-- The process around the job table: the queue of app/publish/queue.py, the runners that
-- `make_publish_runner` builds (app/publish/scheduler.py), the lock of each account
-- (app/browser/account_locks.py), the set of jobs in flight and the scheduler's loop. The runners
-- interleave at their awaits: each constructor of `Step` is what one of them does between two.
use nbdpsy_mcp.Prelude.{
  ℕ, ◌+◌, ◌≤◌, true, List, [], ◌∷◌, ◌++◌, Option, none, some, ◌≡◌, ◌==◌, not, if◌then◌else◌, update,
  select,
}
use nbdpsy_mcp.Table.{update_where}
use nbdpsy_mcp.Publish.Job.{PublishJob, PublishResult, Settings, seconds, is_pending}
use nbdpsy_mcp.Publish.Store.{
  Jobs, find_job, scan_once, recover_stale, account_cooldown_gate, mark_publishing, finish, modify,
  is_claimable,
}
use nbdpsy_mcp.Publish.Edits.{cancel, Changes, apply_changes}

-- Where a runner stands: it waits for the lock of the job's account, has the lock, has passed the
-- cooldown gate, or has claimed the job and publishes it.
pub data Phase : Type 0 where
  idle : Phase
  waiting locked cleared running : ℕ → ℕ → Phase

-- Who holds an account's lock: a runner, or another task (a cookie check, an export, a deletion).
pub data Owner : Type 0 where
  runner task : ℕ → Owner

pub record System : Type 0 where
  pub jobs : Jobs
  pub now : ℕ
  pub queue : List ℕ
  pub in_flight : List ℕ
  pub phase : ℕ → Phase
  pub held : ℕ → Option Owner

-- The first read of `publish_runner`: a job that is gone or not pending is left.
abbrev pub begin_run : ℕ → Option PublishJob → Phase
begin_run k none = idle
begin_run k (some job) = if is_pending job.status then waiting k job.account_id else idle

abbrev pub discard : ℕ → List ℕ → List ℕ
discard k l = select (λ j. not (j == k)) l

abbrev pub enter : System → ℕ → Phase → System
enter s w p = record s { phase = update s.phase w p }

-- The runner leaves the critical section.
abbrev pub leave : System → ℕ → ℕ → System
leave s w a = record s { phase = update s.phase w idle; held = update s.held a none }

unfoldable pub take_job : System → ℕ → ℕ → List ℕ → System
take_job s w k rest = enter (record s { queue = rest }) w (begin_run k (find_job k s.jobs))

unfoldable pub acquire : System → ℕ → ℕ → ℕ → System
acquire s w k a = enter (record s { held = update s.held a (some (runner w)) }) w (locked k a)

unfoldable pub pass_gate : System → ℕ → ℕ → ℕ → ℕ → System
pass_gate s w k a interval =
    let gated = account_cooldown_gate s.now interval k s.jobs in
    let s' = record s { jobs = gated.1 } in
    if gated.0 then enter s' w (cleared k a) else leave s' w a

unfoldable pub claim_job : System → ℕ → ℕ → ℕ → System
claim_job s w k a =
    let marked = mark_publishing s.now k s.jobs in
    let s' = record s { jobs = marked.1 } in
    if marked.0
    then enter (record s' { in_flight = k ∷ s.in_flight }) w (running k a)
    else leave s' w a

-- The result is what `publish_once` returned, or the failure that the `except` makes of an exception.
unfoldable pub finish_job : Settings → System → ℕ → ℕ → ℕ → ℕ → PublishResult → System
finish_job cfg s w k a jitter r =
    leave
      (record s { jobs = finish cfg s.now jitter k r s.jobs; in_flight = discard k s.in_flight }) w
      a

-- A crash or a restart of the process: the table is what is left.
unfoldable pub restart : System → System
restart s = record {
  jobs = s.jobs;
  now = s.now;
  queue = [];
  in_flight = [];
  phase = λ w. idle;
  held = λ a. none;
}

-- `cancel` and `patch` are the writes of the two handlers, whatever was read before. A new job
-- waits, under an id that the database gives.
pub data Step (cfg : Settings) (s : System) : System → Type 0 where
  take_next :
      (w k : ℕ) (rest : List ℕ)
      → s.phase w ≡ idle
      → s.queue ≡ k ∷ rest
      → Step cfg s (take_job s w k rest)
  get_lock : (w k a : ℕ) → s.phase w ≡ waiting k a → s.held a ≡ none → Step cfg s (acquire s w k a)
  gate :
      (w k a interval : ℕ)
      → s.phase w ≡ locked k a
      → seconds cfg.publish_min_interval_min ≤ interval
      → Step cfg s (pass_gate s w k a interval)
  mark : (w k a : ℕ) → s.phase w ≡ cleared k a → Step cfg s (claim_job s w k a)
  end :
      (w k a jitter : ℕ) (r : PublishResult)
      → s.phase w ≡ running k a
      → Step cfg s (finish_job cfg s w k a jitter r)
  tick : (d : ℕ) → Step cfg s (record s { now = s.now + d })
  recover : Step cfg s (record s { jobs = (recover_stale cfg s.now s.in_flight s.jobs).0 })
  scan : Step cfg s (record s { queue = s.queue ++ scan_once s.now s.jobs })
  submit : (k : ℕ) → Step cfg s (record s { queue = s.queue ++ k ∷ [] })
  create :
      (j : PublishJob)
      → find_job j.id s.jobs ≡ none
      → is_pending j.status ≡ true
      → Step cfg s (record s { jobs = s.jobs ++ j ∷ [] })
  cancel_write : (k : ℕ) → Step cfg s (record s { jobs = modify k cancel s.jobs })
  patch_write :
      (k : ℕ) (c : Changes)
      → Step cfg s (record s { jobs = update_where (is_claimable k) (apply_changes c) s.jobs })
  borrow :
      (i a : ℕ) → s.held a ≡ none → Step cfg s (record s { held = update s.held a (some (task i)) })
  give_back :
      (i a : ℕ) → s.held a ≡ some (task i) → Step cfg s (record s { held = update s.held a none })
  crash : Step cfg s (restart s)

pub data Reach (cfg : Settings) (s : System) : System → Type 0 where
  here : Reach cfg s s
  next : {t u : System} → Reach cfg s t → Step cfg t u → Reach cfg s u

-- A process that has just started over a table.
abbrev pub started : Jobs → ℕ → System
started jobs now = record {
  jobs = jobs;
  now = now;
  queue = [];
  in_flight = [];
  phase = λ w. idle;
  held = λ a. none;
}
