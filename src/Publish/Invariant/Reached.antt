-- ===== src/Publish/Invariant/Reached.antt =====
-- The invariant at every state that the process reaches.
use nbdpsy_mcp.Prelude.{ℕ, ◌++◌, ◌∷◌, [], none, some, arith, update}
use nbdpsy_mcp.Table.Unique.{Unique}
use nbdpsy_mcp.Publish.Job.{Settings}
use nbdpsy_mcp.Publish.Store.{Jobs, recover_stale, scan_once}
use nbdpsy_mcp.Publish.Rows.{Calm-append, Calm-recover_stale, Calm-cancel, Calm-apply_changes}
use nbdpsy_mcp.Publish.Busy.{
  NotPending-recover_stale, NotPending-cancel, NotPending-apply_changes, NotPending-append,
}
use nbdpsy_mcp.Publish.Spacing.{Spaced}
use nbdpsy_mcp.Publish.Runner.{
  System, task, Step, take_next, get_lock, gate, mark, end, tick, recover, scan, submit, create,
  cancel_write, patch_write, borrow, give_back, crash, Reach, here, next, started,
}
use nbdpsy_mcp.Publish.Invariant.Defs.{min_gap, Inv}
use nbdpsy_mcp.Publish.Invariant.Ambient.{write-Inv, tick-Inv, queue-Inv, held-Inv}
use nbdpsy_mcp.Publish.Invariant.Steps.{
  take_job-Inv, acquire-Inv, pass_gate-Inv, finish_job-Inv, crash-Inv,
}
use nbdpsy_mcp.Publish.Invariant.Claim.{claim_job-Inv}

pub Step-Inv : {cfg : Settings} {s t : System} → Step cfg s t → Inv cfg s → Inv cfg t
Step-Inv {s = s} (take_next w k rest at q) inv = take_job-Inv s inv w k rest at
Step-Inv {s = s} (get_lock w k a at free) inv = acquire-Inv s inv w k a at free
Step-Inv {s = s} (gate w k a interval at long) inv = pass_gate-Inv s inv w k a interval at long
Step-Inv {s = s} (mark w k a at) inv = claim_job-Inv s inv w k a at
Step-Inv {s = s} (end w k a jitter r at) inv = finish_job-Inv s inv w k a jitter r at
Step-Inv {s = s} (tick d) inv = tick-Inv s inv d
Step-Inv {cfg} {s = s} recover inv =
    write-Inv s inv (recover_stale cfg s.now s.in_flight s.jobs).0
      (Calm-recover_stale cfg s.now s.in_flight s.jobs)
      (λ k f x e. NotPending-recover_stale cfg s.now s.in_flight k s.jobs f)
Step-Inv {s = s} scan inv = queue-Inv s inv (s.queue ++ scan_once s.now s.jobs)
Step-Inv {s = s} (submit k) inv = queue-Inv s inv (s.queue ++ k ∷ [])
Step-Inv {s = s} (create j new waits) inv =
    write-Inv s inv (s.jobs ++ j ∷ []) (Calm-append s.jobs j new waits)
      (λ k f. NotPending-append s.jobs j k)
Step-Inv {s = s} (cancel_write k) inv =
    write-Inv s inv _ (Calm-cancel k s.jobs) (λ l f x e. NotPending-cancel k l s.jobs)
Step-Inv {s = s} (patch_write k c) inv =
    write-Inv s inv _ (Calm-apply_changes k c s.jobs)
      (λ l f x e. NotPending-apply_changes k l c s.jobs)
Step-Inv {s = s} (borrow i a free) inv =
    held-Inv s inv (update s.held a (some (task i))) (λ w b h. ground (arith, inv.locks w b h))
Step-Inv {s = s} (give_back i a mine) inv =
    held-Inv s inv (update s.held a none) (λ w b h. ground (arith, inv.locks w b h))
Step-Inv {s = s} crash inv = crash-Inv s inv

pub Reach-Inv : {cfg : Settings} {s t : System} → Inv cfg s → Reach cfg s t → Inv cfg t
Reach-Inv inv here = inv
Reach-Inv inv (next r st) = Step-Inv st (Reach-Inv inv r)

-- A process that starts over a table that has the spacing.
pub started-Inv :
    (cfg : Settings) (jobs : Jobs) (now : ℕ)
    → Unique (λ j. j.id) jobs
    → Spaced (min_gap cfg) jobs
    → Inv cfg (started jobs now)
started-Inv cfg jobs now u spaced = record {
  unique = u;
  locks = λ w a h. cc;
  fits = λ w. tt;
  spaced = spaced;
}
