-- ===== src/Publish/Rows.antt =====
-- What the operations of app/publish/scheduler.py other than the claim may do to a row, and to
-- the table as a whole.
use mathlib.Core.Option
use mathlib.Core.Path.{subst}
use nbdpsy_mcp.Prelude.{
  ℕ, Bool, true, List, [], ◌∷◌, ◌++◌, Option, none, some, ◌≡◌, refl, sym, ap, ◌∙◌, arith, inl, inr,
  some_inj, Bool-cases,
}
use nbdpsy_mcp.Table.{find-append_old, find-append_new, find-update_where, update_where, apply_if}
use nbdpsy_mcp.Table.Unique.{Unique, Unique-append, Unique-update_where}
use nbdpsy_mcp.Publish.Job.{
  PublishJob, PublishResult, Settings, is_pending, is_publishing, is_active, is_terminal,
}
use nbdpsy_mcp.Publish.Store.{
  Jobs, find_job, back_to_pending, recover_stale, modify, account_cooldown_gate, settle, finish,
  defer_or_pass, gate_job, cooldown_left, last_started, is_claimable,
}
use nbdpsy_mcp.Publish.Edits.{cancel, Changes, apply_changes}

-- The row keeps its identity, starts no publication, and stays where it is if it is finished.
pub record Evolves (x y : PublishJob) : Type 0 where
  pub same_id : y.id ≡ x.id
  pub same_account : y.account_id ≡ x.account_id
  pub publishing : is_publishing y.status ≡ true → is_publishing x.status ≡ true
  pub active :
      is_active y.status ≡ true → (is_active x.status ≡ true) × (y.started_at ≡ x.started_at)
  pub terminal : is_terminal x.status ≡ true → is_terminal y.status ≡ true

pub Evolves-refl : (x : PublishJob) → Evolves x x
Evolves-refl x = ground arith

-- Where a row of the new table comes from: it is new and waits, or an old row evolved into it.
pub data Origin (jobs : Jobs) (k : ℕ) (y : PublishJob) : Type 0 where
  fresh : find_job k jobs ≡ none → is_pending y.status ≡ true → Origin jobs k y
  old : (x : PublishJob) → find_job k jobs ≡ some x → Evolves x y → Origin jobs k y

pub record Calm (jobs jobs' : Jobs) : Type 0 where
  pub keeps :
      (k : ℕ) (x : PublishJob)
      → find_job k jobs ≡ some x
      → (y : PublishJob) × (find_job k jobs' ≡ some y) × Evolves x y
  pub origin : (k : ℕ) (y : PublishJob) → find_job k jobs' ≡ some y → Origin jobs k y
  pub unique : Unique (λ j. j.id) jobs → Unique (λ j. j.id) jobs'

pub Calm-refl : (jobs : Jobs) → Calm jobs jobs
Calm-refl jobs = record {
  keeps = λ k x h. (x, h, Evolves-refl x);
  origin = λ k y h. old y h (Evolves-refl y);
  unique = λ u. u;
}

module _ (p : PublishJob → Bool) (f : PublishJob → PublishJob) where
  abbrev Sound : Type 0
  Sound = (x : PublishJob) → p x ≡ true → Evolves x (f x)

  apply_if-Evolves : Sound → (x : PublishJob) → Evolves x (apply_if p f x)
  apply_if-Evolves sound x = elim (Bool-cases (p x)) [
    | inl e ↦ rw e (sound x e)
    | inr e ↦ rw e (Evolves-refl x)
  ]

  pub Calm-update_where :
      ((x : PublishJob) → (f x).id ≡ x.id)
      → Sound
      → (jobs : Jobs) → Calm jobs (update_where p f jobs)
  Calm-update_where same sound jobs = record {
    keeps = λ k x h.
        (apply_if p f x, found k ∙ ap (Option.map (apply_if p f)) h, apply_if-Evolves sound x);
    origin = λ k y h. from k y (find_job k jobs) refl (sym (found k) ∙ h);
    unique = Unique-update_where (λ j. j.id) p f same jobs;
  }
    where
      found :
          (k : ℕ) → find_job k (update_where p f jobs) ≡ Option.map (apply_if p f) (find_job k jobs)
      found k = find-update_where (λ j. j.id) k p f jobs same

      from :
          (k : ℕ) (y : PublishJob) (o : Option PublishJob)
          → find_job k jobs ≡ o
          → Option.map (apply_if p f) o ≡ some y
          → Origin jobs k y
      from k y none e h = cc
      from k y (some x) e h = old x e (subst (Evolves x) (some_inj h) (apply_if-Evolves sound x))

settle-Evolves :
    (cfg : Settings) (now jitter : ℕ) (r : PublishResult) (x : PublishJob)
    → is_publishing x.status ≡ true
    → Evolves x (settle cfg now jitter r x)
unfolding settle
settle-Evolves cfg now jitter r x h = ground arith

back_to_pending-Evolves :
    (x : PublishJob) → is_publishing x.status ≡ true → Evolves x (back_to_pending x)
back_to_pending-Evolves x h = ground arith

module _ (cfg : Settings) (now : ℕ) where
  pub Calm-finish :
      (jitter k : ℕ) (r : PublishResult) (jobs : Jobs) → Calm jobs (finish cfg now jitter k r jobs)
  unfolding finish
  Calm-finish jitter k r jobs =
      Calm-update_where _ _ (λ x. ground arith)
        (λ x h. settle-Evolves cfg now jitter r x (ground arith)) jobs

  pub Calm-recover_stale :
      (in_flight : List ℕ) (jobs : Jobs) → Calm jobs (recover_stale cfg now in_flight jobs).0
  unfolding recover_stale
  Calm-recover_stale in_flight jobs =
      Calm-update_where _ _ (λ x. refl) (λ x h. back_to_pending-Evolves x (ground arith)) jobs

module _ (now interval k : ℕ) (jobs : Jobs) where
  defer_or_pass-Calm : (left : Option ℕ) → Calm jobs (defer_or_pass now k jobs left).1
  defer_or_pass-Calm none = Calm-refl jobs
  defer_or_pass-Calm (some left) = Calm-update_where _ _ (λ x. refl) (λ x h. ground arith) jobs

  gate_job-Calm : (o : Option PublishJob) → Calm jobs (gate_job now interval k jobs o).1
  gate_job-Calm none = Calm-refl jobs
  gate_job-Calm (some job) = elim (Bool-cases (is_pending job.status)) [
    | inl e ↦
        rw e (defer_or_pass-Calm (cooldown_left now interval (last_started job.account_id k jobs)))
    | inr e ↦ rw e (Calm-refl jobs)
  ]

  pub Calm-gate : Calm jobs (account_cooldown_gate now interval k jobs).1
  unfolding account_cooldown_gate
  Calm-gate = gate_job-Calm (find_job k jobs)

pub Calm-cancel : (k : ℕ) (jobs : Jobs) → Calm jobs (modify k cancel jobs)
Calm-cancel k jobs = Calm-update_where _ _ (λ x. refl) (λ x h. ground arith) jobs

pub Calm-apply_changes :
    (k : ℕ) (c : Changes) (jobs : Jobs)
    → Calm jobs (update_where (is_claimable k) (apply_changes c) jobs)
unfolding apply_changes
Calm-apply_changes k c jobs = Calm-update_where _ _ (λ x. refl) (λ x h. ground arith) jobs

-- A new row under a fresh id.
pub Calm-append :
    (jobs : Jobs) (x : PublishJob)
    → find_job x.id jobs ≡ none
    → is_pending x.status ≡ true
    → Calm jobs (jobs ++ x ∷ [])
Calm-append jobs x new h = record {
  keeps = λ k y e. (y, find-append_old (λ j. j.id) k jobs (x ∷ []) y e, Evolves-refl y);
  origin = λ k y e. from k y (find_job k jobs) refl e;
  unique = λ u. Unique-append (λ j. j.id) jobs x u new;
}
  where
    from :
        (k : ℕ) (y : PublishJob) (o : Option PublishJob)
        → find_job k jobs ≡ o
        → find_job k (jobs ++ x ∷ []) ≡ some y
        → Origin jobs k y
    from k y none e q =
        let e' : some x ≡ some y = ground (arith, find-append_new (λ j. j.id) k jobs x e) in
        fresh e (rw (← some_inj e') h)
    from k y (some z) e q =
        old y (e ∙ sym (find-append_old (λ j. j.id) k jobs (x ∷ []) z e) ∙ q) (Evolves-refl y)
