-- ===== src/Publish/Spacing.antt =====
-- The distance between the starts of one account's publications, as the table records them.
use mathlib.Core.Option
use nbdpsy_mcp.Prelude.{
  ℕ, ◌+◌, ◌≤◌, true, false, [], ◌∷◌, Option, none, some, ◌≡◌, ◌≢◌, ◌⊎◌, inl, inr, refl, sym, ap,
  ◌∙◌, arith, ◌==◌, Bool-cases, some_inj,
}
use nbdpsy_mcp.Table.{find, key-find, find-update_where, update_where-none, apply_if}
use nbdpsy_mcp.Table.Unique.{Unique, Unique-update_where, count_where-key, passes}
use nbdpsy_mcp.Publish.Job.{PublishJob, is_pending, is_active}
use nbdpsy_mcp.Publish.Store.{
  Jobs, find_job, counts_for_cooldown, later, last_started, cooldown_left, defer_or_pass, gate_job,
  account_cooldown_gate, is_claimable, claim, mark_publishing,
}
use nbdpsy_mcp.Publish.Rows.{Calm, Origin, fresh, old}

-- Two publications of one account start at least `gap` apart.
abbrev pub Spaced : ℕ → Jobs → Type 0
Spaced gap jobs =
    (k l : ℕ) (x y : PublishJob) (s t : ℕ)
    → find_job k jobs ≡ some x
    → find_job l jobs ≡ some y
    → k ≢ l
    → x.account_id ≡ y.account_id
    → is_active x.status ≡ true
    → is_active y.status ≡ true
    → x.started_at ≡ some s
    → y.started_at ≡ some t
    → (s + gap ≤ t) ⊎ (t + gap ≤ s)

-- Every publication of `account_id` but that of `job_id` started at least `gap` ago.
abbrev pub Cooled : ℕ → ℕ → Jobs → ℕ → ℕ → Type 0
Cooled gap now jobs job_id account_id =
    (l : ℕ) (y : PublishJob) (t : ℕ)
    → find_job l jobs ≡ some y
    → l ≢ job_id
    → y.account_id ≡ account_id
    → is_active y.status ≡ true
    → y.started_at ≡ some t
    → t + gap ≤ now

-- Where an active row of a table that changed calmly comes from.
record Source (jobs : Jobs) (k : ℕ) (y : PublishJob) : Type 0 where
  row : PublishJob
  found : find_job k jobs ≡ some row
  account : row.account_id ≡ y.account_id
  active : is_active row.status ≡ true
  start : row.started_at ≡ y.started_at

active-Source :
    {jobs : Jobs} {k : ℕ} {y : PublishJob}
    → Origin jobs k y
    → is_active y.status ≡ true
    → Source jobs k y
active-Source (fresh e p) h = absurd (ground arith)
active-Source (old x e ev) h = record {
  row = x;
  found = e;
  account = sym ev.same_account;
  active = (ev.active h).0;
  start = sym (ev.active h).1;
}

module _ (gap : ℕ) {jobs jobs' : Jobs} (calm : Calm jobs jobs') where
  pub Spaced-Calm : Spaced gap jobs → Spaced gap jobs'
  Spaced-Calm spaced k l x y s t ex ey ne same ax ay sx sy =
      let a = active-Source (calm.origin k x ex) ax in
      let b = active-Source (calm.origin l y ey) ay in
      spaced k l a.row b.row s t a.found b.found ne (a.account ∙ same ∙ sym b.account) a.active
        b.active (a.start ∙ sx) (b.start ∙ sy)

  pub Cooled-Calm :
      {now now' k a : ℕ} → now ≤ now' → Cooled gap now jobs k a → Cooled gap now' jobs' k a
  Cooled-Calm passed cooled l y t e ne same ay sy =
      let b = active-Source (calm.origin l y e) ay in
      omega (arith, cooled l b.row t b.found ne (b.account ∙ same) b.active (b.start ∙ sy))

-- A start that counts is at most the one that the gate looks at.
abbrev AtMost : ℕ → Option ℕ → Type 0
AtMost t none = ⊥
AtMost t (some last) = t ≤ last

later-left : (t : ℕ) (o : Option ℕ) → AtMost t (later (some t) o)
later-left t none = omega arith
later-left t (some u) = ground arith

later-right : (t : ℕ) (o u : Option ℕ) → AtMost t u → AtMost t (later o u)
later-right t none u h = h
later-right t (some s) (some u) h = ground arith
later-right t (some s) none h = absurd h

last_started_bounds :
    (a k l : ℕ) (jobs : Jobs) (y : PublishJob) (t : ℕ)
    → find_job l jobs ≡ some y
    → counts_for_cooldown a k y ≡ true
    → y.started_at ≡ some t
    → AtMost t (last_started a k jobs)
unfolding last_started find
last_started_bounds a k l [] y t e c st = ground arith
last_started_bounds a k l (j ∷ jobs) y t e c st = elim (Bool-cases (j.id == l)) [
  | inl here ↦
      let same : j ≡ y = some_inj (rw here at e) in
      rw (ap (counts_for_cooldown a k) same ∙ c, ap (λ r. r.started_at) same ∙ st)
        (later-left t (last_started a k jobs))
  | inr there ↦
      let ih = last_started_bounds a k l jobs y t (rw there at e) c st in
      elim (Bool-cases (counts_for_cooldown a k j)) [
        | inl counts ↦ rw counts (later-right t j.started_at (last_started a k jobs) ih)
        | inr skips ↦ rw skips ih
      ]
]

cooled_of_bound :
    (now interval t : ℕ) (o : Option ℕ)
    → AtMost t o
    → cooldown_left now interval o ≡ none
    → t + interval ≤ now
cooled_of_bound now interval t (some u) h e = ground arith
cooled_of_bound now interval t none h e = absurd h

-- A gate that lets a pending job pass has seen the account cool.
module _ (now interval k : ℕ) (jobs : Jobs) (x : PublishJob) where
  passed_left : (o : Option ℕ) → (defer_or_pass now k jobs o).0 ≡ true → o ≡ none
  passed_left none h = refl
  passed_left (some left) h = cc

  pub gate-Cooled :
      find_job k jobs ≡ some x
      → is_pending x.status ≡ true
      → (account_cooldown_gate now interval k jobs).0 ≡ true
      → Cooled interval now jobs k x.account_id
  unfolding account_cooldown_gate
  gate-Cooled found waits passed l y t e ne same active start =
      cooled_of_bound now interval t (last_started x.account_id k jobs)
        (last_started_bounds x.account_id k l jobs y t e
          (ground (arith, key-find (λ j. j.id) l jobs y e)) start)
        (passed_left (cooldown_left now interval (last_started x.account_id k jobs))
          (rw (found, gate_job, waits) at passed))

-- The claim: it takes the row of its job if that waits, and no other row.
module _ (now k : ℕ) (jobs : Jobs) where
  pub found-claim :
      (l : ℕ)
      → find_job l (mark_publishing now k jobs).1
        ≡ Option.map (apply_if (is_claimable k) (claim now)) (find_job l jobs)
  unfolding mark_publishing
  found-claim l = find-update_where (λ j. j.id) l (is_claimable k) (claim now) jobs (λ j. refl)

  unclaimed :
      (l : ℕ) (o : Option PublishJob)
      → ((y : PublishJob) → o ≡ some y → is_claimable k y ≡ false)
      → Option.map (apply_if (is_claimable k) (claim now)) o ≡ o
  unclaimed l none h = refl
  unclaimed l (some y) h = rw (h y refl)

  pub claim-other : (l : ℕ) → l ≢ k → find_job l (mark_publishing now k jobs).1 ≡ find_job l jobs
  claim-other l ne =
      found-claim l
      ∙ unclaimed l (find_job l jobs) (λ y e. ground (arith, key-find (λ j. j.id) l jobs y e))

  pub claim-own :
      (x : PublishJob)
      → find_job k jobs ≡ some x
      → is_pending x.status ≡ true
      → find_job k (mark_publishing now k jobs).1 ≡ some (claim now x)
  claim-own x e p = found-claim k ∙ ground (arith, e, key-find (λ j. j.id) k jobs x e)

  -- The row count is 1 exactly where the row is there and waits.
  pub mark-claims :
      Unique (λ j. j.id) jobs
      → (mark_publishing now k jobs).0 ≡ passes (λ j. is_pending j.status) (find_job k jobs)
  unfolding mark_publishing
  mark-claims u = ground (arith, count_where-key (λ j. j.id) k (λ j. is_pending j.status) jobs u)

  -- A claim that fails writes nothing.
  pub mark-fails :
      Unique (λ j. j.id) jobs
      → (mark_publishing now k jobs).0 ≡ false
      → (mark_publishing now k jobs).1 ≡ jobs
  unfolding mark_publishing
  mark-fails u h =
      update_where-none (is_claimable k) (claim now) jobs
        (ground (arith, count_where-key (λ j. j.id) k (λ j. is_pending j.status) jobs u))

  pub mark-Unique : Unique (λ j. j.id) jobs → Unique (λ j. j.id) (mark_publishing now k jobs).1
  unfolding mark_publishing
  mark-Unique = Unique-update_where (λ j. j.id) (is_claimable k) (claim now) (λ j. refl) jobs
