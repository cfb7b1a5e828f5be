-- ===== src/Publish/Invariant/Claim.antt =====
-- The claim (`mark_publishing` and the registration in flight) keeps the invariant.
use nbdpsy_mcp.Prelude.{
  ℕ, ◌+◌, ◌≤◌, true, false, ◌∷◌, some, ◌≡◌, ◌≢◌, ◌⊎◌, inl, inr, refl, sym, ◌∙◌, ap, arith, update,
  ◌==◌, Bool-cases, ==_iff, some_inj,
}
use mathlib.Core.Path.{subst}
use nbdpsy_mcp.Table.Unique.{passes}
use nbdpsy_mcp.Publish.Job.{PublishJob, Settings, is_pending, is_active}
use nbdpsy_mcp.Publish.Store.{Jobs, find_job, mark_publishing, claim}
use nbdpsy_mcp.Publish.Spacing.{
  Cooled, Spaced, mark-Unique, claim-other, claim-own, mark-claims, mark-fails,
}
use nbdpsy_mcp.Publish.Runner.{
  Phase, idle, waiting, locked, cleared, running, System, enter, leave, claim_job,
}
use nbdpsy_mcp.Publish.Rows.{Calm-refl}
use nbdpsy_mcp.Publish.Invariant.Defs.{section, min_gap, Known, Owned, Fits, Inv}
use nbdpsy_mcp.Publish.Invariant.Moved.{exclusive, apart}
use nbdpsy_mcp.Publish.Invariant.Move.{update_self, update_other, keep_locks}
use nbdpsy_mcp.Publish.Invariant.Steps.{quiet-Owned, leave-Inv}

module _ {cfg : Settings} (s : System) (inv : Inv cfg s) (w k a : ℕ)
    (at : s.phase w ≡ cleared k a) where
  abbrev jobs' : Jobs
  jobs' = (mark_publishing s.now k s.jobs).1

  abbrev after : System
  after = enter (record s { jobs = jobs'; in_flight = k ∷ s.in_flight }) w (running k a)

  before : Fits cfg s (cleared k a)
  before = subst (Fits cfg s) at (inv.fits w)

  inside : section (s.phase w) ≡ some a
  inside = ap section at

  module _ (x : PublishJob) (found : find_job k s.jobs ≡ some x)
      (waits : is_pending x.status ≡ true) where
    same_account : x.account_id ≡ a
    same_account = let (y, e, h) = before.0 in ap (λ r. r.account_id) (some_inj (sym found ∙ e)) ∙ h

    other : (l : ℕ) → l ≢ k → find_job l jobs' ≡ find_job l s.jobs
    other = claim-other s.now k s.jobs

    own : find_job k jobs' ≡ some (claim s.now x)
    own = claim-own s.now k s.jobs x found waits

    Known-claim : (l b : ℕ) → Known s.jobs l b → Known jobs' l b
    Known-claim l b (y, e, h) = elim (Bool-cases (l == k)) [
      | inl same ↦
          let q : l ≡ k = (==_iff l k).0 same in
          let rows : y ≡ x = some_inj (sym e ∙ ap (λ i. find_job i s.jobs) q ∙ found) in
          (claim s.now x, ap (λ i. find_job i jobs') q ∙ own, sym (ap (λ r. r.account_id) rows) ∙ h)
      | inr ne ↦ (y, other l (ground arith) ∙ e, h)
    ]

    Owned-claim : (l b : ℕ) → Known s.jobs l b → Owned s l b → Owned after l b
    Owned-claim l b (z, ez, hz) owned y e busy = elim (Bool-cases (l == k)) [
      | inl same ↦
          let q : l ≡ k = (==_iff l k).0 same in
          let rows : z ≡ x = some_inj (sym ez ∙ ap (λ i. find_job i s.jobs) q ∙ found) in
          let accounts : a ≡ b = sym same_account ∙ sym (ap (λ r. r.account_id) rows) ∙ hz in
          (w, update_self s.phase w (running k a) ∙ cc (q, accounts))
      | inr ne ↦
          let (v, r) = owned y (sym (other l (ground arith)) ∙ e) busy in
          (v, update_other s.phase w v (running k a) (λ q. cc (ap s.phase q, at, r)) ∙ r)
    ]

    -- Another runner's account is another account, or it has not passed the gate.
    claim-Fits-other : (v : ℕ) (p : Phase) → v ≢ w → s.phase v ≡ p → Fits cfg s p → Fits cfg after p
    claim-Fits-other v idle ne e f = tt
    claim-Fits-other v (waiting l b) ne e (known, owned) =
        (Known-claim l b known, Owned-claim l b known owned)
    claim-Fits-other v (locked l b) ne e (known, owned) =
        (Known-claim l b known, Owned-claim l b known owned)
    claim-Fits-other v (cleared l b) ne e (known, owned, cool) = (
      Known-claim l b known,
      Owned-claim l b known owned,
      λ y ey p. cooled y (sym (other l differ) ∙ ey) p,
    )
      where
        differ : l ≢ k
        differ q = apart inv v w k l a b ne (ap section e) inside known before.0 (sym q)

        cooled :
            (y : PublishJob)
            → find_job l s.jobs ≡ some y
            → is_pending y.status ≡ true
            → Cooled (min_gap cfg) s.now jobs' l b
        cooled y ey p m z t ez nm az active start = elim (Bool-cases (m == k)) [
          | inl same ↦
              let q : m ≡ k = (==_iff m k).0 same in
              let rows : z ≡ claim s.now x =
                some_inj (sym ez ∙ ap (λ i. find_job i jobs') q ∙ own) in
              let accounts : a ≡ b = sym same_account ∙ sym (ap (λ r. r.account_id) rows) ∙ az in
              absurd (ne (exclusive inv v w b (ap section e) (inside ∙ ap some accounts)))
          | inr nk ↦ cool y ey p m z t (sym (other m (ground arith)) ∙ ez) nm az active start
        ]
    claim-Fits-other v (running l b) ne e (known, busy, flying) =
        (Known-claim l b known, λ y ey. busy y (sym (other l differ) ∙ ey), ground arith)
      where
        differ : l ≢ k
        differ q = apart inv v w k l a b ne (ap section e) inside known before.0 (sym q)

    claim-Fits-own : Fits cfg after (running k a)
    claim-Fits-own = (
      (claim s.now x, own, same_account),
      λ y e. sym (ap (λ r. is_pending r.status) (some_inj (sym own ∙ e))),
      ground arith,
    )

    -- The start of a claim is at least the gap after every start that it is compared with.
    claim-spaced_own :
        (l : ℕ) (y : PublishJob) (t : ℕ)
        → find_job l jobs' ≡ some y
        → l ≢ k
        → y.account_id ≡ a
        → is_active y.status ≡ true
        → y.started_at ≡ some t
        → t + min_gap cfg ≤ s.now
    claim-spaced_own l y t e ne account active start =
        before.2 x found waits l y t (sym (other l ne) ∙ e) ne account active start

    claim-Spaced : Spaced (min_gap cfg) jobs'
    claim-Spaced l m y z u v ey ez ne same ay az su sv = elim (Bool-cases (l == k)) [
      | inl lk ↦
          let q : l ≡ k = (==_iff l k).0 lk in
          let rows : y ≡ claim s.now x = some_inj (sym ey ∙ ap (λ i. find_job i jobs') q ∙ own) in
          let now_is : s.now ≡ u = some_inj (sym (ap (λ r. r.started_at) rows) ∙ su) in
          let account : z.account_id ≡ a = sym same ∙ ap (λ r. r.account_id) rows ∙ same_account in
          inr (omega (arith, claim-spaced_own m z v ez (λ mk. ne (q ∙ sym mk)) account az sv))
      | inr lk ↦ elim (Bool-cases (m == k)) [
        | inl mk ↦
            let q : m ≡ k = (==_iff m k).0 mk in
            let rows : z ≡ claim s.now x = some_inj (sym ez ∙ ap (λ i. find_job i jobs') q ∙ own) in
            let now_is : s.now ≡ v = some_inj (sym (ap (λ r. r.started_at) rows) ∙ sv) in
            let account : y.account_id ≡ a = same ∙ ap (λ r. r.account_id) rows ∙ same_account in
            inl (omega (arith, claim-spaced_own l y u ey (λ h. ne (h ∙ sym q)) account ay su))
        | inr mk ↦
            inv.spaced l m y z u v (sym (other l (ground arith)) ∙ ey)
              (sym (other m (ground arith)) ∙ ez) ne same ay az su sv
      ]
    ]

    claimed-Inv : Inv cfg after
    claimed-Inv = record {
      unique = mark-Unique s.now k s.jobs inv.unique;
      locks = keep_locks inv w (running k a) (λ b h. inv.locks w b (inside ∙ h));
      fits = λ v. fits_at v (Bool-cases (v == w));
      spaced = claim-Spaced;
    }
      where
        fits_at : (v : ℕ) → (v == w ≡ true) ⊎ (v == w ≡ false) → Fits cfg after (after.phase v)
        fits_at v (inl e) =
            subst (Fits cfg after)
              (sym (
                ap (update s.phase w (running k a)) ((==_iff v w).0 e)
                ∙ update_self s.phase w (running k a)))
              claim-Fits-own
        fits_at v (inr e) =
            let ne : v ≢ w = ground arith in
            subst (Fits cfg after) (sym (update_other s.phase w v (running k a) ne))
              (claim-Fits-other v (s.phase v) ne refl (inv.fits v))

  missed-Inv :
      (mark_publishing s.now k s.jobs).0 ≡ false → Inv cfg (leave (record s { jobs = jobs' }) w a)
  missed-Inv h = rw (mark-fails s.now k s.jobs inv.unique h) (
      leave-Inv s inv w k a s.jobs s.in_flight inside (Calm-refl s.jobs) (λ v l b ne r f. f)
        (λ v l b ne r f busy. busy)
        (quiet-Owned s inv (leave s w a) w idle refl (Calm-refl s.jobs) (λ l b r. cc (at, r))))

  pub claim_job-Inv : Inv cfg (claim_job s w k a)
  unfolding claim_job
  claim_job-Inv = elim (Bool-cases (mark_publishing s.now k s.jobs).0) [
    | inr missed ↦ rw missed (missed-Inv missed)
    | inl taken ↦
        let (x, e, _) = before.0 in
        rw taken (
          claimed-Inv x e (
            sym (ap (passes (λ j. is_pending j.status)) e)
            ∙ sym (mark-claims s.now k s.jobs inv.unique)
            ∙ taken))
  ]
