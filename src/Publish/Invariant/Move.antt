-- ===== src/Publish/Invariant/Move.antt =====
-- A step that moves one runner keeps the invariant.
use nbdpsy_mcp.Prelude.{
  ℕ, ◌≤◌, true, false, Option, none, some, ◌≡◌, ◌≢◌, refl, sym, ◌∙◌, ap, arith, contains, inl, inr,
  ◌⊎◌, update, ◌==◌, Bool-cases, ==_iff, some_inj,
}
use mathlib.Core.Path.{subst}
use nbdpsy_mcp.Publish.Job.{PublishJob, Settings, is_pending}
use nbdpsy_mcp.Publish.Store.{find_job}
use nbdpsy_mcp.Publish.Rows.{Calm}
use nbdpsy_mcp.Publish.Spacing.{Spaced-Calm}
use nbdpsy_mcp.Publish.Runner.{Phase, idle, running, runner, System, begin_run}
use nbdpsy_mcp.Publish.Invariant.Defs.{section, min_gap, Owned, Fits, Inv}
use nbdpsy_mcp.Publish.Busy.{NotPending}
use nbdpsy_mcp.Publish.Invariant.Moved.{Fits-Moved}

-- A step that takes runner `w` to the phase `p`.
pub record Move (cfg : Settings) (s s' : System) (w : ℕ) (p : Phase) : Type 0 where
  pub calm : Calm s.jobs s'.jobs
  pub time : s.now ≤ s'.now
  pub phases : s'.phase ≡ update s.phase w p
  pub flight :
      (v k a : ℕ)
      → v ≢ w
      → s.phase v ≡ running k a
      → contains s.in_flight k ≡ true
      → contains s'.in_flight k ≡ true
  pub busy :
      (v k a : ℕ)
      → v ≢ w
      → s.phase v ≡ running k a
      → contains s.in_flight k ≡ true
      → NotPending s.jobs k
      → NotPending s'.jobs k
  pub owned : (k a : ℕ) → Owned s k a → Owned s' k a
  pub fits : Fits cfg s' p
  pub locks : (v a : ℕ) → section (s'.phase v) ≡ some a → s'.held a ≡ some (runner v)

pub update_self : {A : Type 0} (f : ℕ → A) (w : ℕ) (a : A) → update f w a w ≡ a
update_self f w a = ground arith

pub update_other : {A : Type 0} (f : ℕ → A) (w v : ℕ) (a : A) → v ≢ w → update f w a v ≡ f v
update_other f w v a ne = ground arith

module _ {cfg : Settings} {s s' : System} {w : ℕ} {p : Phase} (inv : Inv cfg s)
    (m : Move cfg s s' w p) where
  pub move-Inv : Inv cfg s'
  move-Inv = record {
    unique = m.calm.unique inv.unique;
    locks = m.locks;
    fits = λ v. at v (Bool-cases (v == w));
    spaced = Spaced-Calm (min_gap cfg) m.calm inv.spaced;
  }
    where
      at : (v : ℕ) → (v == w ≡ true) ⊎ (v == w ≡ false) → Fits cfg s' (s'.phase v)
      at v (inl e) =
          subst (Fits cfg s')
            (sym (
              ap (λ (f : ℕ → Phase). f v) m.phases
              ∙ ap (update s.phase w p) ((==_iff v w).0 e)
              ∙ update_self s.phase w p))
            m.fits
      at v (inr e) =
          let ne : v ≢ w = ground arith in
          Fits-Moved {s' = s'} inv (record {
            calm = m.calm;
            time = m.time;
            stays = ap (λ (f : ℕ → Phase). f v) m.phases ∙ update_other s.phase w v p ne;
            flight = λ k a. m.flight v k a ne;
            busy = λ k a r f x e. m.busy v k a ne r f;
            owned = m.owned;
          })

-- What the first read of a job gives.
pub begin_run-Fits :
    (cfg : Settings) (s : System) (k : ℕ) (o : Option PublishJob)
    → find_job k s.jobs ≡ o
    → Fits cfg s (begin_run k o)
begin_run-Fits cfg s k none e = tt
begin_run-Fits cfg s k (some x) e = elim (Bool-cases (is_pending x.status)) [
  | inl waits ↦
      rw waits ((x, e, refl), λ y found busy. absurd (ground (arith, some_inj (sym e ∙ found))))
  | inr other ↦ rw other tt
]

-- The locks after a move: `w` enters no section that it does not hold, or leaves its own.
module _ {cfg : Settings} {s : System} (inv : Inv cfg s) (w : ℕ) where
  pub keep_locks :
      (p : Phase)
      → ((a : ℕ) → section p ≡ some a → s.held a ≡ some (runner w))
      → (v a : ℕ) → section (update s.phase w p v) ≡ some a
      → s.held a ≡ some (runner v)
  keep_locks p own v a h = elim (Bool-cases (w == v)) [
    | inl same ↦
        let q : w ≡ v = (==_iff w v).0 same in own a (rw same at h) ∙ ap (λ i. some (runner i)) q
    | inr other ↦ inv.locks v a (rw other at h)
  ]

  pub leave_locks :
      (a : ℕ)
      → section (s.phase w) ≡ some a
      → (v b : ℕ) → section (update s.phase w idle v) ≡ some b
      → update s.held a none b ≡ some (runner v)
  leave_locks a own v b h = elim (Bool-cases (w == v)) [
    | inl same ↦ absurd (cc (rw same at h))
    | inr other ↦ ground (arith, inv.locks w a own, inv.locks v b (rw other at h))
  ]
