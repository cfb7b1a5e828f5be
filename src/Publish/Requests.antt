-- ===== src/Publish/Requests.antt =====
-- What the handler that creates a publish job guarantees (app/http/publish_rest.py).
use nbdpsy_mcp.Prelude.{
  ℕ, ◌+◌, ◌≤◌, ◌<◌, Bool, true, false, List, [], ◌∷◌, ◌++◌, Option, some, ◌≡◌, inl, inr, sym, ap,
  ◌∙◌, arith, String, ◌&&◌, length, is_none, if◌then◌else◌, Bool-cases, leb,
}
use nbdpsy_mcp.Result.{ok, ok_inj, >>=-eq-ok}
use nbdpsy_mcp.Table.{count_where}
use nbdpsy_mcp.Auth.Guards.{Operator, OperatorAccountAccess, assert_account_access}
use nbdpsy_mcp.Publish.Job.{PublishJob, Settings}
use nbdpsy_mcp.Publish.Store.{Jobs}
use nbdpsy_mcp.Publish.Endpoints.{
  IsoParser, parse_schedule_time, day, today_start, next_active_window_start, PublishNoteRequest,
  max_images, check_images, is_due_today, counted_today, apply_daily_cap, new_job, Written,
  publish_note,
}

-- What a request that succeeds has passed, and what it leaves.
pub record Created (cfg : Settings) (fromisoformat : IsoParser) (now jitter new_id : ℕ)
    (op : Operator) (access : List OperatorAccountAccess) (p : PublishNoteRequest)
    (seen jobs : Jobs) (w : Written ℕ) : Type 0 where
  pub asked : Option ℕ
  pub parsed : parse_schedule_time fromisoformat p.schedule_time ≡ ok asked
  pub allowed : assert_account_access op p.account_id access ≡ ok tt
  pub images : (1 ≤ length p.images) × (length p.images ≤ max_images)
  pub table :
      w.jobs
      ≡ jobs
        ++ new_job new_id now op.id p (apply_daily_cap cfg now jitter p.account_id seen asked) ∷ []
  pub queued : w.submitted ≡ (
      if is_none (apply_daily_cap cfg now jitter p.account_id seen asked) then new_id ∷ [] else [])

check_images_bounds :
    (images : List String) (u : Unit)
    → check_images images ≡ ok u
    → (1 ≤ length images) × (length images ≤ max_images)
unfolding check_images
check_images_bounds images u h = ground arith

-- A request that succeeds has a schedule that parses, comes from an operator with access to the
-- account, and has 1 to 18 images; it adds one waiting job with the request's content, on the
-- schedule that the daily cap leaves, and it queues the job at once exactly if it has no schedule.
pub publish_note-Created :
    (cfg : Settings) (fromisoformat : IsoParser) (now jitter new_id : ℕ) (op : Operator)
    (access : List OperatorAccountAccess) (p : PublishNoteRequest) (seen jobs : Jobs)
    (w : Written ℕ)
    → publish_note cfg fromisoformat now jitter new_id op access p seen jobs ≡ ok w
    → Created cfg fromisoformat now jitter new_id op access p seen jobs w
unfolding publish_note
publish_note-Created cfg fromisoformat now jitter new_id op access p seen jobs w h =
    let (asked, parsed, h1) = >>=-eq-ok (parse_schedule_time fromisoformat p.schedule_time) _ h in
    let (u, allowed, h2) = >>=-eq-ok (assert_account_access op p.account_id access) _ h1 in
    let (v, fine, h3) = >>=-eq-ok (check_images p.images) _ h2 in
    record {
      asked = asked;
      parsed = parsed;
      allowed = allowed;
      images = check_images_bounds p.images v fine;
      table = sym (ap (λ (v : Written ℕ). v.jobs) (ok_inj h3));
      queued = sym (ap (λ (v : Written ℕ). v.submitted) (ok_inj h3));
    }

-- A job of the account that counts for the day and is not scheduled past it.
abbrev pub goes_out_today : ℕ → ℕ → PublishJob → Bool
goes_out_today account_id now j = counted_today account_id now j && is_due_today now j.schedule_time

abbrev bit : Bool → ℕ
bit true = 1
bit false = 0

count_where-append :
    (p : PublishJob → Bool) (jobs : Jobs) (j : PublishJob)
    → count_where p (jobs ++ j ∷ []) ≡ count_where p jobs + bit (p j)
count_where-append p [] j = ground arith
count_where-append p (x ∷ jobs) j = ground (arith, count_where-append p jobs j)

count_where-le :
    (p q : PublishJob → Bool) (jobs : Jobs)
    → ((j : PublishJob) → p j ≡ true → q j ≡ true)
    → count_where p jobs ≤ count_where q jobs
count_where-le p q [] h = omega arith
count_where-le p q (x ∷ jobs) h = ground (arith, h x, count_where-le p q jobs h)

-- The day's window of the next day lies past today.
next_active_window_start-tomorrow :
    (cfg : Settings) (now jitter : ℕ)
    → today_start now + day ≤ next_active_window_start cfg now jitter
unfolding next_active_window_start
next_active_window_start-tomorrow cfg now jitter = omega arith

-- What the cap leaves for today leaves room for it.
cap-room :
    (cfg : Settings) (now jitter a : ℕ) (jobs : Jobs) (asked : Option ℕ)
    → is_due_today now (apply_daily_cap cfg now jitter a jobs asked) ≡ true
    → count_where (counted_today a now) jobs < cfg.publish_daily_cap
unfolding apply_daily_cap
cap-room cfg now jitter a jobs asked h =
    elim (Bool-cases (
      is_due_today now asked
      && leb cfg.publish_daily_cap (count_where (counted_today a now) jobs))) [
        | inl full ↦
            let late : is_due_today now (some (next_active_window_start cfg now jitter)) ≡ true =
              rw full at h in
            absurd (ground (arith, next_active_window_start-tomorrow cfg now jitter))
        | inr room ↦ let due : is_due_today now asked ≡ true = rw room at h in ground arith
      ]

-- Where at most the cap of jobs of an account go out today in the table that a request counts, and
-- at most `late` more do in the table that it is written to, at most `late` more than the cap do once
-- the request has succeeded: the cap holds (`late` is 0) where no other request comes between the
-- count and the commit, and else it is exceeded by no more than came between. Here a job goes out
-- today if it was created today, has not failed, been canceled or become a draft, and is not
-- scheduled past today.
pub publish_note-cap :
    (cfg : Settings) (fromisoformat : IsoParser) (now jitter new_id : ℕ) (op : Operator)
    (access : List OperatorAccountAccess) (p : PublishNoteRequest) (seen jobs : Jobs)
    (w : Written ℕ) (a late : ℕ)
    → publish_note cfg fromisoformat now jitter new_id op access p seen jobs ≡ ok w
    → count_where (goes_out_today a now) seen ≤ cfg.publish_daily_cap
    → count_where (goes_out_today a now) jobs ≤ count_where (goes_out_today a now) seen + late
    → count_where (goes_out_today a now) w.jobs ≤ cfg.publish_daily_cap + late
publish_note-cap cfg fromisoformat now jitter new_id op access p seen jobs w a late h before more =
    let c = publish_note-Created cfg fromisoformat now jitter new_id op access p seen jobs w h in
    let s = apply_daily_cap cfg now jitter p.account_id seen c.asked in
    let job = new_job new_id now op.id p s in
    let fewer =
      count_where-le (goes_out_today a now) (counted_today a now) seen (λ j q. ground arith) in
    let sum =
      ap (count_where (goes_out_today a now)) c.table
      ∙ count_where-append (goes_out_today a now) jobs job in
    elim (Bool-cases (goes_out_today a now job)) [
      | inr skipped ↦ let extra : bit (goes_out_today a now job) ≡ 0 = rw skipped in omega arith
      | inl counts ↦
          let extra : bit (goes_out_today a now job) ≡ 1 = rw counts in
          let account : p.account_id ≡ a = ground arith in
          let due : is_due_today now s ≡ true = ground arith in
          let room = rw account at (cap-room cfg now jitter p.account_id seen c.asked due) in
          omega arith
    ]
