-- ===== src/Notes/Plan.antt =====
-- The keys of the tables of metrics (app/models/note_metric.py), and an export as the update of maps
-- from the keys to metrics.
use mathlib.Core.Option
use mathlib.Core.Path.{fun_ext}
use nbdpsy_mcp.Prelude.{
  Option, none, some, str_eq, ℕ, Bool, true, false, List, [], ◌∷◌, ◌==◌, ◌&&◌, str_eq, eq_iff,
  ==_iff, if◌then◌else◌, ◌≡◌, refl, arith,
}
use nbdpsy_mcp.Table.Upsert.{rows_at, IsUnique}
use nbdpsy_mcp.Notes.Metrics.{
  Metric, or_old, apply_metrics, no_metrics, NoteMetric, NoteMetricDaily, Row, Db, Key, DailyKey,
  same_key, same_day, note_key, daily_key,
}

pub &&-true : (a b : Bool) → (a && b) ≡ true → (a ≡ true) × (b ≡ true)
&&-true true b e = (refl, e)
&&-true false b e = cc

pub &&-false : (a b : Bool) → b ≡ false → (a && b) ≡ false
&&-false true b e = e
&&-false false b e = refl

pub Key-ext :
    (k k' : Key)
    → k.account_id ≡ k'.account_id
    → k.title ≡ k'.title
    → k.publish_time ≡ k'.publish_time
    → k ≡ k'
Key-ext k k' a t p = cc

pub same_key-true : (k k' : Key) → same_key k k' ≡ true → k ≡ k'
same_key-true k k' e =
    let (a, tp) = &&-true (k.account_id == k'.account_id) _ e in
    let (t, p) = &&-true (str_eq k.title k'.title) (str_eq k.publish_time k'.publish_time) tp in
    Key-ext k k' ((==_iff k.account_id k'.account_id).0 a) ((eq_iff k.title k'.title).0 t)
      ((eq_iff k.publish_time k'.publish_time).0 p)

pub same_key_refl : (k : Key) → same_key k k ≡ true
same_key_refl k =
    rw ((eq_iff k.title k.title).1 refl, (eq_iff k.publish_time k.publish_time).1 refl)
      (ground arith)

pub DailyKey-ext :
    (k k' : DailyKey) → k.note ≡ k'.note → k.snapshot_date ≡ k'.snapshot_date → k ≡ k'
DailyKey-ext k k' n d = cc

pub same_day-true : (k k' : DailyKey) → same_day k k' ≡ true → k ≡ k'
same_day-true k k' e =
    let (n, d) = &&-true (same_key k.note k'.note) (k.snapshot_date == k'.snapshot_date) e in
    DailyKey-ext k k' (same_key-true k.note k'.note n)
      ((==_iff k.snapshot_date k'.snapshot_date).0 d)

pub same_day_refl : (k : DailyKey) → same_day k k ≡ true
same_day_refl k = rw (same_key_refl k.note) (ground arith)

-- The unique constraints of the two tables.
abbrev pub IsValid : Db → Type 0
IsValid db = IsUnique note_key same_key db.notes × IsUnique daily_key same_day db.daily

-- What the table has under a key: no row, or one.
abbrev pub note_at : Key → Db → List NoteMetric
note_at k db = rows_at note_key same_key k db.notes

abbrev pub day_at : DailyKey → Db → List NoteMetricDaily
day_at k db = rows_at daily_key same_day k db.daily

-- What a table says of a key, as a map: the metrics and the time of their writing, or the metrics of
-- the day.
abbrev pub Snapshot : Type 0
Snapshot = (Metric → ℕ) × ℕ

abbrev pub snapshot_of : List NoteMetric → Option Snapshot
snapshot_of [] = none
snapshot_of (m ∷ rows) = some (m.metrics, m.updated_at)

abbrev pub metrics_of : List NoteMetricDaily → Option (Metric → ℕ)
metrics_of [] = none
metrics_of (d ∷ rows) = some d.metrics

-- The metrics of a row over older ones, which are 0 where there are none.
abbrev pub merged : Row → Option (Metric → ℕ) → Metric → ℕ
merged row old field = elim (row.fields field) [
  | some n ↦ n
  | none ↦ elim old [ none ↦ 0 | some metrics ↦ metrics field ]
]

abbrev pub is_note : ℕ → Row → Key → Bool
is_note account_id row k =
    (account_id == k.account_id)
    && (str_eq row.title k.title && str_eq row.publish_time k.publish_time)

-- The map after a row of the export, and after all of them in their order.
abbrev pub plan_note : ℕ → ℕ → Key → Row → Option Snapshot → Option Snapshot
plan_note account_id now k row old =
    if is_note account_id row k then some (merged row (Option.map (λ s. s.0) old), now) else old

abbrev pub plan_day : ℕ → ℕ → DailyKey → Row → Option (Metric → ℕ) → Option (Metric → ℕ)
plan_day account_id snapshot_date k row old =
    if is_note account_id row k.note && (snapshot_date == k.snapshot_date)
    then some (merged row old)
    else old

abbrev pub plan_notes : ℕ → ℕ → Key → List Row → Option Snapshot → Option Snapshot
plan_notes account_id now k [] old = old
plan_notes account_id now k (row ∷ rows) old =
    plan_notes account_id now k rows (plan_note account_id now k row old)

abbrev pub plan_days : ℕ → ℕ → DailyKey → List Row → Option (Metric → ℕ) → Option (Metric → ℕ)
plan_days account_id snapshot_date k [] old = old
plan_days account_id snapshot_date k (row ∷ rows) old =
    plan_days account_id snapshot_date k rows (plan_day account_id snapshot_date k row old)

pub or_old-some : (o : Option ℕ) (x : ℕ) → or_old o x ≡ (elim o [ some n ↦ n | none ↦ x ])
or_old-some none x = refl
or_old-some (some n) x = refl

pub apply_metrics-merged :
    (row : Row) (old : Metric → ℕ) → apply_metrics row old ≡ merged row (some old)
apply_metrics-merged row old = fun_ext (λ field. or_old-some (row.fields field) (old field))

pub apply_metrics-merged_new : (row : Row) → apply_metrics row no_metrics ≡ merged row none
apply_metrics-merged_new row = fun_ext (λ field. or_old-some (row.fields field) 0)
