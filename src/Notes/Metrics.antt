-- ===== src/Notes/Metrics.antt =====
-- app/models/note_metric.py and app/services/note_metrics_service.py: the latest metrics of a note,
-- and the metrics of each day. A table is in the order of its ids. A day is a number, in the order
-- of the texts "YYYY-MM-DD"; the mean and the rate among the metrics are numbers in a small unit.
use nbdpsy_mcp.Prelude.{
  ℕ, Bool, false, not, List, [], ◌∷◌, Option, none, some, String, ◌==◌, ◌&&◌, str_eq, if◌then◌else◌,
  leb, length, select,
}
use nbdpsy_mcp.Result.{Result, ok, ◌>>=◌, ◌>>◌}
use nbdpsy_mcp.Table.Upsert.{upsert}
use nbdpsy_mcp.Auth.Guards.{Operator, assert_account_access}
use nbdpsy_mcp.Auth.Operators.{Access}

-- _METRIC_FIELDS
pub data Metric : Type 0 where
  likes collects comments danmu shares reposts follows exposure views : Metric
  cover_ctr avg_view_duration : Metric

pub record NoteMetric : Type 0 where
  pub account_id : ℕ
  pub title : String
  pub publish_time : String
  pub metrics : Metric → ℕ
  pub updated_at : ℕ

pub record NoteMetricDaily : Type 0 where
  pub account_id : ℕ
  pub title : String
  pub publish_time : String
  pub snapshot_date : ℕ
  pub metrics : Metric → ℕ

-- A row of the export, with the metrics that it has.
pub record Row : Type 0 where
  pub title : String
  pub publish_time : String
  pub fields : Metric → Option ℕ

pub record Db : Type 0 where
  pub notes : List NoteMetric
  pub daily : List NoteMetricDaily

-- uq_note_metric
pub record Key : Type 0 where
  pub account_id : ℕ
  pub title : String
  pub publish_time : String

-- uq_note_metric_daily
pub record DailyKey : Type 0 where
  pub note : Key
  pub snapshot_date : ℕ

abbrev pub same_key : Key → Key → Bool
same_key k k' =
    (k.account_id == k'.account_id)
    && (str_eq k.title k'.title && str_eq k.publish_time k'.publish_time)

abbrev pub same_day : DailyKey → DailyKey → Bool
same_day k k' = same_key k.note k'.note && (k.snapshot_date == k'.snapshot_date)

abbrev pub note_key : NoteMetric → Key
note_key m = record { account_id = m.account_id; title = m.title; publish_time = m.publish_time }

abbrev pub daily_key : NoteMetricDaily → DailyKey
daily_key d = record {
  note = record { account_id = d.account_id; title = d.title; publish_time = d.publish_time };
  snapshot_date = d.snapshot_date;
}

abbrev pub or_old : Option ℕ → ℕ → ℕ
or_old none old = old
or_old (some new) old = new

abbrev pub apply_metrics : Row → (Metric → ℕ) → Metric → ℕ
apply_metrics row old field = or_old (row.fields field) (old field)

abbrev pub no_metrics : Metric → ℕ
no_metrics field = 0

module _ (account_id snapshot_date now : ℕ) (row : Row) where
  abbrev pub row_key : Key
  row_key = record { account_id = account_id; title = row.title; publish_time = row.publish_time }

  abbrev pub row_day : DailyKey
  row_day = record { note = row_key; snapshot_date = snapshot_date }

  abbrev pub new_note : NoteMetric
  new_note = record {
    account_id = account_id;
    title = row.title;
    publish_time = row.publish_time;
    metrics = no_metrics;
    updated_at = now;
  }

  abbrev pub write_note : NoteMetric → NoteMetric
  write_note m = record m { metrics = apply_metrics row m.metrics; updated_at = now }

  abbrev pub new_daily : NoteMetricDaily
  new_daily = record {
    account_id = account_id;
    title = row.title;
    publish_time = row.publish_time;
    snapshot_date = snapshot_date;
    metrics = no_metrics;
  }

  abbrev pub write_daily : NoteMetricDaily → NoteMetricDaily
  write_daily d = record d { metrics = apply_metrics row d.metrics }

  -- One turn of the loop.
  unfoldable pub upsert_note : Db → Result Db
  upsert_note db = do
    notes ← upsert note_key same_key row_key new_note write_note db.notes
    daily ← upsert daily_key same_day row_day new_daily write_daily db.daily
    ok (record { notes = notes; daily = daily })

unfoldable pub upsert_rows : ℕ → ℕ → ℕ → List Row → Db → Result Db
upsert_rows account_id snapshot_date now [] db = ok db
upsert_rows account_id snapshot_date now (row ∷ rows) db = do
  db' ← upsert_note account_id snapshot_date now row db
  upsert_rows account_id snapshot_date now rows db'

unfoldable pub upsert_notes : ℕ → List Row → ℕ → ℕ → Db → Result (Db × ℕ)
upsert_notes account_id rows snapshot_date now db = do
  db' ← upsert_rows account_id snapshot_date now rows db
  ok (db', length rows)

unfoldable pub list_notes : Operator → Access → ℕ → Db → Result (List NoteMetric)
list_notes op access account_id db = do
  assert_account_access op account_id access
  ok (select (λ m. m.account_id == account_id) db.notes)

-- `order_by(snapshot_date)`
abbrev pub insert_day : NoteMetricDaily → List NoteMetricDaily → List NoteMetricDaily
insert_day d [] = d ∷ []
insert_day d (x ∷ xs) =
    let rest = insert_day d xs in
    if leb d.snapshot_date x.snapshot_date then d ∷ x ∷ xs else x ∷ rest

abbrev pub order_by_day : List NoteMetricDaily → List NoteMetricDaily
order_by_day [] = []
order_by_day (d ∷ rows) = insert_day d (order_by_day rows)

unfoldable pub note_trend : Operator → Access → Key → Db → Result (List NoteMetricDaily)
note_trend op access key db = do
  assert_account_access op key.account_id access
  ok (order_by_day (select (λ d. same_key (daily_key d).note key) db.daily))

pub data Listed : Type 0 where
  trend_rows : List NoteMetricDaily → Listed
  note_rows : List NoteMetric → Listed

abbrev pub is_given : Option String → Bool
is_given none = false
is_given (some s) = not (str_eq s "")

abbrev pub is_daily : Option String → Bool
is_daily none = false
is_daily (some s) = str_eq s "daily"

abbrev pub text_of : Option String → String
text_of none = ""
text_of (some s) = s

-- The trend of one note, if it is asked for with a title and a time, and else the latest metrics.
unfoldable pub list_account_notes_endpoint :
    Operator → Access → ℕ → Option String → Option String → Option String → Db → Result Listed
list_account_notes_endpoint op access account_id title publish_time trend db =
    let key : Key = record {
      account_id = account_id;
      title = text_of title;
      publish_time = text_of publish_time;
    } in
    if is_daily trend && (is_given title && is_given publish_time)
    then note_trend op access key db >>= (λ rows. ok (trend_rows rows))
    else list_notes op access account_id db >>= (λ rows. ok (note_rows rows))
