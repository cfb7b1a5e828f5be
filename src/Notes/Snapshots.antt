-- ===== src/Notes/Snapshots.antt =====
-- The export of the notes (upsert_notes in app/services/note_metrics_service.py) against maps from keys
-- to metrics.
use mathlib.Core.Option
use nbdpsy_mcp.Prelude.{
  some, Bool-cases, inl, inr, ap, ℕ, List, [], ◌∷◌, ◌==◌, ◌&&◌, if◌then◌else◌, length, ◌≡◌, refl,
  ap, ◌∙◌,
}
use nbdpsy_mcp.Result.{ok}
use nbdpsy_mcp.Table.Upsert.{row_or, upsert-lem, Upserted-rows_at}
use nbdpsy_mcp.Notes.Metrics.{
  NoteMetric, NoteMetricDaily, Row, Db, Key, DailyKey, same_key, same_day, note_key, daily_key,
  row_key, row_day, new_note, write_note, new_daily, write_daily, upsert_note, upsert_rows,
  upsert_notes,
}
use nbdpsy_mcp.Notes.Plan.{
  same_key-true, same_key_refl, same_day-true, same_day_refl, IsValid, note_at, day_at, snapshot_of,
  metrics_of, merged, is_note, plan_note, plan_day, plan_notes, plan_days, apply_metrics-merged,
  apply_metrics-merged_new,
}

module _ (account_id snapshot_date now : ℕ) where
  -- The row under a key after a row of the export, and after all of them.
  abbrev pub note_after : Key → Row → List NoteMetric → List NoteMetric
  note_after k row old =
      if same_key (row_key account_id snapshot_date now row) k
      then write_note account_id snapshot_date now row
          (row_or (new_note account_id snapshot_date now row) old)
        ∷ []
      else old

  abbrev pub day_after : DailyKey → Row → List NoteMetricDaily → List NoteMetricDaily
  day_after k row old =
      if same_day (row_day account_id snapshot_date now row) k
      then write_daily account_id snapshot_date now row
          (row_or (new_daily account_id snapshot_date now row) old)
        ∷ []
      else old

  abbrev pub notes_after : Key → List Row → List NoteMetric → List NoteMetric
  notes_after k [] old = old
  notes_after k (row ∷ rows) old = notes_after k rows (note_after k row old)

  abbrev pub days_after : DailyKey → List Row → List NoteMetricDaily → List NoteMetricDaily
  days_after k [] old = old
  days_after k (row ∷ rows) old = days_after k rows (day_after k row old)

  -- The rows under every key after rows of the export.
  abbrev Written : List Row → Db → Db → Type 0
  Written rows db db' =
      ((k : Key) → note_at k db' ≡ notes_after k rows (note_at k db))
      × ((k : DailyKey) → day_at k db' ≡ days_after k rows (day_at k db))

  upsert_note-lem :
      (row : Row) (db : Db)
      → IsValid db
      → (db' : Db) × (upsert_note account_id snapshot_date now row db ≡ ok db')
        × IsValid db'
        × Written (row ∷ []) db db'
  unfolding upsert_note
  upsert_note-lem row db (unique, unique_days) =
      let key = row_key account_id snapshot_date now row in
      let day = row_day account_id snapshot_date now row in
      let new = new_note account_id snapshot_date now row in
      let new' = new_daily account_id snapshot_date now row in
      let (notes, e, u, unique') =
        upsert-lem note_key same_key same_key-true same_key_refl
          (write_note account_id snapshot_date now row) (λ m. refl) key new db.notes refl unique in
      let (daily, e', u', unique_days') =
        upsert-lem daily_key same_day same_day-true same_day_refl
          (write_daily account_id snapshot_date now row) (λ m. refl) day new' db.daily refl
          unique_days in
      (
        record { notes = notes; daily = daily },
        rw (e, e') refl,
        (unique', unique_days'),
        (
          λ k.
              Upserted-rows_at note_key same_key same_key-true same_key_refl
                (write_note account_id snapshot_date now row) (λ m. refl) key k new db.notes notes
                u,
          λ k.
              Upserted-rows_at daily_key same_day same_day-true same_day_refl
                (write_daily account_id snapshot_date now row) (λ m. refl) day k new' db.daily daily
                u',
        ),
      )

  upsert_rows-lem :
      (rows : List Row) (db : Db)
      → IsValid db
      → (db' : Db) × (upsert_rows account_id snapshot_date now rows db ≡ ok db')
        × IsValid db'
        × Written rows db db'
  unfolding upsert_rows
  upsert_rows-lem [] db valid = (db, refl, valid, (λ k. refl, λ k. refl))
  upsert_rows-lem (row ∷ rows) db valid =
      let (db₁, e₁, valid₁, (notes₁, days₁)) = upsert_note-lem row db valid in
      let (db₂, e₂, valid₂, (notes₂, days₂)) = upsert_rows-lem rows db₁ valid₁ in
      (
        db₂,
        rw e₁ e₂,
        valid₂,
        (
          λ k. notes₂ k ∙ ap (notes_after k rows) (notes₁ k),
          λ k. days₂ k ∙ ap (days_after k rows) (days₁ k),
        ),
      )

  note_written :
      (row : Row) (old : List NoteMetric)
      → snapshot_of (
          write_note account_id snapshot_date now row
            (row_or (new_note account_id snapshot_date now row) old)
          ∷ [])
        ≡ some (merged row (Option.map (λ s. s.0) (snapshot_of old)), now)
  note_written row [] = ap (λ x. some (x, now)) (apply_metrics-merged_new row)
  note_written row (m ∷ old) = ap (λ x. some (x, now)) (apply_metrics-merged row m.metrics)

  day_written :
      (row : Row) (old : List NoteMetricDaily)
      → metrics_of (
          write_daily account_id snapshot_date now row
            (row_or (new_daily account_id snapshot_date now row) old)
          ∷ [])
        ≡ some (merged row (metrics_of old))
  day_written row [] = ap some (apply_metrics-merged_new row)
  day_written row (d ∷ old) = ap some (apply_metrics-merged row d.metrics)

  note_after-plan :
      (k : Key) (row : Row) (old : List NoteMetric)
      → snapshot_of (note_after k row old) ≡ plan_note account_id now k row (snapshot_of old)
  note_after-plan k row old = elim (Bool-cases (is_note account_id row k)) [
    | inl e ↦ rw e (note_written row old)
    | inr e ↦ rw e refl
  ]

  day_after-plan :
      (k : DailyKey) (row : Row) (old : List NoteMetricDaily)
      → metrics_of (day_after k row old) ≡ plan_day account_id snapshot_date k row (metrics_of old)
  day_after-plan k row old =
      elim (Bool-cases (is_note account_id row k.note && (snapshot_date == k.snapshot_date))) [
        | inl e ↦ rw e (day_written row old)
        | inr e ↦ rw e refl
      ]

  notes_after-plan :
      (k : Key) (rows : List Row) (old : List NoteMetric)
      → snapshot_of (notes_after k rows old) ≡ plan_notes account_id now k rows (snapshot_of old)
  notes_after-plan k [] old = refl
  notes_after-plan k (row ∷ rows) old =
      notes_after-plan k rows (note_after k row old)
      ∙ ap (plan_notes account_id now k rows) (note_after-plan k row old)

  days_after-plan :
      (k : DailyKey) (rows : List Row) (old : List NoteMetricDaily)
      → metrics_of (days_after k rows old)
        ≡ plan_days account_id snapshot_date k rows (metrics_of old)
  days_after-plan k [] old = refl
  days_after-plan k (row ∷ rows) old =
      days_after-plan k rows (day_after k row old)
      ∙ ap (plan_days account_id snapshot_date k rows) (day_after-plan k row old)

  -- The tables after an export, read as maps.
  abbrev pub Exported : List Row → Db → Db → Type 0
  Exported rows db db' =
      ((k : Key)
        → snapshot_of (note_at k db')
          ≡ plan_notes account_id now k rows (snapshot_of (note_at k db)))
      × ((k : DailyKey)
          → metrics_of (day_at k db')
            ≡ plan_days account_id snapshot_date k rows (metrics_of (day_at k db)))

  -- In tables that meet their unique constraints an export never fails, counts its rows, and leaves
  -- the constraints met. Read as maps, the tables have under every key what the rows of the export
  -- with this key, in their order, make of what stood there: the metrics that a row has are its own,
  -- the others stay, or are 0 where there was no row, and the time is that of the export. Under the
  -- keys of other accounts, notes and days nothing changes.
  pub upsert_notes-Exported :
      (rows : List Row) (db : Db)
      → IsValid db
      → (db' : Db) × (upsert_notes account_id rows snapshot_date now db ≡ ok (db', length rows))
        × IsValid db'
        × Exported rows db db'
  unfolding upsert_notes
  upsert_notes-Exported rows db valid =
      let (db', e, valid', (notes, days)) = upsert_rows-lem rows db valid in
      (
        db',
        rw e refl,
        valid',
        (
          λ k. ap snapshot_of (notes k) ∙ notes_after-plan k rows (note_at k db),
          λ k. ap metrics_of (days k) ∙ days_after-plan k rows (day_at k db),
        ),
      )
