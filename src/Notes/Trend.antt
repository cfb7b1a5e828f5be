-- ===== src/Notes/Trend.antt =====
-- The days of one note in order (note_trend in app/services/note_metrics_service.py).
use nbdpsy_mcp.Prelude.{
  ℕ, ◌≤◌, Bool, true, false, List, [], ◌∷◌, ◌==◌, if◌then◌else◌, leb, leb→le, leb-false→lt, ==_iff,
  select, ◌≡◌, refl, ap, ◌∙◌, arith, Bool-cases, inl, inr, subst,
}
use nbdpsy_mcp.Result.{ok, >>=-eq-ok, ok_inj}
use nbdpsy_mcp.Table.Upsert.{rows_at, has_key}
use nbdpsy_mcp.Auth.Guards.{Operator, assert_account_access}
use nbdpsy_mcp.Auth.Operators.{Access}
use nbdpsy_mcp.Notes.Metrics.{
  NoteMetricDaily, Db, Key, DailyKey, same_key, same_day, daily_key, insert_day, order_by_day,
  note_trend,
}
use nbdpsy_mcp.Notes.Plan.{day_at, &&-true, &&-false, same_day-true}

abbrev pub IsBound : ℕ → List NoteMetricDaily → Type 0
IsBound low [] = Unit
IsBound low (x ∷ xs) = low ≤ x.snapshot_date

-- No row is of a later day than the one behind it.
abbrev pub IsAscending : List NoteMetricDaily → Type 0
IsAscending [] = Unit
IsAscending (x ∷ xs) = IsBound x.snapshot_date xs × IsAscending xs

insert_day-IsBound :
    (low : ℕ) (d : NoteMetricDaily) (xs : List NoteMetricDaily)
    → low ≤ d.snapshot_date
    → IsBound low xs
    → IsBound low (insert_day d xs)
insert_day-IsBound low d [] h b = h
insert_day-IsBound low d (x ∷ xs) h b = elim (Bool-cases (leb d.snapshot_date x.snapshot_date)) [
  | inl e ↦ rw e h
  | inr e ↦ rw e b
]

insert_day-IsAscending :
    (d : NoteMetricDaily) (xs : List NoteMetricDaily)
    → IsAscending xs
    → IsAscending (insert_day d xs)
insert_day-IsAscending d [] a = (tt, tt)
insert_day-IsAscending d (x ∷ xs) a = elim (Bool-cases (leb d.snapshot_date x.snapshot_date)) [
  | inl e ↦ rw e (leb→le _ _ e, a)
  | inr e ↦ rw e (
    insert_day-IsBound x.snapshot_date d xs
        (omega (arith, leb-false→lt d.snapshot_date x.snapshot_date e)) a.0,
    insert_day-IsAscending d xs a.1,
  )
]

order_by_day-IsAscending : (rows : List NoteMetricDaily) → IsAscending (order_by_day rows)
order_by_day-IsAscending [] = tt
order_by_day-IsAscending (d ∷ rows) =
    insert_day-IsAscending d (order_by_day rows) (order_by_day-IsAscending rows)

abbrev at_day : DailyKey → List NoteMetricDaily → List NoteMetricDaily
at_day k rows = rows_at daily_key same_day k rows

-- A row of a later day has another key.
later_day :
    (k : DailyKey) (d x : NoteMetricDaily)
    → leb d.snapshot_date x.snapshot_date ≡ false
    → has_key daily_key same_day k d ≡ true
    → has_key daily_key same_day k x ≡ false
later_day k d x e h =
    let (n, t) =
      &&-true (same_key (daily_key d).note k.note) (d.snapshot_date == k.snapshot_date) h in
    &&-false (same_key (daily_key x).note k.note) (x.snapshot_date == k.snapshot_date) (
      ground (
        arith,
        (==_iff d.snapshot_date k.snapshot_date).0 t,
        leb-false→lt d.snapshot_date x.snapshot_date e,
      ))

-- The order moves no row over one with its key.
insert_day-at_day :
    (k : DailyKey) (d : NoteMetricDaily) (xs : List NoteMetricDaily)
    → at_day k (insert_day d xs) ≡ at_day k (d ∷ xs)
insert_day-at_day k d [] = refl
insert_day-at_day k d (x ∷ xs) = elim (Bool-cases (leb d.snapshot_date x.snapshot_date)) [
  | inl e ↦ rw e refl
  | inr e ↦ elim (Bool-cases (has_key daily_key same_day k d)) [
    | inl h ↦ rw (e, later_day k d x e h) (insert_day-at_day k d xs)
    | inr h ↦ rw (e, h, insert_day-at_day k d xs, h) refl
  ]
]

order_by_day-at_day :
    (k : DailyKey) (rows : List NoteMetricDaily) → at_day k (order_by_day rows) ≡ at_day k rows
order_by_day-at_day k [] = refl
order_by_day-at_day k (d ∷ rows) =
    insert_day-at_day k d (order_by_day rows)
    ∙ ap (λ l. if has_key daily_key same_day k d then d ∷ l else l) (order_by_day-at_day k rows)

abbrev is_of : Key → NoteMetricDaily → Bool
is_of key d = same_key (daily_key d).note key

-- The rows of a note under a key are those of the table, if the key is of that note.
at_day-select :
    (k : DailyKey) (key : Key) (rows : List NoteMetricDaily)
    → at_day k (select (is_of key) rows) ≡ (if same_key k.note key then at_day k rows else [])
at_day-select k key [] = ground arith
at_day-select k key (x ∷ rows) =
    let rest = at_day-select k key rows in
    elim (Bool-cases (has_key daily_key same_day k x)) [
      | inl h ↦
          let of_key : is_of key x ≡ same_key k.note key =
            ap (λ q. same_key q.note key) (same_day-true (daily_key x) k h) in
          elim (Bool-cases (same_key k.note key)) [
            | inl s ↦ rw (of_key, s, h) (ap (λ l. x ∷ l) (rest ∙ rw s refl))
            | inr s ↦ rw (of_key, s) (rest ∙ rw s refl)
          ]
      | inr h ↦ elim (Bool-cases (is_of key x)) [ inl s ↦ rw (s, h) rest | inr s ↦ rw (s, h) rest ]
    ]

-- The trend that an operator gets is in the order of the days, and under every key of that note it
-- has just the rows of the table; it has no row of another note.
pub note_trend-Ordered :
    (op : Operator) (access : Access) (key : Key) (db : Db) (rows : List NoteMetricDaily)
    → note_trend op access key db ≡ ok rows
    → IsAscending rows
      × ((k : DailyKey)
          → rows_at daily_key same_day k rows ≡ (if same_key k.note key then day_at k db else []))
unfolding note_trend
note_trend-Ordered op access key db rows e =
    let (_, _, found) = >>=-eq-ok (assert_account_access op key.account_id access) _ e in
    subst
      (λ l.
        IsAscending l
        × ((k : DailyKey) → at_day k l ≡ (if same_key k.note key then day_at k db else [])))
      (ok_inj found)
      (
        order_by_day-IsAscending (select (is_of key) db.daily),
        λ k. order_by_day-at_day k (select (is_of key) db.daily) ∙ at_day-select k key db.daily,
      )
