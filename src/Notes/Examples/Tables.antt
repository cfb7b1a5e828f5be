-- ===== src/Notes/Examples/Tables.antt =====
-- Two days of exports of two notes, and a check of the cookies.
use mathlib.Core.Option
use nbdpsy_mcp.Prelude.{
  ℕ, true, List, [], ◌∷◌, Option, none, some, String, ◌≡◌, ◌⊎◌, refl, arith, length,
}
use nbdpsy_mcp.Result.{ok}
use nbdpsy_mcp.Auth.Guards.{assert_account_access, has_grant}
use nbdpsy_mcp.Accounts.Account.{XhsAccount, find_account}
use nbdpsy_mcp.Table.{find}
use nbdpsy_mcp.Notes.Metrics.{
  Metric, likes, NoteMetricDaily, Row, Db, Key, upsert_notes, note_trend, no_metrics,
}
use nbdpsy_mcp.Notes.Snapshots.{Exported, upsert_notes-Exported}
use nbdpsy_mcp.Notes.Plan.{IsValid}
use nbdpsy_mcp.Notes.Ledger.{no_entries, put_entry}
use nbdpsy_mcp.Notes.Export.{Exports, new_export, exported, run_export}
use nbdpsy_mcp.Notes.Checks.{
  Checks, new_check, UserInfo, Verdict, is_valid, status_of, verdict, end_check, run_check, error,
}
use nbdpsy_mcp.Notes.Settling.{Succeeded, Failed, run_export-Fate}
use nbdpsy_mcp.Notes.Checking.{After, identity, run_check-Fate}
use nbdpsy_mcp.Notes.Examples.{op, access}

abbrev empty : Db
empty = record { notes = []; daily = [] }

empty-IsValid : IsValid empty
empty-IsValid = (λ k. omega arith, λ k. omega arith)

abbrev with_likes : ℕ → Metric → Option ℕ
with_likes n likes = some n
with_likes n _ = none

abbrev rows : List Row
rows =
    record { title = "a"; publish_time = "2026-01-01"; fields = with_likes 5 }
    ∷ record { title = "b"; publish_time = "2026-01-01"; fields = with_likes 7 }
    ∷ []

upsert_notes-Exported_example :
    (db' : Db) × (upsert_notes 5 rows 20 1000 empty ≡ ok (db', length rows))
    × IsValid db'
    × Exported 5 20 1000 rows empty db'
upsert_notes-Exported_example = upsert_notes-Exported 5 20 1000 rows empty empty-IsValid

abbrev key : Key
key = record { account_id = 5; title = "a"; publish_time = "2026-01-01" }

abbrev day : ℕ → NoteMetricDaily
day date = record {
  account_id = 5;
  title = "a";
  publish_time = "2026-01-01";
  snapshot_date = date;
  metrics = no_metrics;
}

abbrev two_days : Db
two_days = record { notes = []; daily = day 21 ∷ day 20 ∷ [] }

two_days-note_trend : note_trend op access key two_days ≡ ok (day 20 ∷ day 21 ∷ [])
unfolding note_trend assert_account_access has_grant
two_days-note_trend = refl

abbrev exports : Exports
exports = put_entry 9 (new_export 1000 5) no_entries

run_export-Fate_example :
    IsValid (run_export true 9 5 20 1000 (exported rows) exports empty).1
    × (Succeeded 9 5 20 1000
          (new_export 1000 5)
          true
          (exported rows)
          empty
          (run_export true 9 5 20 1000 (exported rows) exports empty)
        ⊎ Failed 9 5 20 1000
            (new_export 1000 5)
            true
            (exported rows)
            empty
            (run_export true 9 5 20 1000 (exported rows) exports empty))
run_export-Fate_example =
    run_export-Fate 9 5 20 1000 (new_export 1000 5) true (exported rows) exports empty refl
      empty-IsValid

abbrev account : XhsAccount
account = record {
  id = 5;
  name = "a";
  nickname = none;
  user_id = none;
  red_id = none;
  avatar = none;
  status = "active";
  cookie_status = "unknown";
  last_check_at = none;
  login_cookies = some "x";
  last_login_at = none;
  created_at = 0;
}

abbrev info : UserInfo
info = record { nickname = some "nick"; user_id = none; red_id = some ""; avatar = none }

abbrev checks : Checks
checks = put_entry 9 (new_check 1000 5) no_entries

run_check-Fate_example :
    let (checks', accounts') =
      run_check true 2000 9 5 (verdict is_valid (some info) none) checks (account ∷ []) in
    ((k : ℕ)
      → Option.map identity (find_account k accounts')
        ≡ Option.map identity (find_account k (account ∷ [])))
    × (((user_info : Option UserInfo) × (reason : Option String) × (checks' 9
            ≡ some (end_check error user_info reason (new_check 1000 5)))
          × (accounts' ≡ account ∷ []))
        ⊎ ((v : Verdict) × (user_info : Option UserInfo) × (reason : Option String) × (verdict
                is_valid
                (some info)
                none
              ≡ verdict v user_info reason)
            × (checks' 9 ≡ some (end_check (status_of v) user_info reason (new_check 1000 5)))
            × ((y : XhsAccount) × (find_account 5 accounts' ≡ some y)
                × After 2000 5 v user_info 5 account y)))
unfolding find
run_check-Fate_example =
    run_check-Fate 2000 9 5 (new_check 1000 5) true (verdict is_valid (some info) none) checks
      (account ∷ []) 5 account refl refl
