-- ===== src/Notes/Export.antt =====
-- app/services/note_export.py and its endpoints in app/http/notes_rest.py: a browser exports the
-- notes of an account in the background, and a ledger in memory says what came of it. The id of a
-- task, the cookies, what the browser did and whether the database fails are arguments.
use nbdpsy_mcp.Prelude.{ℕ, Bool, true, false, List, Option, none, some, String}
use nbdpsy_mcp.Result.{Result, ok, err, not_found, ◌>>◌, ◌>>=◌}
use nbdpsy_mcp.Auth.Guards.{Operator, assert_account_access}
use nbdpsy_mcp.Auth.Operators.{Access}
use nbdpsy_mcp.Accounts.Account.{XhsAccount, Accounts, find_account}
use nbdpsy_mcp.Notes.Ledger.{Registry, put_entry, write_entry, evict}
use nbdpsy_mcp.Notes.Metrics.{Row, Db, upsert_notes}

pub data ExportStatus : Type 0 where
  running done error : ExportStatus

pub record Export : Type 0 where
  pub status : ExportStatus
  pub account_id : ℕ
  pub note_count : ℕ
  pub reason : Option String
  pub created_at : ℕ

abbrev pub Exports : Type 0
Exports = Registry Export

abbrev pub is_over : Export → Bool
is_over e = elim e.status [ running ↦ false | _ ↦ true ]

unfoldable pub evict_exports : ℕ → Exports → Exports
evict_exports now exports = evict is_over (λ e. e.created_at) now exports

abbrev pub new_export : ℕ → ℕ → Export
new_export now account_id = record {
  status = running;
  account_id = account_id;
  note_count = 0;
  reason = none;
  created_at = now;
}

unfoldable pub start_export : ℕ → ℕ → ℕ → Exports → Exports
start_export now id account_id exports =
    put_entry id (new_export now account_id) (evict_exports now exports)

unfoldable pub get_export : ℕ → ℕ → Exports → Exports × Option Export
get_export now id exports = let left = evict_exports now exports in (left, left id)

-- How the browser's work ended: the rows of the export, or an exception with its reason.
pub data Browsed : Type 0 where
  exported : List Row → Browsed
  raised : String → Browsed

-- What `upsert_notes` did, whose session writes nothing where it raises.
abbrev pub saved : Result (Db × ℕ) → Option (Db × ℕ)
saved (err e) = none
saved (ok written) = some written

abbrev pub save : Bool → ℕ → List Row → ℕ → ℕ → Db → Option (Db × ℕ)
save false account_id rows snapshot_date now db = none
save true account_id rows snapshot_date now db =
    saved (upsert_notes account_id rows snapshot_date now db)

abbrev pub end_export : ExportStatus → ℕ → Option String → Export → Export
end_export status note_count reason e = record e {
  status = status;
  note_count = note_count;
  reason = reason;
}

-- The end of the task, for what the session gave.
abbrev pub settle : ℕ → Option (Db × ℕ) → Exports → Db → Exports × Db
settle id none exports db = (write_entry id (end_export error 0 (some "导出任务异常")) exports, db)
settle id (some (db', count)) exports db =
    (write_entry id (end_export done count none) exports, db')

unfoldable pub run_export : Bool → ℕ → ℕ → ℕ → ℕ → Browsed → Exports → Db → Exports × Db
run_export db_up id account_id snapshot_date now (raised reason) exports db =
    (write_entry id (end_export error 0 (some reason)) exports, db)
run_export db_up id account_id snapshot_date now (exported rows) exports db =
    settle id (save db_up account_id rows snapshot_date now db) exports db

-- The ledger with the new task.
unfoldable pub start_note_export_endpoint :
    (XhsAccount → Result String)
    → Operator
    → Access
    → Accounts
    → ℕ
    → ℕ
    → ℕ
    → Exports
    → Result Exports
start_note_export_endpoint decrypt op access accounts now id account_id exports = do
  assert_account_access op account_id access
  account ← elim (find_account account_id accounts) [ none ↦ err not_found | some a ↦ ok a ]
  cookies ← decrypt account
  ok (start_export now id account_id exports)

abbrev pub granted_export : Operator → Access → Option Export → Result Export
granted_export op access none = err not_found
granted_export op access (some e) = assert_account_access op e.account_id access >> ok e

unfoldable pub get_note_export_endpoint : Operator → Access → ℕ → ℕ → Exports → Result Export
get_note_export_endpoint op access now id exports =
    granted_export op access (get_export now id exports).1
