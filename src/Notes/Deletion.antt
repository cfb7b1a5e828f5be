-- ===== src/Notes/Deletion.antt =====
-- app/services/note_delete.py and its endpoints in app/http/notes_rest.py: notes are deleted by a
-- browser in the background; a ledger in memory and a table (app/models/note_deletion.py) say what
-- came of it. What the browser did to one note after the other is an argument, and so is whether a
-- write to the database gets through.
use mathlib.Core.Option
use nbdpsy_mcp.Prelude.{
  ℕ, zero, suc, ◌+◌, Bool, true, false, ◌&&◌, List, [], ◌∷◌, ◌++◌, Option, none, some, String, ◌==◌,
  if◌then◌else◌, ltb,
}
use nbdpsy_mcp.Result.{Result, ok, err, not_found, ◌>>◌, ◌>>=◌}
use nbdpsy_mcp.Table.{find, update_where}
use nbdpsy_mcp.Auth.Guards.{Operator, assert_account_access}
use nbdpsy_mcp.Auth.Operators.{Access}
use nbdpsy_mcp.Accounts.Account.{XhsAccount, Accounts, find_account}
use nbdpsy_mcp.Notes.Ledger.{Registry, no_entries, put_entry, write_entry, evict}

-- `unknown` is in answers alone.
pub data Status : Type 0 where
  running done error unknown : Status

pub record Entry : Type 0 where
  pub status : Status
  pub account_id : ℕ
  pub title : String
  pub deleted : ℕ
  pub remaining : Option ℕ
  pub reason : Option String
  pub created_at : ℕ

-- The times of the row, which nothing reads, are left out.
pub record NoteDeletion : Type 0 where
  pub id : ℕ
  pub account_id : ℕ
  pub title : String
  pub status : Status
  pub deleted : ℕ
  pub remaining : Option ℕ
  pub reason : Option String

pub record Ledger : Type 0 where
  pub registry : Registry Entry
  pub rows : List NoteDeletion

abbrev pub is_terminal : Status → Bool
is_terminal done = true
is_terminal error = true
is_terminal _ = false

abbrev pub has_ended : Entry → Bool
has_ended e = is_terminal e.status

unfoldable pub evict_stale : ℕ → Ledger → Ledger
evict_stale now l = record l { registry = evict has_ended (λ e. e.created_at) now l.registry }

abbrev pub new_entry : ℕ → ℕ → String → Entry
new_entry now account_id title = record {
  status = running;
  account_id = account_id;
  title = title;
  deleted = 0;
  remaining = none;
  reason = none;
  created_at = now;
}

unfoldable pub start_delete : ℕ → ℕ → ℕ → String → Ledger → Ledger
start_delete now id account_id title l =
    let l' = evict_stale now l in
    record l' { registry = put_entry id (new_entry now account_id title) l'.registry }

-- The ledger with the new task; the title and the count passed the validation of the request.
unfoldable pub start_note_deletion_endpoint :
    (XhsAccount → Result String)
    → Operator
    → Access
    → Accounts
    → ℕ
    → ℕ
    → ℕ
    → String
    → Ledger
    → Result Ledger
start_note_deletion_endpoint decrypt op access accounts now id account_id title l = do
  assert_account_access op account_id access
  account ← elim (find_account account_id accounts) [ none ↦ err not_found | some a ↦ ok a ]
  cookies ← decrypt account
  ok (start_delete now id account_id title l)

-- The ledger after the eviction, and the entry.
unfoldable pub get_delete : ℕ → ℕ → Ledger → Ledger × Option Entry
get_delete now id l = let l' = evict_stale now l in (l', l'.registry id)

abbrev pub running_row : ℕ → ℕ → String → NoteDeletion
running_row id account_id title = record {
  id = id;
  account_id = account_id;
  title = title;
  status = running;
  deleted = 0;
  remaining = none;
  reason = none;
}

unfoldable pub db_insert_running : Bool → ℕ → ℕ → String → Ledger → Ledger
db_insert_running false id account_id title l = l
db_insert_running true id account_id title l = record l {
  rows = l.rows ++ running_row id account_id title ∷ [];
}

-- What the deletion of one note gave: how many cards had the title before, where the page showed that
-- one is gone; or the reason of the failure and whether it is note_not_found. After a failure for the
-- reason delete_not_effective the note may be gone all the same.
pub data Attempt : Type 0 where
  deleted_one : ℕ → Attempt
  failed : Bool → String → Attempt

-- How the work of the browser ended.
pub data Outcome : Type 0 where
  finished : ℕ → ℕ → Outcome
  raised : String → Outcome

-- What the page shows at the end: how many cards have the title, or the reason why it could not be
-- asked.
pub data Look : Type 0 where
  shown : ℕ → Look
  look_failed : String → Look

abbrev pub looked : ℕ → Look → Outcome
looked deleted (shown cards) = finished deleted cards
looked deleted (look_failed reason) = raised reason

abbrev pub after_attempt : ℕ → Look → Outcome → Attempt → Outcome
after_attempt deleted look rest (deleted_one before) =
    if ltb 1 before then rest else looked (deleted + 1) look
after_attempt deleted look rest (failed is_missing reason) =
    if ltb 0 deleted && is_missing then looked deleted look else raised reason

-- The loop of delete_notes_by_title over the attempts that the count allows, and the last look.
unfoldable pub delete_loop : ℕ → ℕ → Look → (ℕ → Attempt) → Outcome
delete_loop zero deleted look attempt = looked deleted look
delete_loop (suc count) deleted look attempt =
    after_attempt deleted look (delete_loop count (deleted + 1) look attempt) (attempt deleted)

unfoldable pub delete_notes_by_title : ℕ → Look → (ℕ → Attempt) → Outcome
delete_notes_by_title count look attempt = delete_loop count 0 look attempt

-- The fields that the end of a task writes.
pub record Final : Type 0 where
  pub status : Status
  pub deleted : ℕ
  pub remaining : Option ℕ
  pub reason : Option String

abbrev pub final : Outcome → Final
final (finished deleted remaining) = record {
  status = done;
  deleted = deleted;
  remaining = some remaining;
  reason = none;
}
final (raised reason) = record {
  status = error;
  deleted = 0;
  remaining = none;
  reason = some reason;
}

abbrev pub end_entry : Final → Entry → Entry
end_entry f e = record e {
  status = f.status;
  deleted = f.deleted;
  remaining = f.remaining;
  reason = f.reason;
}

abbrev pub end_row : Final → NoteDeletion → NoteDeletion
end_row f row = record row {
  status = f.status;
  deleted = f.deleted;
  remaining = f.remaining;
  reason = f.reason;
}

abbrev pub is_row : ℕ → NoteDeletion → Bool
is_row id row = row.id == id

unfoldable pub update_entry : ℕ → Final → Ledger → Ledger
update_entry id f l = record l { registry = write_entry id (end_entry f) l.registry }

abbrev pub db_update : Bool → ℕ → Final → List NoteDeletion → List NoteDeletion
db_update false id f rows = rows
db_update true id f rows = update_where (is_row id) (end_row f) rows

unfoldable pub finalize : Bool → ℕ → Outcome → Ledger → Ledger
finalize db_up id outcome l =
    let l' = update_entry id (final outcome) l in
    record l' { rows = db_update db_up id (final outcome) l'.rows }

-- The process ends: its memory is gone, its tasks with it.
abbrev pub restart : Ledger → Ledger
restart l = record l { registry = no_entries }

abbrev pub find_row : ℕ → List NoteDeletion → Option NoteDeletion
find_row = find (λ r. r.id)

-- What a poll is told, with the account that the access is checked for.
pub record Answer : Type 0 where
  pub status : Status
  pub account_id : ℕ
  pub deleted : ℕ
  pub remaining : Option ℕ
  pub reason : Option String

abbrev pub interrupted : String
interrupted = "server 重启中断了删除任务,是否已删结果未知:请到创作中心笔记管理页人工核对该标题笔记数量后再决定是否重新发起"

abbrev pub from_row : NoteDeletion → Answer
from_row row = record {
  status = elim row.status [ running ↦ unknown | s ↦ s ];
  account_id = row.account_id;
  deleted = row.deleted;
  remaining = row.remaining;
  reason = elim row.status [ running ↦ some interrupted | _ ↦ row.reason ];
}

abbrev pub from_entry : Entry → Answer
from_entry e = record {
  status = e.status;
  account_id = e.account_id;
  deleted = e.deleted;
  remaining = e.remaining;
  reason = e.reason;
}

unfoldable pub get_delete_persisted : ℕ → Ledger → Option Answer
get_delete_persisted id l = Option.map from_row (find_row id l.rows)

abbrev pub or_persisted : Option Entry → Option Answer → Option Answer
or_persisted none persisted = persisted
or_persisted (some e) persisted = some (from_entry e)

abbrev pub granted : Operator → Access → Option Answer → Result Answer
granted op access none = err not_found
granted op access (some answer) = assert_account_access op answer.account_id access >> ok answer

-- The answer; the eviction that a poll makes is an event of its own.
unfoldable pub get_note_deletion_endpoint : Operator → Access → ℕ → ℕ → Ledger → Result Answer
get_note_deletion_endpoint op access now id l =
    let polled = get_delete now id l in
    granted op access (or_persisted polled.1 (get_delete_persisted id polled.0))
