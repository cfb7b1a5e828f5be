-- ===== src/Notes/Answers.antt =====
-- What a poll of a deletion is told (get_note_deletion_endpoint in app/http/notes_rest.py), whatever
-- happens to other deletions, and whenever the process restarts.
use mathlib.Core.Option
use nbdpsy_mcp.Prelude.{
  ℕ, ◌+◌, ◌≤◌, Bool, true, false, List, Option, none, some, String, ◌≡◌, inl, inr, refl, ap, ◌∙◌,
  arith, All,
}
use nbdpsy_mcp.Table.{find-append_new, find-update_where, apply_if}
use nbdpsy_mcp.Auth.Guards.{Operator}
use nbdpsy_mcp.Auth.Operators.{Access}
use nbdpsy_mcp.Notes.Ledger.{hour, keep_entry, is_expired}
use nbdpsy_mcp.Notes.Deletion.{
  has_ended, unknown, Entry, NoteDeletion, Ledger, evict_stale, new_entry, start_delete, get_delete,
  running_row, db_insert_running, Outcome, finished, raised, Final, final, end_entry, end_row,
  is_row, update_entry, finalize, restart, find_row, Answer, interrupted, from_row, from_entry,
  get_delete_persisted, granted, get_note_deletion_endpoint,
}
use nbdpsy_mcp.Notes.Polling.{
  IsKept, Event, run, Foreign, Quiet, All-Quiet_Foreign, find_row-run, registry-run_quiet,
  IsRecalled, IsStored, keep_entry-IsKept, run-IsKept,
}

get_delete_persisted-stored :
    (id : ℕ) (l : Ledger) (row : NoteDeletion)
    → find_row id l.rows ≡ some row
    → get_delete_persisted id l ≡ some (from_row row)
unfolding get_delete_persisted
get_delete_persisted-stored id l row stored = ap (λ r. Option.map from_row r) stored

module _ (op : Operator) (access : Access) where
  poll-kept :
      (answer : Answer) (now id : ℕ) (l : Ledger)
      → IsRecalled answer (keep_entry has_ended (λ e. e.created_at) now (l.registry id))
      → IsStored answer (find_row id l.rows)
      → get_note_deletion_endpoint op access now id l ≡ granted op access (some answer)
  unfolding get_note_deletion_endpoint get_delete evict_stale
  poll-kept answer now id l kept (row, stored, same) =
      ap (granted op access) {y = some answer} (elim kept [
        | inl gone ↦
            rw gone (get_delete_persisted-stored id (evict_stale now l) row stored ∙ ap some same)
        | inr (e, there, same') ↦ rw there (ap some same')
      ])

  poll-recalled :
      (answer : Answer) (now id : ℕ) (l : Ledger)
      → IsRecalled answer (l.registry id)
      → IsStored answer (find_row id l.rows)
      → get_note_deletion_endpoint op access now id l ≡ granted op access (some answer)
  poll-recalled answer now id l recalled stored =
      poll-kept answer now id l
        (keep_entry-IsKept (λ e. from_entry e ≡ answer) now (l.registry id) recalled) stored

-- A deletion that has been started, with a row if the database took it, and what happened so far.
module _ (id account_id : ℕ) (title : String) (now : ℕ) where
  abbrev pub worked : Bool → List Event → List Event → Ledger → Ledger
  worked db_up queue work l = run work (
      db_insert_running db_up id account_id title
        (run queue (start_delete now id account_id title l)))

  -- What the end of a task is reported as.
  abbrev pub ended : Final → Answer
  ended f = record {
    status = f.status;
    account_id = account_id;
    deleted = f.deleted;
    remaining = f.remaining;
    reason = f.reason;
  }

  abbrev pub lost : Answer
  lost = record {
    status = unknown;
    account_id = account_id;
    deleted = 0;
    remaining = none;
    reason = some interrupted;
  }

  db_insert_running-registry :
      (db_up : Bool) (l : Ledger)
      → (db_insert_running db_up id account_id title l).registry id ≡ l.registry id
  unfolding db_insert_running
  db_insert_running-registry true l = refl
  db_insert_running-registry false l = refl

  worked-registry :
      (db_up : Bool) (queue work : List Event) (l : Ledger)
      → All (Quiet id) queue
      → All (Quiet id) work
      → (worked db_up queue work l).registry id ≡ some (new_entry now account_id title)
  unfolding start_delete evict_stale
  worked-registry db_up queue work l q w =
      registry-run_quiet id (new_entry now account_id title) work
        (db_insert_running db_up id account_id title
          (run queue (start_delete now id account_id title l)))
        refl w
        (db_insert_running-registry db_up _
          ∙ registry-run_quiet id (new_entry now account_id title) queue
              (start_delete now id account_id title l) refl q (ground arith))

  worked-rows :
      (queue work : List Event) (l : Ledger)
      → find_row id l.rows ≡ none
      → All (Quiet id) queue
      → All (Quiet id) work
      → find_row id (worked true queue work l).rows ≡ some (running_row id account_id title)
  unfolding db_insert_running start_delete evict_stale
  worked-rows queue work l fresh q w =
      find_row-run id work _ (All-Quiet_Foreign id work w)
      ∙ find-append_new (λ r. r.id) id (run queue (start_delete now id account_id title l)).rows
          (running_row id account_id title)
          (find_row-run id queue (start_delete now id account_id title l)
              (All-Quiet_Foreign id queue q)
            ∙ fresh)
      ∙ ground arith

  -- While a deletion is at work, a poll is told that it runs, after any time, whatever else is
  -- started, polled, written or finished, and whether or not the database took its row.
  pub poll-running :
      (op : Operator) (access : Access) (db_up : Bool) (queue work : List Event) (l : Ledger)
      → All (Quiet id) queue
      → All (Quiet id) work
      → (now' : ℕ)
      → get_note_deletion_endpoint op access now' id (worked db_up queue work l)
        ≡ granted op access (some (from_entry (new_entry now account_id title)))
  unfolding get_note_deletion_endpoint get_delete evict_stale
  poll-running op access db_up queue work l q w now' =
      rw (worked-registry db_up queue work l q w) refl

  abbrev final_entry : Outcome → Entry
  final_entry outcome = end_entry (final outcome) (new_entry now account_id title)

  finalize-registry :
      (db_up : Bool) (outcome : Outcome) (l : Ledger)
      → l.registry id ≡ some (new_entry now account_id title)
      → (finalize db_up id outcome l).registry id ≡ some (final_entry outcome)
  unfolding finalize update_entry
  finalize-registry db_up outcome l m = rw m (ground arith)

  final-row :
      (outcome : Outcome)
      → from_row (end_row (final outcome) (running_row id account_id title)) ≡ ended (final outcome)
  final-row (finished deleted remaining) = refl
  final-row (raised reason) = refl

  finalize-row :
      (outcome : Outcome) (l : Ledger)
      → find_row id l.rows ≡ some (running_row id account_id title)
      → IsStored (ended (final outcome)) (find_row id (finalize true id outcome l).rows)
  unfolding finalize update_entry
  finalize-row outcome l stored = (
    end_row (final outcome) (running_row id account_id title),
    find-update_where (λ r. r.id) id (is_row id) (end_row (final outcome)) l.rows (λ r. refl)
        ∙ ap (λ r. Option.map (apply_if (is_row id) (end_row (final outcome))) r) stored
        ∙ ground arith,
    final-row outcome,
  )

  finalize-row_failed :
      (outcome : Outcome) (l : Ledger)
      → find_row id (finalize false id outcome l).rows ≡ find_row id l.rows
  unfolding finalize update_entry
  finalize-row_failed outcome l = refl

  -- Once a deletion has ended and the database took its two writes, every later poll is told that
  -- end, done with the number of notes deleted, or error with its reason: from memory while the
  -- entry is there, and from the table when it has expired or the process was restarted.
  pub poll-finished :
      (op : Operator) (access : Access) (outcome : Outcome) (queue work after : List Event)
      (l : Ledger)
      → find_row id l.rows ≡ none
      → All (Quiet id) queue
      → All (Quiet id) work
      → All (Foreign id) after
      → (now' : ℕ)
      → get_note_deletion_endpoint op access now' id
          (run after (finalize true id outcome (worked true queue work l)))
        ≡ granted op access (some (ended (final outcome)))
  poll-finished op access outcome queue work after l fresh q w a now' =
      let l' = finalize true id outcome (worked true queue work l) in
      let (row, stored, same) =
        finalize-row outcome (worked true queue work l) (worked-rows queue work l fresh q w) in
      poll-recalled op access (ended (final outcome)) now' id (run after l')
        (run-IsKept (λ e. from_entry e ≡ ended (final outcome)) id after l' a
          (inr (
            final_entry outcome,
            finalize-registry true outcome (worked true queue work l)
                (worked-registry true queue work l q w),
            refl,
          )))
        (row, find_row-run id after l' a ∙ stored, same)

  -- When the process ends before a deletion does whose running row the database took, every later poll
  -- is told that what came of it is unknown, and never that it still runs.
  pub poll-interrupted :
      (op : Operator) (access : Access) (queue work after : List Event) (l : Ledger)
      → find_row id l.rows ≡ none
      → All (Quiet id) queue
      → All (Quiet id) work
      → All (Foreign id) after
      → (now' : ℕ)
      → get_note_deletion_endpoint op access now' id
          (run after (restart (worked true queue work l)))
        ≡ granted op access (some lost)
  poll-interrupted op access queue work after l fresh q w a now' =
      poll-recalled op access lost now' id _
        (run-IsKept (λ e. from_entry e ≡ lost) id after (restart (worked true queue work l)) a
          (inl refl))
        (
          running_row id account_id title,
          find_row-run id after (restart (worked true queue work l)) a
              ∙ worked-rows queue work l fresh q w,
          refl,
        )

  final_entry-expired :
      (outcome : Outcome) (now' : ℕ)
      → now + hour ≤ now'
      → is_expired has_ended (λ e. e.created_at) now' (final_entry outcome) ≡ true
  final_entry-expired (finished deleted remaining) now' late = ground (arith, late)
  final_entry-expired (raised reason) now' late = ground (arith, late)

  expired-gone :
      (outcome : Outcome) (now' : ℕ) (m : Option Entry)
      → now + hour ≤ now'
      → IsKept (λ e. e ≡ final_entry outcome) m
      → keep_entry has_ended (λ e. e.created_at) now' m ≡ none
  expired-gone outcome now' m late (inl gone) = rw gone refl
  expired-gone outcome now' m late (inr (e, there, same)) =
      rw (there, same, final_entry-expired outcome now' late) refl

  -- When the database took the running row of a deletion and refuses the write at its end, a poll an
  -- hour after its start is told that a restart of the server interrupted it, in a process that was
  -- never restarted.
  pub poll-misreported :
      (op : Operator) (access : Access) (outcome : Outcome) (queue work after : List Event)
      (l : Ledger)
      → find_row id l.rows ≡ none
      → All (Quiet id) queue
      → All (Quiet id) work
      → All (Quiet id) after
      → (now' : ℕ) → now + hour ≤ now'
      → get_note_deletion_endpoint op access now' id
          (run after (finalize false id outcome (worked true queue work l)))
        ≡ granted op access (some lost)
  poll-misreported op access outcome queue work after l fresh q w a now' late =
      let l' = finalize false id outcome (worked true queue work l) in
      let a' = All-Quiet_Foreign id after a in
      poll-kept op access lost now' id (run after l')
        (inl (
          expired-gone outcome now' ((run after l').registry id) late (
            run-IsKept (λ e. e ≡ final_entry outcome) id after l' a'
              (inr (
                final_entry outcome,
                finalize-registry false outcome (worked true queue work l)
                    (worked-registry true queue work l q w),
                refl,
              )))))
        (
          running_row id account_id title,
          find_row-run id after l' a'
              ∙ finalize-row_failed outcome (worked true queue work l)
              ∙ worked-rows queue work l fresh q w,
          refl,
        )
