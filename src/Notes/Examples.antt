-- ===== src/Notes/Examples.antt =====
-- A deletion of up to three notes by an operator with a grant, beside another deletion.
mod Tables
use mathlib.Core.Option
use nbdpsy_mcp.Prelude.{
  ℕ, zero, suc, ◌*◌, ◌+◌, ◌≤◌, ◌<◌, ◌≢◌, Bool, true, false, List, [], ◌∷◌, Option, none, some,
  String, ◌≡◌, ◌⊎◌, refl, arith, All,
}
use nbdpsy_mcp.Result.{Result, ok, err, access_denied}
use nbdpsy_mcp.Table.{find, update_where}
use nbdpsy_mcp.Auth.Guards.{Operator, OperatorAccountAccess, assert_account_access, has_grant}
use nbdpsy_mcp.Auth.Operators.{Access}
use nbdpsy_mcp.Notes.Ledger.{hour, no_entries}
use nbdpsy_mcp.Notes.Deletion.{
  running, done, error, Ledger, Attempt, deleted_one, failed, finished, raised, Look, shown,
  look_failed, after_attempt, delete_loop, delete_notes_by_title, final, start_delete, evict_stale,
  db_insert_running, new_entry, update_entry, finalize, restart, from_entry, granted, get_delete,
  get_delete_persisted, get_note_deletion_endpoint,
}
use nbdpsy_mcp.Notes.Polling.{Event, polled, started, inserted, finalized, restarted, run, Quiet}
use nbdpsy_mcp.Notes.Answers.{
  worked, ended, lost, poll-running, poll-finished, poll-interrupted, poll-misreported,
}
use nbdpsy_mcp.Notes.Deleting.{DeletedBelow, delete_notes_by_title-Reported}

abbrev pub op : Operator
op = record {
  id = 3;
  name = "op";
  apikey_hash = "";
  role = "operator";
  enabled = true;
  created_at = 0;
  created_by = none;
}

abbrev pub access : Access
access =
    record { id = 1; operator_id = 3; xhs_account_id = 5; granted_by = none; created_at = 0 } ∷ []

abbrev empty : Ledger
empty = record { registry = no_entries; rows = [] }

abbrev queue : List Event
queue = polled 1000 ∷ started 1500 8 5 "b" ∷ []

abbrev work : List Event
work = inserted true 8 5 "b" ∷ finalized true 8 (raised "need_manual_login") ∷ []

abbrev after : List Event
after = polled (2 * hour) ∷ restarted ∷ []

abbrev after_quiet : List Event
after_quiet = polled 9000 ∷ []

eight_ne_seven : ◌≢◌ {A = ℕ} 8 7
eight_ne_seven e = omega (arith, e)

abbrev queue-Quiet : All (Quiet 7) queue
queue-Quiet = (tt, (eight_ne_seven, tt))

abbrev work-Quiet : All (Quiet 7) work
work-Quiet = (eight_ne_seven, (eight_ne_seven, tt))

-- Two cards are left, then one, then the confirmation does not appear.
abbrev attempt : ℕ → Attempt
attempt zero = deleted_one 3
attempt (suc zero) = deleted_one 2
attempt _ = failed false "confirm_dialog_not_found"

deleted_two : delete_notes_by_title 2 (shown 1) attempt ≡ finished 2 1
unfolding delete_notes_by_title delete_loop
deleted_two = refl

-- The cards cannot be counted after two notes are gone.
look_lost : delete_notes_by_title 2 (look_failed "closed") attempt ≡ raised "closed"
unfolding delete_notes_by_title delete_loop
look_lost = refl

raised_third : delete_notes_by_title 3 (shown 1) attempt ≡ raised "confirm_dialog_not_found"
unfolding delete_notes_by_title delete_loop
raised_third = refl

poll-finished_example :
    get_note_deletion_endpoint op access
      (3 * hour)
      7
      (run after (finalize true 7 (finished 2 1) (worked 7 5 "a" 1000 true queue work empty)))
    ≡ granted op access (some (ended 7 5 "a" 1000 (final (finished 2 1))))
unfolding find
poll-finished_example =
    poll-finished 7 5 "a" 1000 op access (finished 2 1) queue work after empty refl queue-Quiet
      work-Quiet (tt, (tt, tt)) (3 * hour)

poll-interrupted_example :
    get_note_deletion_endpoint op access
      (3 * hour)
      7
      (run after_quiet (restart (worked 7 5 "a" 1000 true queue work empty)))
    ≡ granted op access (some (lost 7 5 "a" 1000))
unfolding find
poll-interrupted_example =
    poll-interrupted 7 5 "a" 1000 op access queue work after_quiet empty refl queue-Quiet work-Quiet
      (tt, tt) (3 * hour)

poll-misreported_example :
    get_note_deletion_endpoint op access (1000 + hour) 7 (
      run after_quiet (finalize false 7 (finished 2 1) (worked 7 5 "a" 1000 true queue work empty)))
    ≡ granted op access (some (lost 7 5 "a" 1000))
unfolding find
poll-misreported_example =
    poll-misreported 7 5 "a" 1000 op access (finished 2 1) queue work after_quiet empty refl
      queue-Quiet work-Quiet (tt, tt) (1000 + hour) (omega arith)

delete_notes_by_title-Reported_example :
    (total : ℕ) × (total ≤ 3)
    × DeletedBelow total attempt
    × (((cards : ℕ) × (shown 1 ≡ shown cards)
          × (final (delete_notes_by_title 3 (shown 1) attempt)
              ≡ record { status = done; deleted = total; remaining = some cards; reason = none }))
        ⊎ ((reason : String) × ((shown 1 ≡ look_failed reason)
              ⊎ ((is_missing : Bool) × (attempt total ≡ failed is_missing reason)))
            × (final (delete_notes_by_title 3 (shown 1) attempt)
                ≡ record { status = error; deleted = 0; remaining = none; reason = some reason })))
delete_notes_by_title-Reported_example = delete_notes_by_title-Reported 3 (shown 1) attempt
