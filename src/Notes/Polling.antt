-- ===== src/Notes/Polling.antt =====
-- What happens to the ledger of deletions (app/services/note_delete.py) over time, and what of it
-- reaches the entry and the row of one deletion.
use nbdpsy_mcp.Prelude.{
  ℕ, Bool, true, false, List, [], ◌∷◌, Option, none, some, String, ◌≡◌, ◌≢◌, ◌⊎◌, inl, inr, refl,
  ap, ◌∙◌, arith, All, Bool-cases,
}
use nbdpsy_mcp.Table.{find, find-append_other, find-update_other}
use nbdpsy_mcp.Notes.Ledger.{keep_entry, is_expired}
use nbdpsy_mcp.Notes.Deletion.{
  Entry, NoteDeletion, Ledger, has_ended, evict_stale, start_delete, running_row, db_insert_running,
  Outcome, final, end_row, update_entry, finalize, restart, find_row, Answer, from_row, from_entry,
}

-- What happens to the ledger: a poll, the three writes of a task, and the end of the process.
pub data Event : Type 0 where
  polled : ℕ → Event
  started : ℕ → ℕ → ℕ → String → Event
  inserted : Bool → ℕ → ℕ → String → Event
  finalized : Bool → ℕ → Outcome → Event
  restarted : Event

abbrev pub step : Event → Ledger → Ledger
step (polled now) l = evict_stale now l
step (started now id account_id title) l = start_delete now id account_id title l
step (inserted db_up id account_id title) l = db_insert_running db_up id account_id title l
step (finalized db_up id outcome) l = finalize db_up id outcome l
step restarted l = restart l

abbrev pub run : List Event → Ledger → Ledger
run [] l = l
run (e ∷ events) l = run events (step e l)

-- The event is none of this deletion.
abbrev pub Foreign : ℕ → Event → Type 0
Foreign id (started now id' account_id title) = id' ≢ id
Foreign id (inserted db_up id' account_id title) = id' ≢ id
Foreign id (finalized db_up id' outcome) = id' ≢ id
Foreign id _ = Unit

-- The process lives on, besides.
abbrev pub Quiet : ℕ → Event → Type 0
Quiet id restarted = ⊥
Quiet id e = Foreign id e

Foreign-cases : (id : ℕ) (e : Event) → Foreign id e → (e ≡ restarted) ⊎ Quiet id e
Foreign-cases id (polled now) f = inr tt
Foreign-cases id (started now id' account_id title) f = inr f
Foreign-cases id (inserted db_up id' account_id title) f = inr f
Foreign-cases id (finalized db_up id' outcome) f = inr f
Foreign-cases id restarted f = inl refl

Quiet-Foreign : (id : ℕ) (e : Event) → Quiet id e → Foreign id e
Quiet-Foreign id (polled now) q = tt
Quiet-Foreign id (started now id' account_id title) q = q
Quiet-Foreign id (inserted db_up id' account_id title) q = q
Quiet-Foreign id (finalized db_up id' outcome) q = q
Quiet-Foreign id restarted q = elim q [ ]

pub All-Quiet_Foreign :
    (id : ℕ) (events : List Event) → All (Quiet id) events → All (Foreign id) events
All-Quiet_Foreign id [] q = tt
All-Quiet_Foreign id (e ∷ events) q = (Quiet-Foreign id e q.0, All-Quiet_Foreign id events q.1)

-- The row of a deletion is written by its own events alone.
find_row-step :
    (id : ℕ) (e : Event) (l : Ledger)
    → Foreign id e
    → find_row id (step e l).rows ≡ find_row id l.rows
unfolding start_delete evict_stale db_insert_running finalize update_entry find
find_row-step id (polled now) l f = refl
find_row-step id (started now id' account_id title) l f = refl
find_row-step id restarted l f = refl
find_row-step id (inserted false id' account_id title) l f = refl
find_row-step id (finalized false id' outcome) l f = refl
find_row-step id (inserted true id' account_id title) l f =
    find-append_other (λ r. r.id) id l.rows (running_row id' account_id title) f
find_row-step id (finalized true id' outcome) l f =
    find-update_other (λ r. r.id) id id' (end_row (final outcome)) l.rows (λ r. refl) f

-- The entry of a deletion is what it was, or has expired, unless the process ends.
registry-step :
    (id : ℕ) (e : Event) (l : Ledger)
    → Quiet id e
    → ((step e l).registry id ≡ l.registry id)
      ⊎ ((now : ℕ) × ((step e l).registry id
            ≡ keep_entry has_ended (λ x. x.created_at) now (l.registry id)))
unfolding start_delete evict_stale db_insert_running finalize update_entry
registry-step id (polled now) l q = inr (now, refl)
registry-step id (started now id' account_id title) l q = inr (now, ground (arith, q))
registry-step id restarted l q = elim q [ ]
registry-step id (inserted false id' account_id title) l q = inl refl
registry-step id (inserted true id' account_id title) l q = inl refl
registry-step id (finalized false id' outcome) l q = inl (ground (arith, q))
registry-step id (finalized true id' outcome) l q = inl (ground (arith, q))

-- Nothing that has not ended expires.
pub keep_entry-running :
    (now : ℕ) (e : Entry)
    → has_ended e ≡ false
    → keep_entry has_ended (λ x. x.created_at) now (some e) ≡ some e
keep_entry-running now e h = rw h refl

pub registry-run_quiet :
    (id : ℕ) (e : Entry) (events : List Event) (l : Ledger)
    → has_ended e ≡ false
    → All (Quiet id) events
    → l.registry id ≡ some e
    → (run events l).registry id ≡ some e
registry-run_quiet id e [] l h q m = m
registry-run_quiet id e (x ∷ events) l h q m =
    registry-run_quiet id e events (step x l) h q.1 (elim (registry-step id x l q.0) [
      | inl same ↦ same ∙ m
      | inr (now, same) ↦
          same ∙ ap (keep_entry has_ended (λ x. x.created_at) now) m ∙ keep_entry-running now e h
    ])

pub find_row-run :
    (id : ℕ) (events : List Event) (l : Ledger)
    → All (Foreign id) events
    → find_row id (run events l).rows ≡ find_row id l.rows
find_row-run id [] l f = refl
find_row-run id (x ∷ events) l f = find_row-run id events (step x l) f.1 ∙ find_row-step id x l f.0

-- Memory has no entry any more, or one with the property.
abbrev pub IsKept : (Entry → Type 0) → Option Entry → Type 0
IsKept P m = (m ≡ none) ⊎ ((e : Entry) × (m ≡ some e) × P e)

pub keep_entry-IsKept :
    (P : Entry → Type 0) (now : ℕ) (m : Option Entry)
    → IsKept P m
    → IsKept P (keep_entry has_ended (λ x. x.created_at) now m)
keep_entry-IsKept P now none h = inl refl
keep_entry-IsKept P now (some e) h =
    elim (Bool-cases (is_expired has_ended (λ x. x.created_at) now e)) [
      | inl expired ↦ inl (rw expired refl)
      | inr fresh ↦ rw fresh h
    ]

step-IsKept :
    (P : Entry → Type 0) (id : ℕ) (e : Event) (l : Ledger)
    → Foreign id e
    → IsKept P (l.registry id)
    → IsKept P ((step e l).registry id)
step-IsKept P id e l f h = elim (Foreign-cases id e f) [
  | inl same ↦ inl (rw same refl)
  | inr q ↦ elim (registry-step id e l q) [
    | inl same ↦ rw same h
    | inr (now, same) ↦ rw same (keep_entry-IsKept P now (l.registry id) h)
  ]
]

pub run-IsKept :
    (P : Entry → Type 0) (id : ℕ) (events : List Event) (l : Ledger)
    → All (Foreign id) events
    → IsKept P (l.registry id)
    → IsKept P ((run events l).registry id)
run-IsKept P id [] l f h = h
run-IsKept P id (e ∷ events) l f h =
    run-IsKept P id events (step e l) f.1 (step-IsKept P id e l f.0 h)

-- Memory does not contradict an answer, and the table gives it.
abbrev pub IsRecalled : Answer → Option Entry → Type 0
IsRecalled answer m = IsKept (λ e. from_entry e ≡ answer) m

abbrev pub IsStored : Answer → Option NoteDeletion → Type 0
IsStored answer r = (row : NoteDeletion) × (r ≡ some row) × (from_row row ≡ answer)
