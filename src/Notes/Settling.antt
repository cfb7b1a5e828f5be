-- ===== src/Notes/Settling.antt =====
-- The end of an export (app/services/note_export.py).
use nbdpsy_mcp.Prelude.{
  ℕ, Bool, true, false, List, Option, none, some, String, ◌≡◌, ◌⊎◌, inl, inr, refl, arith, length,
}
use nbdpsy_mcp.Notes.Ledger.{write_entry}
use nbdpsy_mcp.Notes.Metrics.{Row, Db}
use nbdpsy_mcp.Notes.Snapshots.{Exported, upsert_notes-Exported}
use nbdpsy_mcp.Notes.Plan.{IsValid}
use nbdpsy_mcp.Notes.Export.{
  Export, Exports, end_export, Browsed, exported, run_export, done, error, raised as browser_raised,
}

pub write_entry-same :
    {Entry : Type 0} (id : ℕ) (f : Entry → Entry) (registry : ℕ → Option Entry) (e : Entry)
    → registry id ≡ some e
    → write_entry id f registry id ≡ some (f e)
write_entry-same id f registry e there = rw there (ground arith)

module _ (id account_id snapshot_date now : ℕ) (e : Export) where
  -- The two ends of an export.
  abbrev pub Succeeded : Bool → Browsed → Db → Exports × Db → Type 0
  Succeeded db_up browsed db after =
      (rows : List Row) × (browsed ≡ exported rows)
      × (db_up ≡ true)
      × (after.0 id ≡ some (end_export done (length rows) none e))
      × Exported account_id snapshot_date now rows db after.1

  abbrev pub Failed : Bool → Browsed → Db → Exports × Db → Type 0
  Failed db_up browsed db after =
      (reason : String) × ((browsed ≡ browser_raised reason) ⊎ (db_up ≡ false))
      × (after.0 id ≡ some (end_export error 0 (some reason) e))
      × (after.1 ≡ db)

  -- An export that runs comes to its end: done with the number of the rows, which have been written,
  -- if the browser gave rows and the database took them; and else an error, with nothing written. The
  -- unique constraints stay met.
  pub run_export-Fate :
      (db_up : Bool) (browsed : Browsed) (exports : Exports) (db : Db)
      → exports id ≡ some e
      → IsValid db
      → IsValid (run_export db_up id account_id snapshot_date now browsed exports db).1
        × (Succeeded db_up browsed db
              (run_export db_up id account_id snapshot_date now browsed exports db)
            ⊎ Failed db_up browsed db
                (run_export db_up id account_id snapshot_date now browsed exports db))
  unfolding run_export
  run_export-Fate db_up (browser_raised reason) exports db there valid = (
    valid,
    inr (
      reason,
      inl refl,
      write_entry-same id (end_export error 0 (some reason)) exports e there,
      refl,
    ),
  )
  run_export-Fate false (exported rows) exports db there valid = (
    valid,
    inr (
      "导出任务异常",
      inr refl,
      write_entry-same id (end_export error 0 (some "导出任务异常")) exports e there,
      refl,
    ),
  )
  run_export-Fate true (exported rows) exports db there valid =
      let (db', same, valid', written) =
        upsert_notes-Exported account_id snapshot_date now rows db valid in
      rw same (
        valid',
        inl (
          rows,
          refl,
          refl,
          write_entry-same id (end_export done (length rows) none) exports e there,
          written,
        ),
      )
