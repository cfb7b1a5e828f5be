-- ===== src/Notes/Ledger.antt =====
-- The ledger of background tasks that app/services/note_delete.py, note_export.py and
-- cookie_check.py each keep in memory: a dict from task ids to entries, as a function. What an entry
-- holds, which entries are at their end, and when an entry was made are arguments.
use mathlib.Core.Option
use nbdpsy_mcp.Prelude.{ℕ, ◌+◌, ◌*◌, Bool, ◌&&◌, Option, none, some, if◌then◌else◌, leb, update}

abbrev pub Registry {ℓ} : Type ℓ → Type ℓ
Registry Entry = ℕ → Option Entry

abbrev pub hour : ℕ
hour = 3600 * 1000000

abbrev pub no_entries {ℓ} : {Entry : Type ℓ} → Registry Entry
no_entries id = none

module _ {ℓ} {Entry : Type ℓ} where
  -- `_registry[id] = entry`
  abbrev pub put_entry : ℕ → Entry → Registry Entry → Registry Entry
  put_entry id e registry = update registry id (some e)

  -- Writes to the entry of an id; nothing where there is none.
  abbrev pub write_entry : ℕ → (Entry → Entry) → Registry Entry → Registry Entry
  write_entry id f registry = update registry id (Option.map f (registry id))

  module _ (is_terminal : Entry → Bool) (created_at : Entry → ℕ) (now : ℕ) where
    -- `created_at <= now - _ENTRY_TTL`
    abbrev pub is_expired : Entry → Bool
    is_expired e = is_terminal e && leb (created_at e + hour) now

    abbrev pub keep_entry : Option Entry → Option Entry
    keep_entry none = none
    keep_entry (some e) = if is_expired e then none else some e

    abbrev pub evict : Registry Entry → Registry Entry
    evict registry id = keep_entry (registry id)
