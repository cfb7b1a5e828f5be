-- ===== src/Edits/Apply.antt =====
-- apply_edits of app/video/pipeline/remake/revision.py: what a plan makes of the lines.
use nbdpsy_mcp.Prelude.{
  ℕ, suc, Bool, true, false, List, [], ◌∷◌, ◌++◌, Option, none, some, String, length, update, map,
}
use nbdpsy_mcp.Result.{Result, ok, err, edit_plan_error, internal_error, ◌>>=◌}
use nbdpsy_mcp.Edits.Value.{Value, string, lookup, get}
use nbdpsy_mcp.Edits.Override.{Overrides, field, override}
use nbdpsy_mcp.Edits.Plan.{
  Line, Op, Item, not_object, object, OpType, script_edit, script_delete, script_insert, type_of,
  index_in,
}

-- What the first pass collects, by the indices of the lines as they were.
pub record Edits : Type 0 where
  pub edits : ℕ → Option Value
  pub deletes : ℕ → Bool
  pub inserts : ℕ → List Value
  pub overrides : Overrides

abbrev pub set_line : ℕ → Value → Edits → Edits
set_line i v e = record e { edits = update e.edits i (some v) }

abbrev pub delete_line : ℕ → Edits → Edits
delete_line i e = record e { deletes = update e.deletes i true }

abbrev pub insert_line : ℕ → Value → Edits → Edits
insert_line i v e = record e { inserts = update e.inserts i (e.inserts i ++ v ∷ []) }

abbrev pub with_overrides : Edits → Overrides → Edits
with_overrides e o = record e { overrides = o }

-- A new line has the fields of its neighbour but for the texts, and is spoken.
abbrev pub make_inserted : Line → Value → Line
make_inserted neighbor text = record neighbor { zh = text; en = string ""; no_dub = false }

abbrev pub rewrite : Option Value → Line → Line
rewrite none l = l
rewrite (some v) l = record l { zh = v }

abbrev pub keep : Bool → Option Value → Line → List Line
keep true v l = []
keep false v l = rewrite v l ∷ []

-- The second pass, from the line i on.
unfoldable pub rebuild : Edits → ℕ → List Line → List Line
rebuild e i [] = []
rebuild e i (l ∷ lines) =
    keep (e.deletes i) (e.edits i) l
    ++ map (make_inserted l) (e.inserts i)
    ++ rebuild e (suc i) lines

abbrev pub start_edits : Overrides → Edits
start_edits o = record { edits = λ i. none; deletes = λ i. false; inserts = λ i. []; overrides = o }

module _ (fps : ℕ) (repr : Value → String) where
  -- One turn of the loop over the plan, with the number of lines.
  abbrev pub collect_typed : ℕ → Option OpType → Op → Edits → Result Edits
  collect_typed n none op e = err edit_plan_error
  collect_typed n (some script_edit) op e = index_in n (lookup "index" op.fields) >>= λ i.
      field (lookup "new_text" op.fields) >>= λ v. ok (set_line i v e)
  collect_typed n (some script_delete) op e =
      index_in n (lookup "index" op.fields) >>= λ i. ok (delete_line i e)
  collect_typed n (some script_insert) op e = index_in n (lookup "after_index" op.fields) >>= λ i.
      field (lookup "text" op.fields) >>= λ v. ok (insert_line i v e)
  collect_typed n (some t) op e =
      override fps repr t op e.overrides >>= λ o. ok (with_overrides e o)

  unfoldable pub collect_op : ℕ → Item → Edits → Result Edits
  collect_op n not_object e = err internal_error
  collect_op n (object op) e = collect_typed n (type_of (get "type" op.fields)) op e

  unfoldable pub collect : ℕ → List Item → Edits → Result Edits
  collect n [] e = ok e
  collect n (op ∷ ops) e = collect_op n op e >>= collect n ops

  unfoldable pub apply_edits : List Item → List Line → Overrides → Result (List Line × Overrides)
  apply_edits ops lines o =
      collect (length lines) ops (start_edits o) >>= λ e. ok (rebuild e 0 lines, e.overrides)
