-- ===== src/Edits/Reply.antt =====
-- parse_instructions of app/video/pipeline/remake/revision.py: the plan in a reply of the language model.
-- What `json.loads` makes of a text is an argument, `none` where it raises; spaces around the reply only
-- change the message of a refusal.
use nbdpsy_mcp.Prelude.{List, ◌∷◌, Option, none, some, String, ℕ}
use nbdpsy_mcp.Result.{Result, ok, err, edit_plan_error, ◌>>=◌, ◌>>◌}
use nbdpsy_mcp.Pipeline.Blocks.{Scene}
use nbdpsy_mcp.Edits.Bracket.{from_bracket, then_to_bracket}
use nbdpsy_mcp.Edits.Plan.{Line, StoryScene, Item, validate_edit_plan}
use nbdpsy_mcp.Edits.Spans.{resolve}

pub data Json : Type 0 where
  array : List Item → Json
  no_array : Json

abbrev items : Option Json → Option (List Item)
items (some (array ops)) = some ops
items _ = none

module _ (loads : String → Option Json) where
  abbrev loaded : Option String → Option (List Item)
  loaded none = none
  loaded (some s) = items (loads s)

  unfoldable pub extract_json_array : String → Option (List Item)
  extract_json_array content = loaded (then_to_bracket (from_bracket content))

  abbrev pub non_empty : Option (List Item) → Result (List Item)
  non_empty (some (op ∷ ops)) = ok (op ∷ ops)
  non_empty _ = err edit_plan_error

  abbrev or_empty : Option String → String
  or_empty none = ""
  or_empty (some s) = s

  unfoldable pub parse_instructions : Option String → Result (List Item)
  parse_instructions reply = non_empty (extract_json_array (or_empty reply))

  -- The plan of a child job, as the endpoint makes it of a reply.
  unfoldable pub edit_plan :
      ℕ → Option String → List Line → List StoryScene → Option (List Scene) → Result (List Item)
  edit_plan fps reply lines scenes facts = parse_instructions reply >>= λ ops.
      validate_edit_plan fps ops lines scenes >> ok (resolve fps ops scenes facts)
