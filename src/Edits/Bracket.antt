-- ===== src/Edits/Bracket.antt =====
-- `content[content.find("["):content.rfind("]") + 1]` of app/video/pipeline/remake/revision.py.
use Prim.Native.String.{String, [], ◌∷◌}
use nbdpsy_mcp.Prelude.{Option, none, some, str_eq, if◌then◌else◌}

-- From the first bracket on.
unfoldable pub from_bracket : String → Option String
from_bracket [] = none
from_bracket (c ∷ s) =
    let rest = from_bracket s in if str_eq (c ∷ []) "[" then some (c ∷ s) else rest

abbrev up_to : Option String → String → Option String
up_to none s = if str_eq s "]" then some s else none
up_to (some rest) [] = some rest
up_to (some rest) (c ∷ s) = some (c ∷ rest)

-- Up to the last bracket.
unfoldable pub to_bracket : String → Option String
to_bracket [] = none
to_bracket (c ∷ s) = up_to (to_bracket s) (c ∷ [])

abbrev pub then_to_bracket : Option String → Option String
then_to_bracket none = none
then_to_bracket (some s) = to_bracket s
