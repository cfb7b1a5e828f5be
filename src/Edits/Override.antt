-- ===== src/Edits/Override.antt =====
-- The parameters that apply_edits of app/video/pipeline/remake/revision.py overrides. The keys of the
-- overrides that the source creates where they are missing are always there.
use nbdpsy_mcp.Prelude.{
  ℕ, ◌&&◌, List, [], ◌∷◌, ◌++◌, Option, none, some, String, str_eq, if◌then◌else◌, ◌*◌, pos,
}
use nbdpsy_mcp.Result.{Result, ok, err, internal_error, ◌>>=◌}
use nbdpsy_mcp.Pipeline.Blocks.{Override}
use nbdpsy_mcp.Pipeline.Timeline.{millis}
use nbdpsy_mcp.Edits.Value.{Value, Object, lookup, get, is_null, boolean, integer, float}
use nbdpsy_mcp.Edits.Key.{str}
use nbdpsy_mcp.Edits.Plan.{
  Op, OpType, card_edit, ball_style, global_param, scene_edit, ball_style_keys, global_param_keys,
}

-- The new texts of a card.
pub record Card : Type 0 where
  pub title : Option Value
  pub body : Option Value

-- The dictionary `ball`: the key static_source_spans, whose value is a list of spans, and all the others.
pub record Ball : Type 0 where
  pub params : Object
  pub static_source_spans : List (ℕ × ℕ)

pub record Overrides : Type 0 where
  pub cards : List (String × Card)
  pub ball : Ball
  pub global : Object
  pub card_duration_overrides : List Override

-- `d[key] = value`
unfoldable pub set_key {ℓ} : {V : Type ℓ} → String → V → List (String × V) → List (String × V)
set_key key value [] = (key, value) ∷ []
set_key key value ((k, v) ∷ fields) =
    let rest = set_key key value fields in
    if str_eq k key then (key, value) ∷ fields else (k, v) ∷ rest

-- `op[key]`
abbrev pub field : Option Value → Result Value
field none = err internal_error
field (some v) = ok v

abbrev pub set_given : Option Value → String → Object → Object
set_given none key params = params
set_given (some v) key params = set_key key v params

-- `for k in keys: if k in op: params[k] = op[k]`
unfoldable pub set_all : List String → Object → Object → Object
set_all [] op params = params
set_all (key ∷ keys) op params = set_all keys op (set_given (lookup key op) key params)

abbrev pub replace : Value → Option Value → Option Value
replace v old = if is_null v then old else some v

abbrev card_at : String → List (String × Card) → Card
card_at key [] = record { title = none; body = none }
card_at key ((k, c) ∷ cards) = if str_eq k key then c else card_at key cards

-- `setdefault` and the two assignments.
abbrev pub edit_texts : String → Object → List (String × Card) → List (String × Card)
edit_texts key op cards =
    let old = card_at key cards in
    let new : Card = record {
      title = replace (get "title" op) old.title;
      body = replace (get "body" op) old.body;
    } in
    set_key key new cards

abbrev pub with_cards : Overrides → List (String × Card) → Overrides
with_cards o cards = record o { cards = cards }

abbrev pub add_duration : ℕ × ℕ → ℕ → Overrides → Overrides
add_duration span d o =
    let new : Override = record { src_t0 = span.0; src_t1 = span.1; new_dur = d } in
    record o { card_duration_overrides = o.card_duration_overrides ++ new ∷ [] }

abbrev pub add_spans : Option (ℕ × ℕ) → Overrides → Overrides
add_spans none o = o
add_spans (some span) o = record o {
  ball = record o.ball { static_source_spans = o.ball.static_source_spans ++ span ∷ [] };
}

abbrev pub style_ball : Object → Ball → Ball
style_ball op ball = record ball { params = set_all ball_style_keys op ball.params }

module _ (fps : ℕ) where
  -- `float(value)` in ticks. A text and what is negative, which the check of the plan refuses, are left
  -- out, and so are the integers beyond the range of floats, for which `float` raises.
  abbrev pub ticks_of : Value → Result ℕ
  ticks_of (boolean b) = ok (if b then millis fps 1000 else 0)
  ticks_of (integer (pos n)) = ok (n * millis fps 1000)
  ticks_of (float (pos t)) = ok t
  ticks_of _ = err internal_error

  abbrev pub edit_duration : Value → Option (ℕ × ℕ) → Overrides → Result Overrides
  edit_duration ds none o = ok o
  edit_duration ds (some span) o =
      if is_null ds then ok o else ticks_of ds >>= λ d. ok (add_duration span d o)

module _ (repr : Value → String) where
  abbrev pub edit_cards : Object → Overrides → Result Overrides
  edit_cards op o =
      if is_null (get "title" op) && is_null (get "body" op)
      then ok o
      else field (lookup "scene_id" op) >>= λ sid.
          ok (with_cards o (edit_texts (str repr sid) op o.cards))

module _ (fps : ℕ) (repr : Value → String) where
  -- What an operation that is not on a line overrides.
  unfoldable pub override : OpType → Op → Overrides → Result Overrides
  override card_edit op o =
      edit_cards repr op.fields o
      >>= edit_duration fps (get "duration_s" op.fields) op.duration_source_span
  override ball_style op o = ok (record o { ball = style_ball op.fields o.ball })
  override scene_edit op o = ok (add_spans op.static_source_spans o)
  override global_param op o =
      ok (record o { global = set_all global_param_keys op.fields o.global })
  override _ op o = ok o
