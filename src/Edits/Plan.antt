-- ===== src/Edits/Plan.antt =====
-- validate_edit_plan of app/video/pipeline/remake/revision.py: the check of the operations that a
-- language model made of the instructions, against the lines and the scenes of the film. An exception
-- stands without its message. The bounds on durations are exact, without the source's 1e-6.
use nbdpsy_mcp.Prelude.{
  ℕ, ◌-◌, Bool, true, false, not, ◌&&◌, ◌||◌, List, [], ◌∷◌, Option, none, some, String, str_eq,
  pos, if◌then◌else◌, ltb, leb, length,
}
use nbdpsy_mcp.Result.{Result, ok, err, edit_plan_error, internal_error, guard, ◌>>◌, ◌>>=◌}
use nbdpsy_mcp.Pipeline.Blocks.{Kind, is_ball, is_card}
use nbdpsy_mcp.Pipeline.Timeline.{min_card_duration, millis}
use nbdpsy_mcp.Edits.Value.{
  Value, Object, null, boolean, integer, string, lookup, get, is_null, is_string, is_hashable,
  are_known, is_id, positive,
}

-- A line of rewritten.json.
pub record Line : Type 0 where
  pub zh : Value
  pub en : Value
  pub no_dub : Bool
  pub start : Option ℕ
  pub end_ : Option ℕ
  pub orig_start : Option ℕ
  pub orig_end : Option ℕ

-- A scene of storyboard.json, and whether its renderer is still_image.
pub record StoryScene : Type 0 where
  pub id : ℕ
  pub kind : Kind
  pub is_still : Bool
  pub t0 : ℕ
  pub t1 : ℕ

pub data OpType : Type 0 where
  script_edit script_delete script_insert card_edit ball_style global_param scene_edit : OpType

-- An element of the plan, where it is an object: its keys, and what the two resolvers add to it.
pub record Op : Type 0 where
  pub fields : Object
  pub static_source_spans : Option (ℕ × ℕ)
  pub duration_source_span : Option (ℕ × ℕ)

pub data Item : Type 0 where
  not_object : Item
  object : Op → Item

abbrev pub ball_style_keys : List String
ball_style_keys = "y_ratio" ∷ "palette" ∷ "period_s" ∷ "color_mode" ∷ "color_cycle_periods" ∷ []

abbrev pub global_param_keys : List String
global_param_keys = "sentence_gap" ∷ "disclaimer_text" ∷ "closing_line" ∷ []

abbrev scene_edit_keys : List String
scene_edit_keys = "type" ∷ "scene_id" ∷ "static" ∷ "static_source_spans" ∷ []

unfoldable pub type_named : String → Option OpType
type_named s =
    if str_eq s "script_edit"
    then some script_edit
    else if str_eq s "script_delete"
    then some script_delete
    else if str_eq s "script_insert"
    then some script_insert
    else if str_eq s "card_edit"
    then some card_edit
    else if str_eq s "ball_style"
    then some ball_style
    else if str_eq s "global_param"
    then some global_param
    else if str_eq s "scene_edit"
    then some scene_edit
    else none

abbrev pub type_of : Value → Option OpType
type_of (string s) = type_named s
type_of _ = none

-- `_require_int`, and the bounds.
abbrev pub index_in : ℕ → Option Value → Result ℕ
index_in n (some (integer (pos i))) = if ltb i n then ok i else err edit_plan_error
index_in n _ = err edit_plan_error

abbrev check_string : Value → Result (Unit {0})
check_string v = guard (is_string v) edit_plan_error

abbrev pub check_least : ℕ → Option ℕ → Result (Unit {0})
check_least least none = err edit_plan_error
check_least least (some d) = guard (leb least d) edit_plan_error

abbrev pub end_or : Option ℕ → ℕ → ℕ
end_or none start = start
end_or (some t) start = t

abbrev pub in_card : StoryScene → Bool → Option ℕ → Bool
in_card sc true start = false
in_card sc false none = false
in_card sc false (some start) = leb sc.t0 start && ltb start sc.t1

abbrev pub or_zero : Option ℕ → ℕ
or_zero none = 0
or_zero (some t) = t

unfoldable pub card_dub_durations : StoryScene → List Line → List ℕ
card_dub_durations sc [] = []
card_dub_durations sc (l ∷ lines) =
    let rest = card_dub_durations sc lines in
    if in_card sc l.no_dub l.start
    then (end_or l.end_ (or_zero l.start) - or_zero l.start) ∷ rest
    else rest

-- `scene_by_id`: of the scenes with one id, the last.
abbrev pub or_later : Option StoryScene → Bool → StoryScene → Option StoryScene
or_later (some later) found sc = some later
or_later none found sc = if found then some sc else none

abbrev pub or_missing : Option StoryScene → Result StoryScene
or_missing none = err edit_plan_error
or_missing (some sc) = ok sc

module _ (fps : ℕ) where
  unfoldable pub scene_by_id : Value → List StoryScene → Option StoryScene
  scene_by_id sid [] = none
  scene_by_id sid (sc ∷ scenes) =
      or_later (scene_by_id sid scenes) (is_id (millis fps 1000) sid sc.id) sc

  -- The scene of an operation: the key is there, the dictionary can be asked, and it has the scene.
  abbrev pub scene_of : Option Value → List StoryScene → Result StoryScene
  scene_of none scenes = err edit_plan_error
  scene_of (some sid) scenes =
      guard (is_hashable sid) internal_error >> or_missing (scene_by_id sid scenes)

  unfoldable pub check_duration : Value → StoryScene → List Line → Result (Unit {0})
  check_duration ds sc lines =
      if is_null ds
      then ok tt
      else check_least (min_card_duration fps (card_dub_durations sc lines))
          (positive (millis fps 1000) ds)

  unfoldable pub check_card : Object → List Line → List StoryScene → Result (Unit {0})
  check_card op lines scenes = scene_of (lookup "scene_id" op) scenes >>= λ sc.
      guard (is_card sc.kind) edit_plan_error
      >> guard
          (not
            (is_null (get "title" op) && is_null (get "body" op) && is_null (get "duration_s" op)))
          edit_plan_error
      >> check_duration (get "duration_s" op) sc lines

-- The keys but for the type.
unfoldable pub params : Object → Object
params [] = []
params ((k, v) ∷ fields) =
    let rest = params fields in if str_eq k "type" then rest else (k, v) ∷ rest

abbrev pub is_empty : Object → Bool
is_empty [] = true
is_empty (_ ∷ _) = false

unfoldable pub validate_param_keys : Object → List String → Result (Unit {0})
validate_param_keys op allowed =
    guard (are_known allowed (params op)) edit_plan_error
    >> guard (not (is_empty (params op))) edit_plan_error

abbrev pub is_color_mode : Value → Bool
is_color_mode null = true
is_color_mode (string s) = str_eq s "cycle" || str_eq s "single"
is_color_mode _ = false

abbrev pub is_cycle_periods : Value → Bool
is_cycle_periods null = true
is_cycle_periods (integer (pos n)) = leb 1 n
is_cycle_periods _ = false

abbrev pub is_true : Value → Bool
is_true (boolean b) = b
is_true _ = false

module _ (fps : ℕ) where
  unfoldable pub check_scene : Object → List StoryScene → Result (Unit {0})
  check_scene op scenes = scene_of fps (lookup "scene_id" op) scenes >>= λ sc.
      guard (is_ball sc.kind) edit_plan_error
      >> guard (is_true (get "static" op)) edit_plan_error
      >> guard (are_known scene_edit_keys op) edit_plan_error

  abbrev pub check_typed : Option OpType → Object → List Line → List StoryScene → Result (Unit {0})
  check_typed none op lines scenes = err edit_plan_error
  check_typed (some script_edit) op lines scenes =
      index_in (length lines) (lookup "index" op) >>= λ i. check_string (get "new_text" op)
  check_typed (some script_delete) op lines scenes =
      index_in (length lines) (lookup "index" op) >>= λ i. ok tt
  check_typed (some script_insert) op lines scenes =
      index_in (length lines) (lookup "after_index" op) >>= λ i. check_string (get "text" op)
  check_typed (some card_edit) op lines scenes = check_card fps op lines scenes
  check_typed (some ball_style) op lines scenes =
      validate_param_keys op ball_style_keys
      >> guard (is_color_mode (get "color_mode" op)) edit_plan_error
      >> guard (is_cycle_periods (get "color_cycle_periods" op)) edit_plan_error
  check_typed (some scene_edit) op lines scenes = check_scene op scenes
  check_typed (some global_param) op lines scenes = validate_param_keys op global_param_keys

  unfoldable pub check_op : Item → List Line → List StoryScene → Result (Unit {0})
  check_op not_object lines scenes = err edit_plan_error
  check_op (object op) lines scenes =
      check_typed (type_of (get "type" op.fields)) op.fields lines scenes

  -- The first operation that is wrong refuses the plan.
  unfoldable pub validate_edit_plan : List Item → List Line → List StoryScene → Result (Unit {0})
  validate_edit_plan [] lines scenes = ok tt
  validate_edit_plan (op ∷ ops) lines scenes =
      check_op op lines scenes >> validate_edit_plan ops lines scenes
