-- ===== src/Edits/Spans.antt =====
-- The resolvers of app/video/pipeline/remake/revision.py: the scenes that a plan names, as windows of
-- the source's facts, which the child job inherits. The plan has passed its check, so that each element
-- is an object. Both axes count from the same moment before the start of the film, as in `Pipeline`, so
-- that no difference is negative.
use nbdpsy_mcp.Prelude.{
  ℕ, ◌+◌, ◌-◌, ◌/◌, Bool, List, [], ◌∷◌, Option, none, some, if◌then◌else◌, leb,
}
use nbdpsy_mcp.Pipeline.Blocks.{Scene, is_ball}
use nbdpsy_mcp.Pipeline.Timeline.{millis}
use nbdpsy_mcp.Edits.Value.{Value, get, is_null, is_id}
use nbdpsy_mcp.Edits.Plan.{
  StoryScene, Op, Item, not_object, object, OpType, card_edit, scene_edit, type_of, scene_by_id,
}

-- The end of a card on the new axis, and on the source's.
pub record Anchor : Type 0 where
  pub retimed : ℕ
  pub source : ℕ

unfoldable pub facts_cards : List Scene → List Scene
facts_cards [] = []
facts_cards (sc ∷ scenes) =
    let rest = facts_cards scenes in if is_ball sc.kind then rest else sc ∷ rest

unfoldable pub sb_cards : List StoryScene → List StoryScene
sb_cards [] = []
sb_cards (sc ∷ scenes) = let rest = sb_cards scenes in if sc.is_still then sc ∷ rest else rest

unfoldable pub anchors_of : List Scene → List StoryScene → List Anchor
anchors_of [] stills = []
anchors_of (f ∷ facts) [] = []
anchors_of (f ∷ facts) (sc ∷ stills) =
    record { retimed = sc.t1; source = f.t1 } ∷ anchors_of facts stills

-- Without facts there is no anchor.
unfoldable pub card_offset_anchors : List StoryScene → Option (List Scene) → List Anchor
card_offset_anchors scenes none = []
card_offset_anchors scenes (some facts) = anchors_of (facts_cards facts) (sb_cards scenes)

-- The last anchor before the first one that is behind t.
unfoldable pub anchor_at : ℕ → Option Anchor → List Anchor → Option Anchor
anchor_at t last [] = last
anchor_at t last (a ∷ anchors) =
    let later = anchor_at t (some a) anchors in if leb a.retimed t then later else last

-- `t - offset`
abbrev pub moved : Option Anchor → ℕ → ℕ
moved none t = t
moved (some a) t = (t + a.source) - a.retimed

-- The offset is that of the middle of the scene.
unfoldable pub source_span : List Anchor → StoryScene → ℕ × ℕ
source_span anchors sc =
    let a = anchor_at ((sc.t0 + sc.t1) / 2) none anchors in (moved a sc.t0, moved a sc.t1)

module _ (fps : ℕ) where
  abbrev pub with_static : List Anchor → Op → Option StoryScene → Op
  with_static anchors op none = op
  with_static anchors op (some sc) = record op {
    static_source_spans = some (source_span anchors sc);
  }

  unfoldable pub resolve_static : List StoryScene → List Anchor → Option OpType → Op → Op
  resolve_static scenes anchors (some scene_edit) op =
      with_static anchors op (scene_by_id fps (get "scene_id" op.fields) scenes)
  resolve_static scenes anchors _ op = op

  unfoldable pub resolve_scene_edit_spans :
      List Item → List StoryScene → Option (List Scene) → List Item
  resolve_scene_edit_spans [] scenes facts = []
  resolve_scene_edit_spans (not_object ∷ ops) scenes facts =
      not_object ∷ resolve_scene_edit_spans ops scenes facts
  resolve_scene_edit_spans (object op ∷ ops) scenes facts =
      object (
        resolve_static scenes (card_offset_anchors scenes facts) (type_of (get "type" op.fields))
          op)
      ∷ resolve_scene_edit_spans ops scenes facts

  -- The card of the facts at the same place among the cards, or else the scene's own times.
  abbrev pub window : List Scene → StoryScene → ℕ × ℕ
  window [] sc = (sc.t0, sc.t1)
  window (f ∷ facts) sc = (f.t0, f.t1)

  abbrev pub rest_of : List Scene → List Scene
  rest_of [] = []
  rest_of (f ∷ facts) = facts

  abbrev pub or_window : Option (ℕ × ℕ) → Bool → ℕ × ℕ → Option (ℕ × ℕ)
  or_window (some later) found own = some later
  or_window none found own = if found then some own else none

  -- `window_by_id`: of the cards with one id, the last.
  unfoldable pub window_by_id : Value → List StoryScene → List Scene → Option (ℕ × ℕ)
  window_by_id sid [] facts = none
  window_by_id sid (sc ∷ stills) facts =
      or_window (window_by_id sid stills (rest_of facts)) (is_id (millis fps 1000) sid sc.id)
        (window facts sc)

  abbrev pub cards_of : Option (List Scene) → List Scene
  cards_of none = []
  cards_of (some facts) = facts_cards facts

  abbrev pub with_window : Op → Option (ℕ × ℕ) → Op
  with_window op none = op
  with_window op (some span) = record op { duration_source_span = some span }

  unfoldable pub resolve_duration : List StoryScene → List Scene → Option OpType → Op → Op
  resolve_duration stills facts (some card_edit) op =
      if is_null (get "duration_s" op.fields)
      then op
      else with_window op (window_by_id (get "scene_id" op.fields) stills facts)
  resolve_duration stills facts _ op = op

  unfoldable pub resolve_card_duration_spans :
      List Item → List StoryScene → Option (List Scene) → List Item
  resolve_card_duration_spans [] scenes facts = []
  resolve_card_duration_spans (not_object ∷ ops) scenes facts =
      not_object ∷ resolve_card_duration_spans ops scenes facts
  resolve_card_duration_spans (object op ∷ ops) scenes facts =
      object
        (resolve_duration (sb_cards scenes) (cards_of facts) (type_of (get "type" op.fields)) op)
      ∷ resolve_card_duration_spans ops scenes facts

  -- What the endpoint does of an accepted plan.
  unfoldable pub resolve : List Item → List StoryScene → Option (List Scene) → List Item
  resolve ops scenes facts =
      resolve_card_duration_spans (resolve_scene_edit_spans ops scenes facts) scenes facts
