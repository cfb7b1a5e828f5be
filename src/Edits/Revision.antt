-- ===== src/Edits/Revision.antt =====
-- A revision as a whole: the check of app/video/pipeline/remake/revision.py and its resolvers, which the
-- endpoint calls, and then apply_edits, which the child job calls.
use nbdpsy_mcp.Prelude.{
  ℕ, suc, Bool, true, List, [], ◌∷◌, ◌++◌, Option, none, some, ◌≡◌, false, refl, ap, ◌∙◌, String,
  length, if◌then◌else◌,
}
use nbdpsy_mcp.Result.{Result, ok, err, >>=-eq-ok, ok_inj, is_ok}
use nbdpsy_mcp.Pipeline.Blocks.{Scene}
use nbdpsy_mcp.Edits.Value.{Value, get, is_null}
use nbdpsy_mcp.Edits.Plan.{
  Line, StoryScene, Op, Item, not_object, object, OpType, card_edit, scene_edit, type_of,
  check_typed, check_op, validate_edit_plan,
}
use nbdpsy_mcp.Edits.Spans.{
  Anchor, with_static, resolve_static, with_window, resolve_duration, resolve_scene_edit_spans,
  resolve_card_duration_spans, resolve, card_offset_anchors, sb_cards, cards_of, window_by_id,
}
use nbdpsy_mcp.Edits.Reply.{Json, parse_instructions, edit_plan}
use nbdpsy_mcp.Edits.Override.{Overrides}
use nbdpsy_mcp.Edits.Apply.{
  Edits, collect_typed, collect_op, collect, apply_edits, start_edits, rebuild,
}
use nbdpsy_mcp.Edits.Fates.{changes, change_of, fates, apply_edits-fates}
use nbdpsy_mcp.Edits.Accepted.{collect_typed-is_ok, is_ok->>=}

module _ (fps : ℕ) (scenes : List StoryScene) where
  fields-with_static :
      (anchors : List Anchor) (op : Op) (sc : Option StoryScene)
      → (with_static fps anchors op sc).fields ≡ op.fields
  fields-with_static anchors op none = refl
  fields-with_static anchors op (some sc) = refl

  fields-resolve_static :
      (anchors : List Anchor) (t : Option OpType) (op : Op)
      → (resolve_static fps scenes anchors t op).fields ≡ op.fields
  unfolding resolve_static
  fields-resolve_static anchors (some scene_edit) op = fields-with_static anchors op _
  fields-resolve_static anchors t op = refl

  fields-resolve_duration :
      (facts : List Scene) (t : Option OpType) (op : Op)
      → (resolve_duration fps scenes facts t op).fields ≡ op.fields
  unfolding resolve_duration
  fields-resolve_duration facts (some card_edit) op = pick (is_null (get "duration_s" op.fields))
    where
      pick :
          (b : Bool)
          → (if b
              then op
              else with_window fps op
                  (window_by_id fps (get "scene_id" op.fields) scenes facts)).fields
            ≡ op.fields
      pick true = refl
      pick false = with_window-fields _
        where
          with_window-fields : (w : Option (ℕ × ℕ)) → (with_window fps op w).fields ≡ op.fields
          with_window-fields none = refl
          with_window-fields (some span) = refl
  fields-resolve_duration facts t op = refl

module _ (fps : ℕ) (scenes : List StoryScene) (facts : Option (List Scene)) where
  abbrev placed : Op → Op
  placed op =
      resolve_static fps scenes (card_offset_anchors scenes facts) (type_of (get "type" op.fields))
        op

  abbrev resolved : Op → Op
  resolved op =
      resolve_duration fps (sb_cards scenes) (cards_of fps facts)
        (type_of (get "type" (placed op).fields)) (placed op)

  fields-resolved : (op : Op) → (resolved op).fields ≡ op.fields
  fields-resolved op =
      fields-resolve_duration fps (sb_cards scenes) (cards_of fps facts)
        (type_of (get "type" (placed op).fields)) (placed op)
      ∙ fields-resolve_static fps scenes (card_offset_anchors scenes facts)
          (type_of (get "type" op.fields)) op

  resolve-object :
      (op : Op) (ops : List Item)
      → resolve fps (object op ∷ ops) scenes facts
        ≡ object (resolved op) ∷ resolve fps ops scenes facts
  unfolding resolve resolve_scene_edit_spans resolve_card_duration_spans
  resolve-object op ops = refl

  resolve-not_object :
      (ops : List Item)
      → resolve fps (not_object ∷ ops) scenes facts ≡ not_object ∷ resolve fps ops scenes facts
  unfolding resolve resolve_scene_edit_spans resolve_card_duration_spans
  resolve-not_object ops = refl

  resolve-nil : resolve fps [] scenes facts ≡ []
  unfolding resolve resolve_scene_edit_spans resolve_card_duration_spans
  resolve-nil = refl

  changes-resolve :
      (k : ℕ) (ops : List Item) → changes k (resolve fps ops scenes facts) ≡ changes k ops
  changes-resolve k [] = rw resolve-nil refl
  changes-resolve k (not_object ∷ ops) = rw (resolve-not_object ops) (changes-resolve k ops)
  changes-resolve k (object op ∷ ops) =
      rw (resolve-object op ops, changes-resolve k ops)
        (ap (λ f. change_of k (type_of (get "type" f)) f ++ changes k ops) (fields-resolved op))

  fates-resolve :
      (ops : List Item) (k : ℕ) (lines : List Line)
      → fates (resolve fps ops scenes facts) k lines ≡ fates ops k lines
  unfolding fates
  fates-resolve ops k [] = refl
  fates-resolve ops k (l ∷ lines) = rw (changes-resolve k ops, fates-resolve ops (suc k) lines) refl

module _ (fps : ℕ) (repr : Value → String) (lines : List Line) (scenes : List StoryScene)
    (facts : Option (List Scene)) where
  collect-resolve :
      (ops : List Item) (e : Edits)
      → validate_edit_plan fps ops lines scenes ≡ ok tt
      → is_ok (collect fps repr (length lines) (resolve fps ops scenes facts) e) ≡ true
  unfolding collect collect_op validate_edit_plan check_op
  collect-resolve [] e h = rw (resolve-nil fps scenes facts) refl
  collect-resolve (not_object ∷ ops) e h = cc
  collect-resolve (object op ∷ ops) e h =
      let (u, hu, hr) =
        >>=-eq-ok (check_typed fps (type_of (get "type" op.fields)) op.fields lines scenes) _ h in
      let new = resolved fps scenes facts op in
      rw (resolve-object fps scenes facts op ops) (
        is_ok->>= (collect_typed fps repr (length lines) (type_of (get "type" new.fields)) new e) _
          (collect_typed-is_ok fps repr (length lines) (type_of (get "type" new.fields)) new lines
            scenes e (rw (fields-resolved fps scenes facts op) hu))
          (λ m hm. collect-resolve ops m hr))

  -- A plan that passes the check is applied, and a line becomes what the plan says of it.
  validate_edit_plan-applied :
      (ops : List Item) (o : Overrides)
      → validate_edit_plan fps ops lines scenes ≡ ok tt
      → (o' : Overrides) × (apply_edits fps repr (resolve fps ops scenes facts) lines o
          ≡ ok (fates ops 0 lines, o'))
  unfolding apply_edits
  validate_edit_plan-applied ops o h =
      applied (collect fps repr (length lines) (resolve fps ops scenes facts) (start_edits o)) refl
        (collect-resolve ops (start_edits o) h)
    where
      applied :
          (r : Result Edits)
          → collect fps repr (length lines) (resolve fps ops scenes facts) (start_edits o) ≡ r
          → is_ok r ≡ true
          → (o' : Overrides) × (apply_edits fps repr (resolve fps ops scenes facts) lines o
              ≡ ok (fates ops 0 lines, o'))
      applied (err raised) e h = cc
      applied (ok m) e h = (
        m.overrides,
        rw e (
            ap (λ l. ok (l, m.overrides))
              (apply_edits-fates fps repr (resolve fps ops scenes facts) lines o m.overrides
                  (rebuild m 0 lines) (rw e refl)
                ∙ fates-resolve fps scenes facts ops 0 lines)),
      )

  -- A plan that the endpoint makes of a reply of the language model, and stores for the child job, is
  -- applied there to the same lines without an exception, and then the new list is what the operations
  -- that name an old line make of that line, for each line in its order: the last new text that they
  -- give it, or nothing where one deletes it, and behind it the texts that are to follow it, which are
  -- spoken and have the line's times.
  pub edit_plan-applied :
      (loads : String → Option Json) (reply : Option String) (plan : List Item) (o : Overrides)
      → edit_plan loads fps reply lines scenes facts ≡ ok plan
      → (o' : Overrides) × (apply_edits fps repr plan lines o ≡ ok (fates plan 0 lines, o'))
  unfolding edit_plan
  edit_plan-applied loads reply plan o h =
      let (ops, hp, hv) = >>=-eq-ok (parse_instructions loads reply) _ h in
      let (u, valid, hr) = >>=-eq-ok (validate_edit_plan fps ops lines scenes) _ hv in
      let (o', e) = validate_edit_plan-applied ops o valid in
      rw (← ok_inj hr, fates-resolve fps scenes facts ops 0 lines) (o', e)
