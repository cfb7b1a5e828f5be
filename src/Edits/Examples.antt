-- ===== src/Edits/Examples.antt =====
-- A revision of a film of 25 frames a second, with a ball, and with a card on which two lines are spoken.
use nbdpsy_mcp.Prelude.{
  ℕ, ◌+◌, ◌++◌, ◌*◌, ◌≤◌, true, false, List, [], ◌∷◌, Option, none, some, ◌≡◌, refl, map, String,
  pos, arith, str_eq, if◌then◌else◌,
}
use nbdpsy_mcp.Result.{ok, err, edit_plan_error, internal_error}
use nbdpsy_mcp.Pipeline.Blocks.{Scene, ball_exercise, card, Sentence}
use nbdpsy_mcp.Pipeline.Timeline.{min_card_duration, card_block}
use nbdpsy_mcp.Edits.Value.{Value, Object, null, container, boolean, integer, float, string, lookup}
use nbdpsy_mcp.Edits.Key.{decimal, str}
use nbdpsy_mcp.Edits.Plan.{
  Line, StoryScene, Item, object, type_named, params, scene_by_id, validate_param_keys,
  card_dub_durations, check_duration, check_card, check_scene, check_op, validate_edit_plan,
  ball_style_keys, global_param_keys,
}
use nbdpsy_mcp.Edits.Spans.{
  facts_cards, sb_cards, anchors_of, card_offset_anchors, anchor_at, source_span, resolve_static,
  resolve_scene_edit_spans, window_by_id, resolve_duration, resolve_card_duration_spans, resolve,
}
use nbdpsy_mcp.Edits.Bracket.{from_bracket, to_bracket}
use nbdpsy_mcp.Edits.Reply.{Json, array, parse_instructions, extract_json_array, edit_plan}
use nbdpsy_mcp.Edits.Override.{Overrides, set_key, set_all, override}
use nbdpsy_mcp.Edits.Apply.{collect_op, collect, rebuild, apply_edits}
use nbdpsy_mcp.Edits.Fates.{fates}
use nbdpsy_mcp.Edits.Revision.{edit_plan-applied}
use nbdpsy_mcp.Edits.Fitting.{check_duration-fits}
use nbdpsy_mcp.Edits.Latest.{spans_of, latest, is_ball_style, is_global_param, apply_edits-latest}

abbrev at_ms : ℕ → ℕ
at_ms n = 1000000 + 25 * n

abbrev line : String → ℕ → ℕ → Line
line zh start stop = record {
  zh = string zh;
  en = string "";
  no_dub = false;
  start = some (at_ms start);
  end_ = some (at_ms stop);
  orig_start = some (at_ms start);
  orig_end = some (at_ms stop);
}

abbrev lines : List Line
lines = line "one" 500 2500 ∷ line "two" 3500 5500 ∷ line "three" 8000 9000 ∷ []

abbrev opening : StoryScene
opening = record { id = 1; kind = card; is_still = true; t0 = at_ms 0; t1 = at_ms 7000 }

abbrev exercise : StoryScene
exercise = record {
  id = 2;
  kind = ball_exercise;
  is_still = false;
  t0 = at_ms 7000;
  t1 = at_ms 17000;
}

abbrev story : List StoryScene
story = opening ∷ exercise ∷ []

-- In the source the card is 4 s long.
abbrev facts : List Scene
facts =
    record { kind = card; t0 = at_ms 0; t1 = at_ms 4000 }
    ∷ record { kind = ball_exercise; t0 = at_ms 4000; t1 = at_ms 14000 }
    ∷ []

abbrev op : Object → Item
op fields =
    object (record { fields = fields; static_source_spans = none; duration_source_span = none })

abbrev say_uno : Item
say_uno =
    op (
      ("type", string "script_edit") ∷ ("index", integer (pos 0)) ∷ ("new_text", string "uno") ∷ [])

abbrev drop_two : Item
drop_two = op (("type", string "script_delete") ∷ ("index", integer (pos 1)) ∷ [])

abbrev add_four : Item
add_four = op (
    ("type", string "script_insert")
    ∷ ("after_index", integer (pos 1))
    ∷ ("text", string "four")
    ∷ [])

abbrev longer_card : Item
longer_card = op (
    ("type", string "card_edit")
    ∷ ("scene_id", integer (pos 1))
    ∷ ("duration_s", integer (pos 8))
    ∷ [])

abbrev still_ball : Item
still_ball =
    op (
      ("type", string "scene_edit") ∷ ("scene_id", integer (pos 2)) ∷ ("static", boolean true) ∷ [])

abbrev slower : Item
slower = op (("type", string "ball_style") ∷ ("period_s", float (pos 50000)) ∷ [])

abbrev plan : List Item
plan = say_uno ∷ drop_two ∷ add_four ∷ longer_card ∷ still_ball ∷ slower ∷ []

abbrev new_lines : List Line
new_lines = line "uno" 500 2500 ∷ line "four" 3500 5500 ∷ line "three" 8000 9000 ∷ []

abbrev resolved : List Item
resolved = resolve 25 plan story (some facts)

abbrev repr : Value → String
repr v = "…"

abbrev nothing : Overrides
nothing = record {
  cards = [];
  ball = record { params = []; static_source_spans = [] };
  global = [];
  card_duration_overrides = [];
}

abbrev revised : Overrides
revised = record {
  cards = [];
  ball = record {
    params = ("period_s", float (pos 50000)) ∷ [];
    static_source_spans = (at_ms 4000, at_ms 14000) ∷ [];
  };
  global = [];
  card_duration_overrides = record { src_t0 = at_ms 0; src_t1 = at_ms 4000; new_dur = 200000 } ∷ [];
}

valid : validate_edit_plan 25 plan lines story ≡ ok tt
unfolding validate_edit_plan check_op check_card check_scene check_duration validate_param_keys
    params card_dub_durations min_card_duration scene_by_id type_named lookup
valid = refl

-- The windows are those of the source, and the new line stands where its deleted neighbour stood.
applied : apply_edits 25 repr resolved lines nothing ≡ ok (new_lines, revised)
unfolding apply_edits collect collect_op rebuild override set_all set_key type_named lookup resolve
    resolve_scene_edit_spans resolve_card_duration_spans resolve_static resolve_duration facts_cards
    sb_cards anchors_of card_offset_anchors anchor_at source_span window_by_id scene_by_id
applied = refl

-- A list as the id of a scene is no refused plan but a TypeError.
unhashable :
    validate_edit_plan 25
      (op (("type", string "scene_edit") ∷ ("scene_id", container) ∷ []) ∷ [])
      lines
      story
    ≡ err internal_error
unfolding validate_edit_plan check_op check_scene type_named lookup
unhashable = refl

-- A card with 5 s of speech and pauses is not shortened to 6 s.
too_short :
    validate_edit_plan 25
      (op (
          ("type", string "card_edit")
          ∷ ("scene_id", integer (pos 1))
          ∷ ("duration_s", integer (pos 6))
          ∷ [])
        ∷ [])
      lines
      story
    ≡ err edit_plan_error
unfolding validate_edit_plan check_op check_card check_duration card_dub_durations min_card_duration
    scene_by_id type_named lookup
too_short = refl

key_texts :
    map (str repr) (integer (pos 120) ∷ integer (pos 0) ∷ boolean true ∷ null ∷ [])
    ≡ "120" ∷ "0" ∷ "True" ∷ "None" ∷ []
unfolding str decimal
key_texts = refl

-- The model writes a sentence before the plan.
abbrev loads : String → Option Json
loads s = if str_eq s "[1]" then some (array plan) else none

planned : edit_plan loads 25 (some "ok: [1].") lines story (some facts) ≡ ok resolved
unfolding edit_plan parse_instructions extract_json_array from_bracket to_bracket validate_edit_plan
    check_op check_card check_scene check_duration validate_param_keys params card_dub_durations
    min_card_duration scene_by_id type_named lookup
planned = refl

refused : edit_plan loads 25 (some "] [") lines story (some facts) ≡ err edit_plan_error
unfolding edit_plan parse_instructions extract_json_array from_bracket to_bracket
refused = refl

edit_plan-applied_example :
    (o' : Overrides) × (apply_edits 25 repr resolved lines nothing
      ≡ ok (fates resolved 0 lines, o'))
edit_plan-applied_example =
    edit_plan-applied 25 repr lines story (some facts) loads (some "ok: [1].") resolved nothing
      planned

apply_edits-latest_example :
    (lookup "period_s" revised.ball.params
      ≡ latest is_ball_style ball_style_keys "period_s" resolved
          (lookup "period_s" nothing.ball.params))
    × (lookup "period_s" revised.global
        ≡ latest is_global_param global_param_keys "period_s" resolved
            (lookup "period_s" nothing.global))
    × (revised.ball.static_source_spans ≡ nothing.ball.static_source_spans ++ spans_of resolved)
apply_edits-latest_example =
    apply_edits-latest 25 repr "period_s" resolved lines new_lines nothing revised applied

abbrev sentence : ℕ → ℕ → Sentence
sentence sid start = record {
  sid = sid;
  orig_start = at_ms start;
  orig_end = at_ms (start + 1000);
  duration = 25 * 2000;
  no_dub = false;
}

accepted : check_duration 25 (integer (pos 8)) opening lines ≡ ok tt
unfolding check_duration card_dub_durations min_card_duration
accepted = refl

durations :
    map (λ s. s.duration) (sentence 0 500 ∷ sentence 1 3500 ∷ []) ≡ card_dub_durations opening lines
unfolding card_dub_durations
durations = refl

abbrev source_card : Scene
source_card = record { kind = card; t0 = at_ms 0; t1 = at_ms 4000 }

check_duration-fits_example :
    let b =
      card_block 25 25000 false
        (some 200000)
        source_card
        (sentence 0 500 ∷ sentence 1 3500 ∷ [])
        (at_ms 7000)
        (some (at_ms 6000)) in
    (e : ℕ) × (b.speech_end ≡ some e) × (e ≤ b.new_t1)
check_duration-fits_example =
    check_duration-fits 24 25000 false (integer (pos 8)) 200000 opening lines source_card
      (sentence 0 500) (sentence 1 3500 ∷ []) (at_ms 7000) (some (at_ms 6000)) accepted refl refl
      durations (omega arith) (omega arith) (omega arith)
