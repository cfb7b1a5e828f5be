-- ===== src/Edits/Accepted.antt =====
-- app/video/pipeline/remake/revision.py: what the check of a plan means for its application.
use nbdpsy_mcp.Prelude.{
  ℕ, Bool, true, false, ◌&&◌, List, Option, none, some, ◌≡◌, refl, ap, if◌then◌else◌, length,
  Bool-cases, inl, inr, String, leb, some_inj, suc, pos,
}
use nbdpsy_mcp.Result.{
  Result, Error, ok, err, ◌>>=◌, ◌>>◌, guard, edit_plan_error, >>=-eq-ok, is_ok,
}
use nbdpsy_mcp.Pipeline.Timeline.{millis, min_card_duration}
use nbdpsy_mcp.Edits.Value.{
  Value, Object, integer, float, or_null, lookup, get, is_null, is_string, positive,
}
use nbdpsy_mcp.Edits.Plan.{
  Line, StoryScene, Op, OpType, script_edit, script_delete, script_insert, card_edit, ball_style,
  global_param, scene_edit, index_in, check_card, check_typed, check_duration, check_least,
  scene_of, card_dub_durations,
}
use nbdpsy_mcp.Edits.Override.{Overrides, field, override, edit_cards, edit_duration, ticks_of}
use nbdpsy_mcp.Edits.Apply.{Edits, collect_typed}

module _ {T S : Type 0} where
  pub is_ok->>= :
      (r : Result T) (f : T → Result S)
      → is_ok r ≡ true
      → ((x : T) → r ≡ ok x → is_ok (f x) ≡ true)
      → is_ok (r >>= f) ≡ true
  is_ok->>= (err raised) f h g = cc
  is_ok->>= (ok x) f h g = g x refl

-- A text that is there can be looked up.
field-string : (v : Option Value) → is_string (or_null v) ≡ true → is_ok (field v) ≡ true
field-string none h = cc
field-string (some v) h = refl

pub guard-eq_tt : (test : Bool) (raised : Error) → guard test raised ≡ ok tt → test ≡ true
guard-eq_tt true raised h = refl
guard-eq_tt false raised h = cc

pub >>-last : (first rest : Result (Unit {0})) → (first >> rest) ≡ ok tt → rest ≡ ok tt
>>-last (err raised) rest h = cc
>>-last (ok u) rest h = h

-- A target that the check lets pass is a number, and at least the least one.
enough :
    (b : Bool) (least : ℕ) (p : Option ℕ)
    → (if b then ok tt else check_least least p) ≡ ok tt
    → b ≡ false
    → (d : ℕ) × (p ≡ some d) × (leb least d ≡ true)
enough true least p h e = cc
enough false least none h e = cc
enough false least (some d) h e = (d, refl, guard-eq_tt (leb least d) edit_plan_error h)

module _ (fps : ℕ) where
  positive-ticks_of :
      (ds : Value) (d : ℕ) → positive (millis fps 1000) ds ≡ some d → ticks_of fps ds ≡ ok d
  positive-ticks_of (integer (pos (suc n))) d h = ap ok (some_inj h)
  positive-ticks_of (float (pos (suc t))) d h = ap ok (some_inj h)
  positive-ticks_of ds d h = cc

  scene_of-field :
      (sid : Option Value) (scenes : List StoryScene) {sc : StoryScene}
      → scene_of fps sid scenes ≡ ok sc
      → is_ok (field sid) ≡ true
  scene_of-field none scenes h = cc
  scene_of-field (some v) scenes h = refl

  pub check_duration-ticks_of :
      (ds : Value) (sc : StoryScene) (lines : List Line)
      → check_duration fps ds sc lines ≡ ok tt
      → is_null ds ≡ false
      → (d : ℕ) × (ticks_of fps ds ≡ ok d)
        × (leb (min_card_duration fps (card_dub_durations sc lines)) d ≡ true)
  unfolding check_duration
  check_duration-ticks_of ds sc lines h e =
      let (d, hd, le) = enough (is_null ds) _ (positive (millis fps 1000) ds) h e in
      (d, positive-ticks_of ds d hd, le)

  edit_duration-is_ok :
      (ds : Value) (sc : StoryScene) (lines : List Line) (span : Option (ℕ × ℕ)) (o : Overrides)
      → check_duration fps ds sc lines ≡ ok tt
      → is_ok (edit_duration fps ds span o) ≡ true
  edit_duration-is_ok ds sc lines none o h = refl
  edit_duration-is_ok ds sc lines (some span) o h = elim (Bool-cases (is_null ds)) [
    | inl e ↦ rw e refl
    | inr e ↦ rw e (
        is_ok->>= (ticks_of fps ds) _
          (let (d, hd, le) = check_duration-ticks_of ds sc lines h e in ap is_ok hd) (λ d e. refl))
  ]

texted-is_ok :
    (n : ℕ) (at what : Option Value) (f : ℕ → Value → Edits)
    → (index_in n at >>= λ i. guard (is_string (or_null what)) edit_plan_error) ≡ ok tt
    → is_ok (index_in n at >>= λ i. field what >>= λ v. ok (f i v)) ≡ true
texted-is_ok n at what f h =
    let (i, hi, hr) = >>=-eq-ok (index_in n at) _ h in
    is_ok->>= (index_in n at) _ (ap is_ok hi) (λ i e.
      is_ok->>= (field what) _ (field-string what (guard-eq_tt _ edit_plan_error hr)) (λ v e. refl))

module _ (fps : ℕ) (repr : Value → String) where
  edit_cards-is_ok :
      (op : Object) (o : Overrides)
      → is_ok (field (lookup "scene_id" op)) ≡ true
      → is_ok (edit_cards repr op o) ≡ true
  edit_cards-is_ok op o h =
      elim (Bool-cases (is_null (get "title" op) && is_null (get "body" op))) [
        | inl e ↦ rw e refl
        | inr e ↦ rw e (is_ok->>= (field (lookup "scene_id" op)) _ h (λ x e. refl))
      ]

  check_card-override :
      (op : Op) (lines : List Line) (scenes : List StoryScene) (o : Overrides)
      → check_card fps op.fields lines scenes ≡ ok tt
      → is_ok (override fps repr card_edit op o) ≡ true
  unfolding check_card override
  check_card-override op lines scenes o h =
      let (sc, hs, hr) = >>=-eq-ok (scene_of fps (lookup "scene_id" op.fields) scenes) _ h in
      is_ok->>= (edit_cards repr op.fields o) _
        (edit_cards-is_ok op.fields o (scene_of-field fps (lookup "scene_id" op.fields) scenes hs))
        (λ x e.
          edit_duration-is_ok fps (get "duration_s" op.fields) sc lines op.duration_source_span x
            (>>-last _ _ hr))

  pub collect_typed-is_ok :
      (n : ℕ) (t : Option OpType) (op : Op) (lines : List Line) (scenes : List StoryScene)
      (e : Edits)
      → check_typed fps t op.fields lines scenes ≡ ok tt
      → is_ok (collect_typed fps repr (length lines) t op e) ≡ true
  unfolding override
  collect_typed-is_ok n none op lines scenes e h = cc
  collect_typed-is_ok n (some script_edit) op lines scenes e h =
      texted-is_ok (length lines) (lookup "index" op.fields) (lookup "new_text" op.fields) _ h
  collect_typed-is_ok n (some script_insert) op lines scenes e h =
      texted-is_ok (length lines) (lookup "after_index" op.fields) (lookup "text" op.fields) _ h
  collect_typed-is_ok n (some script_delete) op lines scenes e h =
      let (i, hi, hr) = >>=-eq-ok (index_in (length lines) (lookup "index" op.fields)) _ h in
      is_ok->>= (index_in (length lines) (lookup "index" op.fields)) _ (ap is_ok hi) (λ i e. refl)
  collect_typed-is_ok n (some card_edit) op lines scenes e h =
      is_ok->>= (override fps repr card_edit op e.overrides) _
        (check_card-override op lines scenes e.overrides h) (λ o e. refl)
  collect_typed-is_ok n (some ball_style) op lines scenes e h = refl
  collect_typed-is_ok n (some global_param) op lines scenes e h = refl
  collect_typed-is_ok n (some scene_edit) op lines scenes e h = refl
