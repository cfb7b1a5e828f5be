-- ===== src/Edits/Latest.antt =====
-- What apply_edits of app/video/pipeline/remake/revision.py makes of the parameters of the balls and of
-- the film.
use nbdpsy_mcp.Prelude.{
  ℕ, Bool, true, false, List, [], ◌∷◌, ◌++◌, append-nil, append_assoc, Option, none, some, ◌≡◌,
  refl, sym, ap, ◌∙◌, String, if◌then◌else◌, length, Bool-cases, if-cases, ◌&&◌, inl, inr,
}
use nbdpsy_mcp.Result.{ok, ◌>>=◌, >>=-eq-ok, ok_inj}
use nbdpsy_mcp.Edits.Value.{Value, Object, is_null, lookup, get, mentions}
use nbdpsy_mcp.Edits.Plan.{
  Line, Op, Item, not_object, object, OpType, script_edit, script_delete, script_insert, card_edit,
  ball_style, global_param, scene_edit, type_of, index_in, ball_style_keys, global_param_keys,
}
use nbdpsy_mcp.Edits.Override.{
  Ball, Overrides, set_all, override, field, edit_cards, edit_duration, add_spans, ticks_of,
}
use nbdpsy_mcp.Edits.Apply.{
  Edits, collect_typed, collect_op, collect, apply_edits, start_edits, set_line, insert_line,
}
use nbdpsy_mcp.Edits.Lookups.{first_of, lookup-set_all}

-- The parameters that an operation of one type gives.
abbrev pub is_ball_style : Option OpType → Bool
is_ball_style (some ball_style) = true
is_ball_style _ = false

abbrev pub is_global_param : Option OpType → Bool
is_global_param (some global_param) = true
is_global_param _ = false

abbrev given_typed : Bool → List String → String → Object → Option Value
given_typed wanted keys k op =
    if wanted then (if mentions k keys then lookup k op else none) else none

abbrev given : (Option OpType → Bool) → List String → String → Item → Option Value
given wanted keys k not_object = none
given wanted keys k (object op) =
    given_typed (wanted (type_of (get "type" op.fields))) keys k op.fields

-- What the last operation that gives it says, or what it was.
unfoldable pub latest :
    (Option OpType → Bool) → List String → String → List Item → Option Value → Option Value
latest wanted keys k [] old = old
latest wanted keys k (op ∷ ops) old =
    latest wanted keys k ops (first_of (given wanted keys k op) old)

-- The spans that a scene_edit makes static.
abbrev spans_typed : Option OpType → Op → List (ℕ × ℕ)
spans_typed (some scene_edit) op = elim op.static_source_spans [ none ↦ [] | some span ↦ span ∷ [] ]
spans_typed _ op = []

abbrev pub spans_of : List Item → List (ℕ × ℕ)
spans_of [] = []
spans_of (not_object ∷ ops) = spans_of ops
spans_of (object op ∷ ops) = spans_typed (type_of (get "type" op.fields)) op ++ spans_of ops

-- The parameters of the balls and of the film.
abbrev params_of : Overrides → Ball × Object
params_of o = (o.ball, o.global)

-- What becomes of a parameter of the balls, of one of the film, and of the static spans.
abbrev Gives : String → Option OpType → Op → Overrides → Overrides → Type 0
Gives k t op o o' =
    (lookup k o'.ball.params
      ≡ first_of (given_typed (is_ball_style t) ball_style_keys k op.fields)
          (lookup k o.ball.params))
    × (lookup k o'.global
        ≡ first_of (given_typed (is_global_param t) global_param_keys k op.fields)
            (lookup k o.global))
    × (o'.ball.static_source_spans ≡ o.ball.static_source_spans ++ spans_typed t op)

lookup-set_given_all :
    (k : String) (keys : List String) (op fields : Object)
    → lookup k (set_all keys op fields) ≡ first_of (given_typed true keys k op) (lookup k fields)
lookup-set_given_all k keys op fields =
    rw (lookup-set_all k keys op fields)
      (elim (Bool-cases (mentions k keys)) [ inl h ↦ rw h refl | inr h ↦ rw h refl ])

kept :
    (k : String) (o o' : Overrides)
    → params_of o' ≡ params_of o
    → (lookup k o'.ball.params ≡ lookup k o.ball.params)
      × (lookup k o'.global ≡ lookup k o.global)
      × (o'.ball.static_source_spans ≡ o.ball.static_source_spans ++ [])
kept k o o' e = (
  ap (λ p. lookup k p.0.params) e,
  ap (λ p. lookup k p.1) e,
  ap (λ p. p.0.static_source_spans) e ∙ sym (append-nil o.ball.static_source_spans),
)

edit_cards-params_of :
    (repr : Value → String) (op : Object) (o : Overrides) {o' : Overrides}
    → edit_cards repr op o ≡ ok o'
    → params_of o' ≡ params_of o
edit_cards-params_of repr op o h =
    elim (if-cases (is_null (get "title" op) && is_null (get "body" op)) (ok o) _ h) [
      | inl p ↦ rw (← ok_inj p.1) refl
      | inr p ↦
          let (sid, hs, hr) = >>=-eq-ok (field (lookup "scene_id" op)) _ p.1 in
          rw (← ok_inj hr) refl
    ]

edit_duration-params_of :
    (fps : ℕ) (ds : Value) (span : Option (ℕ × ℕ)) (o : Overrides) {o' : Overrides}
    → edit_duration fps ds span o ≡ ok o'
    → params_of o' ≡ params_of o
edit_duration-params_of fps ds none o h = rw (← ok_inj h) refl
edit_duration-params_of fps ds (some span) o h = elim (if-cases (is_null ds) (ok o) _ h) [
  | inl p ↦ rw (← ok_inj p.1) refl
  | inr p ↦ let (d, hd, hr) = >>=-eq-ok (ticks_of fps ds) _ p.1 in rw (← ok_inj hr) refl
]

scene_edit-Gives :
    (k : String) (spans : Option (ℕ × ℕ)) (fields : Object) (at : Option (ℕ × ℕ)) (o : Overrides)
    → Gives k
        (some scene_edit)
        (record { fields = fields; static_source_spans = spans; duration_source_span = at })
        o
        (add_spans spans o)
scene_edit-Gives k none fields at o = (refl, refl, sym (append-nil o.ball.static_source_spans))
scene_edit-Gives k (some span) fields at o = (refl, refl, refl)

module _ (fps : ℕ) (repr : Value → String) where
  override-Gives :
      (k : String) (t : OpType) (op : Op) (o : Overrides) {o' : Overrides}
      → override fps repr t op o ≡ ok o'
      → Gives k (some t) op o o'
  unfolding override
  override-Gives k card_edit op o {o' = o'} h =
      let (m, hm, hr) = >>=-eq-ok (edit_cards repr op.fields o) _ h in
      kept k o o' (
        edit_duration-params_of fps (get "duration_s" op.fields) op.duration_source_span m hr
        ∙ edit_cards-params_of repr op.fields o hm)
  override-Gives k scene_edit op o h =
      rw (← ok_inj h)
        (scene_edit-Gives k op.static_source_spans op.fields op.duration_source_span o)
  override-Gives k ball_style op o h =
      rw (← ok_inj h)
        (lookup-set_given_all k ball_style_keys op.fields o.ball.params, refl, sym (append-nil _))
  override-Gives k global_param op o h =
      rw (← ok_inj h)
        (refl, lookup-set_given_all k global_param_keys op.fields o.global, sym (append-nil _))
  override-Gives k t op o h = rw (← ok_inj h) (refl, refl, sym (append-nil _))

  same_overrides-Gives :
      (k : String) (at what : Option Value) (n : ℕ) (f : ℕ → Value → Edits) (o : Overrides)
      {e' : Edits}
      → ((i : ℕ) (v : Value) → (f i v).overrides ≡ o)
      → (index_in n at >>= λ i. field what >>= λ v. ok (f i v)) ≡ ok e'
      → e'.overrides ≡ o
  same_overrides-Gives k at what n f o same h =
      let (i, hi, hr) = >>=-eq-ok (index_in n at) _ h in
      let (v, hv, he) = >>=-eq-ok (field what) _ hr in
      ap (λ e. e.overrides) (sym (ok_inj he)) ∙ same i v

  collect_typed-Gives :
      (k : String) (n : ℕ) (t : Option OpType) (op : Op) (e : Edits) {e' : Edits}
      → collect_typed fps repr n t op e ≡ ok e'
      → Gives k t op e.overrides e'.overrides
  collect_typed-Gives k n none op e h = cc
  collect_typed-Gives k n (some script_edit) op e h =
      rw
        (same_overrides-Gives k (lookup "index" op.fields) (lookup "new_text" op.fields) n
          (λ i v. set_line i v e) e.overrides (λ i v. refl) h)
        (refl, refl, sym (append-nil _))
  collect_typed-Gives k n (some script_insert) op e h =
      rw
        (same_overrides-Gives k (lookup "after_index" op.fields) (lookup "text" op.fields) n
          (λ i v. insert_line i v e) e.overrides (λ i v. refl) h)
        (refl, refl, sym (append-nil _))
  collect_typed-Gives k n (some script_delete) op e h =
      let (i, hi, hr) = >>=-eq-ok (index_in n (lookup "index" op.fields)) _ h in
      rw (← ok_inj hr) (refl, refl, sym (append-nil _))
  collect_typed-Gives k n (some t) op e h =
      let (o, ho, hr) = >>=-eq-ok (override fps repr t op e.overrides) _ h in
      rw (← ok_inj hr) (override-Gives k t op e.overrides ho)

  collect-latest :
      (k : String) (n : ℕ) (ops : List Item) (e : Edits) {e' : Edits}
      → collect fps repr n ops e ≡ ok e'
      → (lookup k e'.overrides.ball.params
          ≡ latest is_ball_style ball_style_keys k ops (lookup k e.overrides.ball.params))
        × (lookup k e'.overrides.global
            ≡ latest is_global_param global_param_keys k ops (lookup k e.overrides.global))
        × (e'.overrides.ball.static_source_spans
            ≡ e.overrides.ball.static_source_spans ++ spans_of ops)
  unfolding collect collect_op latest
  collect-latest k n [] e h = rw (← ok_inj h) (refl, refl, sym (append-nil _))
  collect-latest k n (not_object ∷ ops) e h = cc
  collect-latest k n (object op ∷ ops) e h =
      let (m, hm, hr) =
        >>=-eq-ok (collect_typed fps repr n (type_of (get "type" op.fields)) op e) _ h in
      let (ball, film, spans) = collect_typed-Gives k n (type_of (get "type" op.fields)) op e hm in
      let (ball', film', spans') = collect-latest k n ops m hr in
      (
        rw (← ball) ball',
        rw (← film) film',
        spans'
            ∙ ap (λ xs. xs ++ spans_of ops) spans
            ∙ append_assoc e.overrides.ball.static_source_spans _ (spans_of ops),
      )

  -- Where a plan is applied, the overrides are these. Every parameter of the balls (each key of `ball`
  -- but static_source_spans), and every one of the film (each key of `global`), is what the last
  -- operation of its type that gives it says, where its key is one of those of the type, and else what
  -- the job began with; and the static_source_spans are those that the job began with and, in the
  -- order of the plan, one for each scene_edit that has one.
  pub apply_edits-latest :
      (k : String) (ops : List Item) (lines new : List Line) (o o' : Overrides)
      → apply_edits fps repr ops lines o ≡ ok (new, o')
      → (lookup k o'.ball.params
          ≡ latest is_ball_style ball_style_keys k ops (lookup k o.ball.params))
        × (lookup k o'.global ≡ latest is_global_param global_param_keys k ops (lookup k o.global))
        × (o'.ball.static_source_spans ≡ o.ball.static_source_spans ++ spans_of ops)
  unfolding apply_edits
  apply_edits-latest k ops lines new o o' h =
      let (e, he, hr) = >>=-eq-ok (collect fps repr (length lines) ops (start_edits o)) _ h in
      rw (← ap (λ r. r.1) (ok_inj hr)) (collect-latest k (length lines) ops (start_edits o) he)
