-- ===== src/Edits/Fates.antt =====
-- What apply_edits of app/video/pipeline/remake/revision.py makes of each line by itself.
use nbdpsy_mcp.Prelude.{
  ==_iff, ℕ, suc, Bool, true, false, List, [], ◌∷◌, ◌++◌, Option, none, some, ◌≡◌, refl, sym, ap,
  ◌∙◌, String, Bool-cases, inl, inr, ◌==◌, if◌then◌else◌, length, map, pos, arith,
}
use nbdpsy_mcp.Result.{internal_error, Result, ok, err, ◌>>=◌, >>=-eq-ok, ok_inj}
use nbdpsy_mcp.Edits.Value.{Value, Object, string, integer, lookup, get}
use nbdpsy_mcp.Edits.Plan.{
  Line, Op, Item, not_object, object, OpType, script_edit, script_delete, script_insert, type_of,
  index_in,
}
use nbdpsy_mcp.Edits.Override.{Overrides, field, override}
use nbdpsy_mcp.Edits.Apply.{
  Edits, collect_typed, collect_op, collect, rebuild, apply_edits, start_edits, make_inserted, keep,
  set_line, insert_line, delete_line, with_overrides,
}

-- What an operation does to a line.
pub data Change : Type 0 where
  say : Value → Change
  drop_line : Change
  add_behind : Value → Change

abbrev same_index : ℕ → Option Value → Bool
same_index k (some (integer (pos i))) = i == k
same_index k _ = false

abbrev changed : Bool → Option Value → (Value → Change) → List Change
changed true (some v) c = c v ∷ []
changed _ _ c = []

-- The changes that an operation has for the line k.
abbrev pub change_of : ℕ → Option OpType → Object → List Change
change_of k (some script_edit) op =
    changed (same_index k (lookup "index" op)) (lookup "new_text" op) say
change_of k (some script_delete) op =
    if same_index k (lookup "index" op) then drop_line ∷ [] else []
change_of k (some script_insert) op =
    changed (same_index k (lookup "after_index" op)) (lookup "text" op) add_behind
change_of k _ op = []

abbrev pub changes_of : ℕ → Item → List Change
changes_of k not_object = []
changes_of k (object op) = change_of k (type_of (get "type" op.fields)) op.fields

abbrev pub changes : ℕ → List Item → List Change
changes k [] = []
changes k (op ∷ ops) = changes_of k op ++ changes k ops

-- A line while its changes are made: the line, unless it is dropped, and what is to follow it.
pub record Slot : Type 0 where
  pub text : Option Value
  pub dropped : Bool
  pub added : List Value

abbrev make_change : Slot → Change → Slot
make_change s (say v) = record s { text = some v }
make_change s drop_line = record s { dropped = true }
make_change s (add_behind v) = record s { added = s.added ++ v ∷ [] }

abbrev make_changes : Slot → List Change → Slot
make_changes s [] = s
make_changes s (c ∷ cs) = make_changes (make_change s c) cs

abbrev new_line : Line → Value → Line
new_line l v = record {
  zh = v;
  en = string "";
  no_dub = false;
  start = l.start;
  end_ = l.end_;
  orig_start = l.orig_start;
  orig_end = l.orig_end;
}

abbrev said : Line → Option Value → Line
said l none = l
said l (some v) = record l { zh = v }

abbrev lines_of : Line → Slot → List Line
lines_of l s = (if s.dropped then [] else said l s.text ∷ []) ++ map (new_line l) s.added

abbrev untouched : Slot
untouched = record { text = none; dropped = false; added = [] }

-- Every line with the changes that name it, in the order of the lines.
unfoldable pub fates : List Item → ℕ → List Line → List Line
fates ops k [] = []
fates ops k (l ∷ lines) =
    lines_of l (make_changes untouched (changes k ops)) ++ fates ops (suc k) lines

abbrev slot_at : Edits → ℕ → Slot
slot_at e k = record { text = e.edits k; dropped = e.deletes k; added = e.inserts k }

make_changes-append :
    (s : Slot) (cs ds : List Change)
    → make_changes s (cs ++ ds) ≡ make_changes (make_changes s cs) ds
make_changes-append s [] ds = refl
make_changes-append s (c ∷ cs) ds = make_changes-append (make_change s c) cs ds

-- An index that is accepted is the number that stands there.
pub index_in-eq : (n i : ℕ) (v : Option Value) → index_in n v ≡ ok i → v ≡ some (integer (pos i))
index_in-eq n i (some (integer (pos j))) h = ground (arith, h)
index_in-eq n i v h = cc

module _ (i k : ℕ) (e : Edits) where
  set_line-slot :
      (v : Value)
      → slot_at (set_line i v e) k ≡ make_changes (slot_at e k) (changed (i == k) (some v) say)
  set_line-slot v = elim (Bool-cases (i == k)) [ inl h ↦ rw h refl | inr h ↦ rw h refl ]

  delete_line-slot :
      slot_at (delete_line i e) k
      ≡ make_changes (slot_at e k) (if i == k then drop_line ∷ [] else [])
  delete_line-slot = elim (Bool-cases (i == k)) [ inl h ↦ rw h refl | inr h ↦ rw h refl ]

  insert_line-slot :
      (v : Value)
      → slot_at (insert_line i v e) k
        ≡ make_changes (slot_at e k) (changed (i == k) (some v) add_behind)
  insert_line-slot v = elim (Bool-cases (i == k)) [
    | inl h ↦ rw h (
        ap (λ l. record { text = e.edits k; dropped = e.deletes k; added = l ++ v ∷ [] })
          (ap e.inserts ((==_iff i k).0 h)))
    | inr h ↦ rw h refl
  ]

module _ (n k : ℕ) (e : Edits) {e' : Edits} where
  -- A change at an index.
  placed-slot :
      (at : Option Value) (f : ℕ → Edits) (cs : ℕ → List Change) (own : List Change)
      → ((i : ℕ) → at ≡ some (integer (pos i)) → cs i ≡ own)
      → ((i : ℕ) → slot_at (f i) k ≡ make_changes (slot_at e k) (cs i))
      → (index_in n at >>= λ i. ok (f i)) ≡ ok e'
      → slot_at e' k ≡ make_changes (slot_at e k) own
  placed-slot at f cs own agree lem h = step (>>=-eq-ok (index_in n at) (λ i. ok (f i)) h)
    where
      step :
          (i : ℕ) × (index_in n at ≡ ok i) × (◌≡◌ {A = Result Edits} (ok (f i)) (ok e'))
          → slot_at e' k ≡ make_changes (slot_at e k) own
      step (i, hi, he) = rw (← agree i (index_in-eq n i at hi), ← ok_inj he) (lem i)

  -- A change at an index, with a text.
  texted-slot :
      (at what : Option Value) (f : ℕ → Value → Edits) (c : Value → Change)
      → ((i : ℕ) (v : Value)
          → slot_at (f i v) k ≡ make_changes (slot_at e k) (changed (i == k) (some v) c))
      → (index_in n at >>= λ i. field what >>= λ v. ok (f i v)) ≡ ok e'
      → slot_at e' k ≡ make_changes (slot_at e k) (changed (same_index k at) what c)
  texted-slot at none f c lem h =
      let (i, hi, hr) = >>=-eq-ok (index_in n at) (λ i. err internal_error) h in cc hr
  texted-slot at (some v) f c lem h =
      placed-slot at (λ i. f i v) (λ i. changed (i == k) (some v) c)
        (changed (same_index k at) (some v) c) (λ i e. rw e refl) (λ i. lem i v) h

  kept-slot :
      (o : Result Overrides)
      → (o >>= λ x. ok (with_overrides e x)) ≡ ok e'
      → slot_at e' k ≡ slot_at e k
  kept-slot (err raised) h = cc
  kept-slot (ok x) h = rw (← ok_inj h) refl

module _ (fps : ℕ) (repr : Value → String) (n k : ℕ) where
  collect_typed-slot :
      (t : Option OpType) (op : Op) (e : Edits) {e' : Edits}
      → collect_typed fps repr n t op e ≡ ok e'
      → slot_at e' k ≡ make_changes (slot_at e k) (change_of k t op.fields)
  collect_typed-slot none op e h = cc
  collect_typed-slot (some script_edit) op e h =
      texted-slot n k e (lookup "index" op.fields) (lookup "new_text" op.fields)
        (λ i v. set_line i v e) say (λ i v. set_line-slot i k e v) h
  collect_typed-slot (some script_insert) op e h =
      texted-slot n k e (lookup "after_index" op.fields) (lookup "text" op.fields)
        (λ i v. insert_line i v e) add_behind (λ i v. insert_line-slot i k e v) h
  collect_typed-slot (some script_delete) op e h =
      placed-slot n k e (lookup "index" op.fields) (λ i. delete_line i e)
        (λ i. if i == k then drop_line ∷ [] else [])
        (if same_index k (lookup "index" op.fields) then drop_line ∷ [] else []) (λ i e. rw e refl)
        (λ i. delete_line-slot i k e) h
  collect_typed-slot (some t) op e h = kept-slot n k e (override fps repr t op e.overrides) h

  collect-slot :
      (ops : List Item) (e : Edits) {e' : Edits}
      → collect fps repr n ops e ≡ ok e'
      → slot_at e' k ≡ make_changes (slot_at e k) (changes k ops)
  unfolding collect collect_op
  collect-slot [] e h = rw (← ok_inj h) refl
  collect-slot (not_object ∷ ops) e h = cc
  collect-slot (object op ∷ ops) e {e' = e'} h =
      step (λ m hm. collect-slot ops m hm) (>>=-eq-ok _ _ h)
    where
      step :
          ((m : Edits)
            → collect fps repr n ops m ≡ ok e'
            → slot_at e' k ≡ make_changes (slot_at m k) (changes k ops))
          → (m : Edits) × (collect_typed fps repr n (type_of (get "type" op.fields)) op e ≡ ok m)
            × (collect fps repr n ops m ≡ ok e')
          → slot_at e' k ≡ make_changes (slot_at e k) (changes_of k (object op) ++ changes k ops)
      step rest (m, hm, hr) =
          rw
            (
              make_changes-append (slot_at e k) (changes_of k (object op)) (changes k ops),
              ← collect_typed-slot (type_of (get "type" op.fields)) op e hm,
            )
            (rest m hr)

lines_of-keep :
    (l : Line) (e : Edits) (k : ℕ)
    → keep (e.deletes k) (e.edits k) l ++ map (make_inserted l) (e.inserts k)
      ≡ lines_of l (slot_at e k)
lines_of-keep l e k = go (e.deletes k) (e.edits k) (e.inserts k)
  where
    go :
        (d : Bool) (t : Option Value) (vs : List Value)
        → keep d t l ++ map (make_inserted l) vs
          ≡ lines_of l (record { text = t; dropped = d; added = vs })
    go true t vs = refl
    go false none vs = refl
    go false (some v) vs = refl

rebuild-fates :
    (ops : List Item) (e : Edits) (k : ℕ) (lines : List Line)
    → ((k : ℕ) → slot_at e k ≡ make_changes untouched (changes k ops))
    → rebuild e k lines ≡ fates ops k lines
unfolding rebuild fates
rebuild-fates ops e k [] agree = refl
rebuild-fates ops e k (l ∷ lines) agree =
    rw (← agree k, ← lines_of-keep l e k, ← rebuild-fates ops e (suc k) lines agree) refl

-- Where a plan is applied, every line meets with the changes that name it, in their order in the plan,
-- and with no other: the last new text that a plan gives it stands in its place, or nothing where an
-- operation deletes it, and behind that stand the texts that are to follow it, spoken, with the times
-- of the line; whichever index an operation has, it is that of the lines as they were.
pub apply_edits-fates :
    (fps : ℕ) (repr : Value → String) (ops : List Item) (lines : List Line) (o o' : Overrides)
    (new : List Line)
    → apply_edits fps repr ops lines o ≡ ok (new, o')
    → new ≡ fates ops 0 lines
unfolding apply_edits
apply_edits-fates fps repr ops lines o o' new h = step (>>=-eq-ok _ _ h)
  where
    step :
        (e : Edits) × (collect fps repr (length lines) ops (start_edits o) ≡ ok e)
          × (◌≡◌ {A = Result (List Line × Overrides)}
              (ok (rebuild e 0 lines, e.overrides))
              (ok (new, o')))
        → new ≡ fates ops 0 lines
    step (e, he, hr) =
        sym (ap (λ r. r.0) (ok_inj hr))
        ∙ rebuild-fates ops e 0 lines
            (λ k. collect-slot fps repr (length lines) k ops (start_edits o) he)
