-- ===== src/Glossary.antt =====
-- app/video/pipeline/glossary.py and app/models/psych_glossary.py: the glossary of the translation. A text
-- is its code points; which of them are spaces, and `str.lower`, are parameters. The evidence of a row, its
-- confidence and its dates are left out.
mod Best
mod Examples
use nbdpsy_mcp.Prelude.{
  ℕ, ◌+◌, Bool, true, false, not, ◌&&◌, ◌||◌, List, [], ◌∷◌, ◌++◌, map, Option, none, some, ◌==◌,
  if◌then◌else◌, ltb, contains,
}
use nbdpsy_mcp.Table.{first_where}

abbrev pub Text : Type 0
Text = List ℕ

abbrev pub same_text : Text → Text → Bool
same_text [] [] = true
same_text [] (d ∷ t) = false
same_text (c ∷ s) [] = false
same_text (c ∷ s) (d ∷ t) = (c == d) && same_text s t

abbrev pub is_empty : Text → Bool
is_empty [] = true
is_empty (c ∷ s) = false

pub data Source : Type 0 where
  manual seed auto other_source : Source

pub record PsychGlossary : Type 0 where
  pub en_term : Text
  pub zh_term : Text
  pub aliases : List Text
  pub source : Source
  pub approved : Bool

abbrev pub source_priority : Source → ℕ
source_priority manual = 3
source_priority seed = 2
source_priority auto = 1
source_priority other_source = 0

abbrev pub priority : PsychGlossary → ℕ
priority row = source_priority row.source + (if row.approved then 10 else 0)

unfoldable pub lstrip : (ℕ → Bool) → Text → Text
lstrip p [] = []
lstrip p (c ∷ s) = let rest = lstrip p s in if p c then rest else c ∷ s

abbrev pub kept_end : Bool → ℕ → Text → Text
kept_end true c [] = []
kept_end _ c s = c ∷ s

unfoldable pub rstrip : (ℕ → Bool) → Text → Text
rstrip p [] = []
rstrip p (c ∷ s) = kept_end (p c) c (rstrip p s)

abbrev pub strip : (ℕ → Bool) → Text → Text
strip p s = rstrip p (lstrip p s)

-- `.,;:!?"'()[]`
abbrev punctuation : List ℕ
punctuation = 46 ∷ 44 ∷ 59 ∷ 58 ∷ 33 ∷ 63 ∷ 34 ∷ 39 ∷ 40 ∷ 41 ∷ 91 ∷ 93 ∷ []

-- The index of `match_terms`: a normalized term, and the row that counts for it.
abbrev pub Index : Type 0
Index = Text → Option PsychGlossary

abbrev pub is_better : PsychGlossary → Option PsychGlossary → Bool
is_better row none = true
is_better row (some current) = ltb (priority current) (priority row)

unfoldable pub index_key : PsychGlossary → Text → Index → Index
index_key row key index k =
    if (same_text key k && not (is_empty key)) && is_better row (index key)
    then some row
    else index k

unfoldable pub index_keys : PsychGlossary → List Text → Index → Index
index_keys row [] index = index
index_keys row (key ∷ keys) index = index_keys row keys (index_key row key index)

module _ (is_space : ℕ → Bool) (lower : Text → Text) where
  -- `re.sub(r"\s+", " ", s)`, with whether the character before was a space.
  unfoldable pub collapse : Bool → Text → Text
  collapse after [] = []
  collapse after (c ∷ s) =
      let next = collapse true s in
      let other = collapse false s in
      if is_space c then (if after then next else 32 ∷ next) else c ∷ other

  unfoldable pub normalize_term : Text → Text
  normalize_term term =
      lower (
        strip is_space (collapse false (strip (λ c. contains punctuation c) (strip is_space term))))

  abbrev pub keys_of : PsychGlossary → List Text
  keys_of row = row.en_term ∷ map normalize_term row.aliases

  unfoldable pub index_rows : List PsychGlossary → Index → Index
  index_rows [] index = index
  index_rows (row ∷ rows) index = index_rows rows (index_keys row (keys_of row) index)

  abbrev pub answer : Option PsychGlossary → Option (Text × Source × Bool)
  answer none = none
  answer (some row) = some (row.zh_term, row.source, row.approved)

  -- What the result has for a candidate: none where its normalized term is empty.
  unfoldable pub match_term : List PsychGlossary → Text → Option (Text × Source × Bool)
  match_term rows candidate =
      let norm = normalize_term candidate in
      if is_empty norm then none else answer (index_rows rows (λ k. none) norm)

  abbrev pub add_missing :
      Text → Text → List PsychGlossary → Option PsychGlossary → List PsychGlossary
  add_missing norm zh rows (some existing) = rows
  add_missing norm zh rows none =
      rows
      ++ record { en_term = norm; zh_term = zh; aliases = []; source = auto; approved = false } ∷ []

  unfoldable pub upsert_auto_term : Text → Text → List PsychGlossary → List PsychGlossary
  upsert_auto_term en zh rows =
      let norm = normalize_term en in
      if is_empty norm || is_empty (strip is_space zh)
      then rows
      else add_missing norm (strip is_space zh) rows
          (first_where (λ row. same_text row.en_term norm) rows)
