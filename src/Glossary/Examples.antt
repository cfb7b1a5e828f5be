-- ===== src/Glossary/Examples.antt =====
-- A glossary with one term from three sources. Letters are ASCII, and a space is U+0020.
use nbdpsy_mcp.Prelude.{
  ℕ, ◌+◌, Bool, true, false, ◌&&◌, List, [], ◌∷◌, Option, some, ◌==◌, if◌then◌else◌, leb, map,
  length, ◌≡◌, refl,
}
use nbdpsy_mcp.Table.{first_where}
use nbdpsy_mcp.Glossary.{
  Text, is_empty, Source, manual, seed, auto, PsychGlossary, lstrip, rstrip, collapse,
  normalize_term, index_key, index_keys, index_rows, answer, match_term, upsert_auto_term,
}
use nbdpsy_mcp.Glossary.Best.{Best, match_term-Best}

abbrev is_space : ℕ → Bool
is_space c = c == 32

abbrev lower : Text → Text
lower s = map (λ c. if leb 65 c && leb c 90 then c + 32 else c) s

-- "a b", and "( A  b. )", which becomes the same but for the full stop behind a space.
abbrev ab : Text
ab = 97 ∷ 32 ∷ 98 ∷ []

normalized : normalize_term is_space lower (32 ∷ 40 ∷ 65 ∷ 32 ∷ 32 ∷ 98 ∷ 46 ∷ 41 ∷ 32 ∷ []) ≡ ab
unfolding normalize_term lstrip rstrip collapse
normalized = refl

abbrev row : Source → Bool → ℕ → Text → List Text → PsychGlossary
row source approved zh en aliases = record {
  en_term = en;
  zh_term = zh ∷ [];
  aliases = aliases;
  source = source;
  approved = approved;
}

-- The seed has the term as an alias, a row that was written back is approved, and a manual row comes last.
abbrev rows : List PsychGlossary
rows =
    row seed false 1 (99 ∷ []) ((65 ∷ 32 ∷ 66 ∷ []) ∷ [])
    ∷ row auto true 2 ab []
    ∷ row manual false 3 ab []
    ∷ []

approved_wins : match_term is_space lower rows ab ≡ some (2 ∷ [], auto, true)
unfolding match_term normalize_term lstrip rstrip collapse index_rows index_keys index_key
approved_wins = refl

-- A translation that is written back takes no row's place.
unchanged : upsert_auto_term is_space lower ab (9 ∷ []) rows ≡ rows
unfolding upsert_auto_term normalize_term lstrip rstrip collapse first_where
unchanged = refl

added : length (upsert_auto_term is_space lower (98 ∷ []) (9 ∷ []) rows) ≡ 4
unfolding upsert_auto_term normalize_term lstrip rstrip collapse first_where
added = refl

full : is_empty (normalize_term is_space lower ab) ≡ false
unfolding normalize_term lstrip rstrip collapse
full = refl

match_term-Best_example :
    (o : Option PsychGlossary) × (match_term is_space lower rows ab ≡ answer is_space lower o)
    × Best is_space lower (normalize_term is_space lower ab) rows o
match_term-Best_example = match_term-Best is_space lower rows ab full
