-- ===== src/Text/Emoji.antt =====
-- The emoji patterns of app/browser/text_formatter.py on a text as its code points. A pattern takes
-- as much as it can and never gives back, since nothing follows it.
use nbdpsy_mcp.Prelude.{
  ℕ, zero, suc, ◌+◌, Bool, true, false, ◌&&◌, ◌||◌, List, [], ◌∷◌, ◌==◌, if◌then◌else◌, leb, length,
}

abbrev pub Text : Type 0
Text = List ℕ

abbrev within : ℕ → ℕ → ℕ → Bool
within lo hi c = leb lo c && leb c hi

-- [\U0001F1E6-\U0001F1FF]
unfoldable pub is_indicator : ℕ → Bool
is_indicator c = within 127462 127487 c

-- [\U0001F300-\U0001F9FF\U0001FA70-\U0001FAFF\U00002600-\U000027BF]
unfoldable pub is_base : ℕ → Bool
is_base c = within 127744 129535 c || (within 129648 129791 c || within 9728 10175 c)

-- [\U0001F3FB-\U0001F3FF\uFE0F]
unfoldable pub is_modifier : ℕ → Bool
is_modifier c = within 127995 127999 c || c == 65039

-- U+200D
unfoldable pub is_joiner : ℕ → Bool
is_joiner c = c == 8205

-- How many characters `(?:base modifier*)*` takes; `started` is false in front of its first base.
unfoldable pub bases_length : Bool → Text → ℕ
bases_length started [] = 0
bases_length started (c ∷ text) =
    let more = suc (bases_length true text) in
    if is_base c || (started && is_modifier c) then more else 0

-- How many `[modifier joiner]*` takes, with `(?:base modifier*)*` behind it.
unfoldable pub tail_length : Text → ℕ
tail_length [] = 0
tail_length (c ∷ text) =
    let more = suc (tail_length text) in
    if is_modifier c || is_joiner c then more else bases_length false (c ∷ text)

-- How many `modifier*(?:joiner base modifier*)*` takes. A joiner with no base behind it is left.
unfoldable pub joined_length : Text → ℕ
joined_length [] = 0
joined_length (c ∷ []) = if is_modifier c then 1 else 0
joined_length (c ∷ d ∷ text) =
    let modified = suc (joined_length (d ∷ text)) in
    let joined = suc (suc (joined_length text)) in
    if is_modifier c then modified else if is_joiner c && is_base d then joined else 0

abbrev pub is_flag : Text → Bool
is_flag [] = false
is_flag (c ∷ []) = false
is_flag (c ∷ d ∷ text) = is_indicator c && is_indicator d

-- The length of the match of a pattern at the front of a text, 0 where there is none. The patterns
-- differ in what may stand behind the first base.
abbrev pub match_length : (Text → ℕ) → Text → ℕ
match_length behind [] = 0
match_length behind (c ∷ text) =
    if is_flag (c ∷ text) then 2 else if is_base c then suc (behind text) else 0

-- _EMOJI_PATTERN
unfoldable pub emoji_length : Text → ℕ
emoji_length text = match_length tail_length text

-- _ATOMIC_EMOJI_PATTERN
unfoldable pub atomic_length : Text → ℕ
atomic_length text = match_length joined_length text

-- One more if there is a match, whose other characters are passed over.
abbrev pub found : ℕ → (ℕ → ℕ) → ℕ
found zero rest = rest 0
found (suc skip) rest = suc (rest skip)

-- `len(findall(text))`, with `skip` characters of a match to pass over first.
unfoldable pub count_emoji : ℕ → Text → ℕ
count_emoji skip [] = 0
count_emoji (suc skip) (c ∷ text) = count_emoji skip text
count_emoji zero (c ∷ text) = found (emoji_length (c ∷ text)) (λ skip. count_emoji skip text)

unfoldable pub get_display_length : Text → ℕ
get_display_length text = length text + count_emoji 0 text
