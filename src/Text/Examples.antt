-- ===== src/Text/Examples.antt =====
-- A text with a flag, two emoji and a letter, cut within and behind them.
use nbdpsy_mcp.Prelude.{◌++◌, ◌≤◌, List, [], ◌∷◌, ◌≡◌, refl, arith}
use nbdpsy_mcp.Text.Emoji.{
  Text, get_display_length, count_emoji, emoji_length, atomic_length, tail_length, joined_length,
  bases_length, is_indicator, is_base, is_modifier, is_joiner,
}
use nbdpsy_mcp.Text.Truncate.{
  iter_atomic_units, units_from, keep_units, truncate_by_display, join, Stops,
  truncate_by_display-longest,
}

-- A runner with a joiner and a sign, two faces, and a letter.
abbrev text : Text
text = 127939 ∷ 8205 ∷ 9792 ∷ 65039 ∷ 128512 ∷ 128512 ∷ 97 ∷ []

-- The count takes the whole run of emoji as one, the units do not.
display_length : get_display_length text ≡ 8
unfolding get_display_length count_emoji emoji_length tail_length bases_length is_indicator is_base
    is_modifier is_joiner
display_length = refl

units :
    iter_atomic_units text
    ≡ (127939 ∷ 8205 ∷ 9792 ∷ 65039 ∷ []) ∷ (128512 ∷ []) ∷ (128512 ∷ []) ∷ (97 ∷ []) ∷ []
unfolding iter_atomic_units units_from atomic_length joined_length is_indicator is_base is_modifier
    is_joiner
units = refl

truncated : truncate_by_display text 6 ≡ 127939 ∷ 8205 ∷ 9792 ∷ 65039 ∷ 128512 ∷ []
unfolding truncate_by_display keep_units iter_atomic_units units_from atomic_length joined_length
    get_display_length count_emoji emoji_length tail_length bases_length is_indicator is_base
    is_modifier is_joiner
truncated = refl

truncate_by_display-longest_example :
    (kept : List Text) × (left : List Text) × (iter_atomic_units text ≡ kept ++ left)
    × (join kept ++ join left ≡ text)
    × (truncate_by_display text 6 ≡ join kept)
    × (get_display_length (truncate_by_display text 6) ≤ 6)
    × Stops 6 (truncate_by_display text 6) left
truncate_by_display-longest_example = truncate_by_display-longest text 6 (omega arith)
