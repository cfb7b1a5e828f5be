-- ===== src/Text/Truncate.antt =====
-- truncate_by_display (app/browser/text_formatter.py), and what it keeps of a text.
use nbdpsy_mcp.Prelude.{
  ℕ, zero, suc, ◌-◌, ◌≤◌, ◌<◌, List, [], ◌∷◌, ◌++◌, ◌≡◌, refl, sym, ap, ◌∙◌, arith, inl, inr,
  if◌then◌else◌, leb, take, drop, Bool-cases, append_assoc, append-nil, take-append-drop, leb→le,
}
use nbdpsy_mcp.Text.Emoji.{Text, atomic_length, count_emoji, get_display_length}

-- The number of characters of a unit: a match of the pattern, or one character.
abbrev pub at_least_one : ℕ → ℕ
at_least_one zero = 1
at_least_one (suc n) = suc n

-- _iter_atomic_units, with `skip` characters of a unit to pass over first.
unfoldable pub units_from : ℕ → Text → List Text
units_from skip [] = []
units_from (suc skip) (c ∷ text) = units_from skip text
units_from zero (c ∷ text) =
    take (at_least_one (atomic_length (c ∷ text))) (c ∷ text)
    ∷ units_from (at_least_one (atomic_length (c ∷ text)) - 1) text

unfoldable pub iter_atomic_units : Text → List Text
iter_atomic_units text = units_from 0 text

-- The loop over the units, with what has been kept.
unfoldable pub keep_units : ℕ → Text → List Text → Text
keep_units max_width result [] = result
keep_units max_width result (unit ∷ units) =
    let rest = keep_units max_width (result ++ unit) units in
    if leb (get_display_length (result ++ unit)) max_width then rest else result

-- `max_width` is not negative here: the callers pass limits.
unfoldable pub truncate_by_display : Text → ℕ → Text
truncate_by_display [] max_width = []
truncate_by_display (c ∷ text) zero = []
truncate_by_display (c ∷ text) (suc width) =
    keep_units (suc width) [] (iter_atomic_units (c ∷ text))

abbrev pub join : List Text → Text
join [] = []
join (unit ∷ units) = unit ++ join units

-- The first unit, given that the units behind it are the rest.
unit_rest :
    (c : ℕ) (text : Text)
    → ((skip : ℕ) → join (units_from skip text) ≡ drop skip text)
    → (n : ℕ)
    → take (at_least_one n) (c ∷ text) ++ join (units_from (at_least_one n - 1) text) ≡ c ∷ text
unit_rest c text rest zero = ap (λ l. c ∷ l) (rest 0)
unit_rest c text rest (suc n) =
    ap (λ l. c ∷ l)
      (ap (λ m. take n text ++ join (units_from m text)) (omega arith)
        ∙ ap (λ l. take n text ++ l) (rest n)
        ∙ take-append-drop n text)

join-units_from : (skip : ℕ) (text : Text) → join (units_from skip text) ≡ drop skip text
unfolding units_from
join-units_from zero [] = refl
join-units_from (suc skip) [] = refl
join-units_from (suc skip) (c ∷ text) = join-units_from skip text
join-units_from zero (c ∷ text) =
    unit_rest c text (λ skip. join-units_from skip text) (atomic_length (c ∷ text))

-- Where the loop stops.
abbrev pub Stops : ℕ → Text → List Text → Type 0
Stops max_width result [] = Unit
Stops max_width result (unit ∷ units) = max_width < get_display_length (result ++ unit)

join-append : (xs ys : List Text) → join (xs ++ ys) ≡ join xs ++ join ys
join-append [] ys = refl
join-append (x ∷ xs) ys =
    ap (λ l. x ++ l) (join-append xs ys) ∙ sym (append_assoc x (join xs) (join ys))

-- What the loop returns, from a result that fits.
keep_units-lem :
    (w : ℕ) (result : Text) (units : List Text)
    → get_display_length result ≤ w
    → (kept : List Text) × (left : List Text) × (units ≡ kept ++ left)
      × (keep_units w result units ≡ result ++ join kept)
      × (get_display_length (keep_units w result units) ≤ w)
      × Stops w (keep_units w result units) left
unfolding keep_units
keep_units-lem w result [] fits = ([], [], refl, sym (append-nil result), fits, tt)
keep_units-lem w result (unit ∷ units) fits =
    elim (Bool-cases (leb (get_display_length (result ++ unit)) w)) [
      | inl e ↦
          let (kept, left, same, result', fits', stops) =
            keep_units-lem w (result ++ unit) units (leb→le _ _ e) in
          (
            unit ∷ kept,
            left,
            ap (λ us. unit ∷ us) same,
            rw e (result' ∙ append_assoc result unit (join kept)),
            rw e fits',
            rw e stops,
          )
      | inr e ↦ (
        [],
        unit ∷ units,
        refl,
        rw e (sym (append-nil result)),
        rw e fits,
        rw e (ground (arith, e)),
      )
    ]

-- The truncation is a part of the text from its start, made of whole units: so many that it is within
-- the width, and that one more would not be, unless it is the whole text.
pub truncate_by_display-longest :
    (text : Text) (w : ℕ)
    → 0 < w
    → (kept : List Text) × (left : List Text) × (iter_atomic_units text ≡ kept ++ left)
      × (join kept ++ join left ≡ text)
      × (truncate_by_display text w ≡ join kept)
      × (get_display_length (truncate_by_display text w) ≤ w)
      × Stops w (truncate_by_display text w) left
unfolding truncate_by_display iter_atomic_units get_display_length count_emoji units_from
truncate_by_display-longest [] w pos = ([], [], refl, refl, refl, omega arith, tt)
truncate_by_display-longest (c ∷ text) zero pos = absurd (omega arith)
truncate_by_display-longest (c ∷ text) (suc w) pos =
    let (kept, left, same, result, fits, stops) =
      keep_units-lem (suc w) [] (units_from 0 (c ∷ text)) (omega arith) in
    (
      kept,
      left,
      same,
      sym (join-append kept left) ∙ ap join (sym same) ∙ join-units_from 0 (c ∷ text),
      result,
      fits,
      stops,
    )
