-- ===== src/Edits/Value.antt =====
-- What app/video/pipeline/remake/revision.py reads of a parsed JSON object: an operation of an edit
-- plan, as the language model wrote it. A moment or duration in seconds is a number of ticks, as in
-- `Pipeline`; a float is read exactly, and NaN and the infinities are left out.
use nbdpsy_mcp.Prelude.{
  ℕ, suc, ◌*◌, Bool, true, false, ◌&&◌, ◌||◌, List, [], ◌∷◌, Option, none, some, String, str_eq,
  ◌==◌, ℤ, pos, if◌then◌else◌,
}

-- `container` is a list or an object.
pub data Value : Type 0 where
  null container : Value
  boolean : Bool → Value
  integer : ℤ → Value
  float : ℤ → Value
  string : String → Value

abbrev pub Object : Type 0
Object = List (String × Value)

-- `op[key]`, where it is there.
unfoldable pub lookup : String → Object → Option Value
lookup key [] = none
lookup key ((k, v) ∷ fields) = if str_eq k key then some v else lookup key fields

abbrev pub or_null : Option Value → Value
or_null none = null
or_null (some v) = v

-- `op.get(key)`
abbrev pub get : String → Object → Value
get key fields = or_null (lookup key fields)

abbrev pub is_null : Value → Bool
is_null null = true
is_null _ = false

abbrev pub is_string : Value → Bool
is_string (string s) = true
is_string _ = false

-- A list or an object cannot be looked up in a dictionary.
abbrev pub is_hashable : Value → Bool
is_hashable container = false
is_hashable _ = true

abbrev pub mentions : String → List String → Bool
mentions key [] = false
mentions key (k ∷ keys) = str_eq key k || mentions key keys

-- Is every key one of these?
abbrev pub are_known : List String → Object → Bool
are_known allowed [] = true
are_known allowed ((k, v) ∷ fields) = mentions k allowed && are_known allowed fields

module _ (second : ℕ) where
  -- Python finds a number under a key that is an equal integer, and True and False count as 1 and 0.
  abbrev pub is_id : Value → ℕ → Bool
  is_id (boolean true) id = id == 1
  is_id (boolean false) id = id == 0
  is_id (integer (pos n)) id = n == id
  is_id (float (pos t)) id = t == id * second
  is_id _ id = false

  -- The ticks of a number that is positive.
  abbrev pub positive : Value → Option ℕ
  positive (integer (pos (suc n))) = some (suc n * second)
  positive (float (pos (suc t))) = some (suc t)
  positive _ = none
