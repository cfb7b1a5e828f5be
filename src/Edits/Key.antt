-- ===== src/Edits/Key.antt =====
-- The text under which app/video/pipeline/remake/revision.py keeps what it overrides of a scene:
-- Python's `str` of its id.
use Prim.Native.String.{String, [], ◌∷◌}
use nbdpsy_mcp.Prelude.{ℕ, zero, suc, ◌%◌, ◌/◌, true, false, ◌==◌, if◌then◌else◌, pos, negsuc}
use nbdpsy_mcp.Edits.Value.{Value, null, container, boolean, integer, float, string}

abbrev digits : String
digits = "0123456789"

abbrev with_digit : String → ℕ → String → String
with_digit [] d rest = rest
with_digit (c ∷ cs) zero rest = c ∷ rest
with_digit (c ∷ cs) (suc d) rest = with_digit cs d rest

-- The decimal digits; a number has at most as many as it says.
abbrev decimal_onto : ℕ → ℕ → String → String
decimal_onto zero n rest = rest
decimal_onto (suc fuel) n rest =
    let more = with_digit digits (n % 10) rest in
    if n / 10 == 0 then more else decimal_onto fuel (n / 10) more

unfoldable pub decimal : ℕ → String
decimal n = decimal_onto (suc n) n ""

-- `str(value)`; the texts of a float, of a list and of an object are an argument.
unfoldable pub str : (Value → String) → Value → String
str repr null = "None"
str repr container = repr container
str repr (boolean true) = "True"
str repr (boolean false) = "False"
str repr (integer (pos n)) = decimal n
str repr (integer (negsuc n)) = "-" ∷ decimal (suc n)
str repr (float t) = repr (float t)
str repr (string s) = s
