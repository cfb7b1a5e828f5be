-- ===== src/Accounts/Cookie.antt =====
-- A cookie as the JSON object that the extension sends, and normalize_cookies of
-- app/services/cookie_service.py.
use nbdpsy_mcp.Prelude.{List, [], ◌∷◌, map, Option, none, some, String, str_eq, if◌then◌else◌}

-- A value of the object: a text, or any other JSON value by its encoding.
pub data Value : Type 0 where
  text other : String → Value

-- A dict in the order of its keys.
abbrev pub Cookie : Type 0
Cookie = List (String × Value)

unfoldable pub get : String → Cookie → Option Value
get key [] = none
get key ((k, v) ∷ cookie) = if str_eq k key then some v else get key cookie

-- `cookie[key] = value`: in place, or at the end.
unfoldable pub set : String → Value → Cookie → Cookie
set key value [] = (key, value) ∷ []
set key value ((k, v) ∷ cookie) =
    let rest = set key value cookie in if str_eq k key then (k, value) ∷ cookie else (k, v) ∷ rest

-- _SAME_SITE_MAP
unfoldable pub same_site_map : String → Option String
same_site_map s =
    if str_eq s "strict"
    then some "Strict"
    else if str_eq s "lax"
    then some "Lax"
    else if str_eq s "none"
    then some "None"
    else if str_eq s "no_restriction"
    then some "None"
    else if str_eq s "unspecified"
    then some "Lax"
    else none

abbrev pub or_lax : Option String → String
or_lax none = "Lax"
or_lax (some s) = s

-- `str.lower` is of the language.
module _ (lower : String → String) where
  abbrev pub site_of : Option Value → String
  site_of none = "Lax"
  site_of (some (text s)) = or_lax (same_site_map (lower s))
  site_of (some (other _)) = "Lax"

  unfoldable pub normalize_cookie : Cookie → Cookie
  normalize_cookie cookie = set "sameSite" (text (site_of (get "sameSite" cookie))) cookie

  unfoldable pub normalize_cookies : List Cookie → List Cookie
  normalize_cookies raw = map normalize_cookie raw
