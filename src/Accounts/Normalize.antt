-- ===== src/Accounts/Normalize.antt =====
-- normalize_cookies of app/services/cookie_service.py.
use nbdpsy_mcp.Prelude.{
  Bool, true, false, List, [], ◌∷◌, Option, none, some, String, ◌≡◌, refl, sym, arith, ◌∙◌, ◌⊎◌,
  inl, inr, str_eq, eq_iff, if◌then◌else◌, Bool-cases,
}
use nbdpsy_mcp.Accounts.Cookie.{
  Value, text, other, Cookie, get, set, same_site_map, or_lax, site_of, normalize_cookie,
  normalize_cookies,
}

str_eq_refl : (s : String) → str_eq s s ≡ true
str_eq_refl s = (eq_iff s s).1 refl

str_eq-other : (a b c : String) → str_eq a b ≡ false → str_eq b c ≡ true → str_eq a c ≡ false
str_eq-other a b c h e = rw (sym ((eq_iff b c).0 e), h)

-- A dict after `cookie[key] = value`.
get-set :
    (k key : String) (v : Value) (cookie : Cookie)
    → get k (set key v cookie) ≡ (if str_eq key k then some v else get k cookie)
unfolding get set
get-set k key v [] = refl
get-set k key v ((k', v') ∷ cookie) = elim (Bool-cases (str_eq k' key)) [
  | inl e ↦ rw (e, (eq_iff k' key).0 e) (ground arith)
  | inr e ↦ rw (e, get-set k key v cookie) (ground (arith, str_eq-other k' key k e))
]

set-set :
    (key : String) (v : Value) (cookie : Cookie) → set key v (set key v cookie) ≡ set key v cookie
unfolding set
set-set key v [] = rw (str_eq_refl key)
set-set key v ((k', v') ∷ cookie) = elim (Bool-cases (str_eq k' key)) [
  | inl e ↦ rw (e, e)
  | inr e ↦ rw (e, e, set-set key v cookie)
]

abbrev pub IsSite : String → Type 0
IsSite s = (s ≡ "Strict") ⊎ ((s ≡ "Lax") ⊎ (s ≡ "None"))

if-IsSite :
    (test : Bool) (x y : Option String)
    → IsSite (or_lax x)
    → IsSite (or_lax y)
    → IsSite (or_lax (if test then x else y))
if-IsSite true x y hx hy = hx
if-IsSite false x y hx hy = hy

or_lax-IsSite : (s : String) → IsSite (or_lax (same_site_map s))
unfolding same_site_map
or_lax-IsSite s = if-IsSite (str_eq s "strict") _ _ (inl refl) (
    if-IsSite (str_eq s "lax") _ _ (inr (inl refl)) (
      if-IsSite (str_eq s "none") _ _ (inr (inr refl)) (
        if-IsSite (str_eq s "no_restriction") _ _ (inr (inr refl))
          (if-IsSite (str_eq s "unspecified") _ _ (inr (inl refl)) (inr (inl refl))))))

module _ (lower : String → String) where
  site_of-IsSite : (v : Option Value) → IsSite (site_of lower v)
  site_of-IsSite none = inr (inl refl)
  site_of-IsSite (some (text s)) = or_lax-IsSite (lower s)
  site_of-IsSite (some (other s)) = inr (inl refl)

  -- What the normalization says of one cookie: its sameSite is a text that the browser takes, and
  -- every other key has the value that it had.
  abbrev pub Normalized : Cookie → Cookie → Type 0
  Normalized old new =
      ((site : String) × (get "sameSite" new ≡ some (text site)) × IsSite site)
      × ((key : String) → str_eq "sameSite" key ≡ false → get key new ≡ get key old)

  abbrev pub AllNormalized : List Cookie → List Cookie → Type 0
  AllNormalized [] [] = Unit
  AllNormalized (old ∷ olds) (new ∷ news) = Normalized old new × AllNormalized olds news
  AllNormalized _ _ = ⊥

  normalize_cookie-Normalized :
      (cookie : Cookie) → Normalized cookie (normalize_cookie lower cookie)
  unfolding normalize_cookie
  normalize_cookie-Normalized cookie = (
    (
      site_of lower (get "sameSite" cookie),
      get-set "sameSite" "sameSite" (text (site_of lower (get "sameSite" cookie))) cookie,
      site_of-IsSite (get "sameSite" cookie),
    ),
    λ key ne. get-set key "sameSite" (text (site_of lower (get "sameSite" cookie))) cookie ∙ rw ne,
  )

  cookies-AllNormalized : (raw : List Cookie) → AllNormalized raw (normalize_cookies lower raw)
  unfolding normalize_cookies
  cookies-AllNormalized [] = tt
  cookies-AllNormalized (cookie ∷ raw) =
      (normalize_cookie-Normalized cookie, cookies-AllNormalized raw)

  module _ (lower-Strict : lower "Strict" ≡ "strict") (lower-Lax : lower "Lax" ≡ "lax")
      (lower-None : lower "None" ≡ "none") where
    site_again : (s : String) → IsSite s → or_lax (same_site_map (lower s)) ≡ s
    unfolding same_site_map
    site_again s (inl e) = rw (e, lower-Strict)
    site_again s (inr (inl e)) = rw (e, lower-Lax)
    site_again s (inr (inr e)) = rw (e, lower-None)

    normalize_cookie-again :
        (cookie : Cookie)
        → normalize_cookie lower (normalize_cookie lower cookie) ≡ normalize_cookie lower cookie
    unfolding normalize_cookie
    normalize_cookie-again cookie = rw (
      get-set "sameSite" "sameSite" (text (site_of lower (get "sameSite" cookie))) cookie,
      site_again (site_of lower (get "sameSite" cookie)) (site_of-IsSite (get "sameSite" cookie)),
      set-set "sameSite" (text (site_of lower (get "sameSite" cookie))) cookie,
    )

    -- The normalization keeps the number and the order of the cookies; each gets a sameSite that the
    -- browser takes and keeps every other key; and a second normalization changes nothing. The
    -- lower case of the three texts is the known one.
    pub normalize_cookies-normal :
        (raw : List Cookie)
        → AllNormalized raw (normalize_cookies lower raw)
          × (normalize_cookies lower (normalize_cookies lower raw) ≡ normalize_cookies lower raw)
    unfolding normalize_cookies
    normalize_cookies-normal raw = (cookies-AllNormalized raw, again raw)
      where
        again :
            (raw : List Cookie)
            → normalize_cookies lower (normalize_cookies lower raw) ≡ normalize_cookies lower raw
        again [] = refl
        again (cookie ∷ raw) = rw (normalize_cookie-again cookie, again raw)
