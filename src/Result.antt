-- ===== src/Result.antt =====
-- The exceptions that handlers raise, as the server's error handlers tell them apart: AuthError
-- (401), AccessDenied (403), NotFoundError (404), ValueError (400), HTTPException(409), and what ends
-- in a 500. The one of a refused edit plan becomes a ValueError; `internal_error` is a KeyError, a
-- TypeError or an AttributeError.
use nbdpsy_mcp.Prelude.{Bool, true, false, if◌then◌else◌, ◌≡◌, refl}

pub data Error : Type 0 where
  auth_error access_denied not_found value_error conflict : Error
  integrity_error overflow_error multiple_results stale_data os_error : Error
  edit_plan_error internal_error : Error

-- What a handler returns, or the exception that it raises.
pub data Result {ℓ} (T : Type ℓ) : Type ℓ where
  err : Error → Result T
  ok : T → Result T

module _ {ℓ} {T : Type ℓ} where
  abbrev pub is_ok : Result T → Bool
  is_ok (err _) = false
  is_ok (ok _) = true

  pub ok_inj : {x y : T} → ok x ≡ ok y → x ≡ y
  ok_inj e = cc

module _ {ℓ κ} {T : Type ℓ} {S : Type κ} where
  infixl 5 ◌>>=◌
  -- The first exception ends the handler.
  abbrev pub ◌>>=◌ : Result T → (T → Result S) → Result S
  err raised >>= next = err raised
  ok x >>= next = next x

  -- What a successful sequence says of its first part.
  pub >>=-eq-ok :
      (first : Result T) (next : T → Result S) {y : S}
      → (first >>= next) ≡ ok y
      → (x : T) × (first ≡ ok x) × (next x ≡ ok y)
  >>=-eq-ok (err raised) next e = cc
  >>=-eq-ok (ok x) next e = (x, refl, e)

infixl 5 ◌>>◌
abbrev pub ◌>>◌ {κ} : {S : Type κ} → Result (Unit {0}) → Result S → Result S
check >> next = check >>= λ _. next

-- `if not test: raise raised`
abbrev pub guard : Bool → Error → Result (Unit {0})
guard test raised = if test then ok tt else err raised

-- A guard that a successful handler has passed.
pub guard-eq-ok {ℓ} :
    {T : Type ℓ} (test : Bool) (raised : Error) (rest : Result T) {x : T}
    → (guard test raised >> rest) ≡ ok x
    → (test ≡ true) × (rest ≡ ok x)
guard-eq-ok true raised rest e = (refl, e)
guard-eq-ok false raised rest e = cc
