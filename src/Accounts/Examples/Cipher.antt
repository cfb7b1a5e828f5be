-- ===== src/Accounts/Examples/Cipher.antt =====
-- A cipher that puts one character in front of the text.
use Prim.Native.Char.{char}
use Prim.Native.String.{String, [], ◌∷◌}
use nbdpsy_mcp.Prelude.{false, Option, none, some, ◌≡◌, refl, inl, inr, str_eq, eq_iff, Bool-cases}

abbrev pub encrypt : String → String
encrypt plain = char 33 tt ∷ plain

abbrev pub decrypt : String → Option String
decrypt [] = none
decrypt (c ∷ plain) = some plain

pub decrypt-encrypt : (plain : String) → decrypt (encrypt plain) ≡ some plain
decrypt-encrypt plain = refl

pub encrypt-nonempty : (plain : String) → str_eq (encrypt plain) "" ≡ false
encrypt-nonempty plain = elim (Bool-cases (str_eq (encrypt plain) "")) [
  | inl e ↦ absurd (cons_nil ((eq_iff (encrypt plain) "").0 e))
  | inr e ↦ e
]
  where
    cons_nil : encrypt plain ≡ "" → ⊥
    cons_nil e = cc
