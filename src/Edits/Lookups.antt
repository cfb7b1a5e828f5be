-- ===== src/Edits/Lookups.antt =====
-- What is under a key behind the assignments of apply_edits
-- (app/video/pipeline/remake/revision.py).
use nbdpsy_mcp.Prelude.{
  Bool, true, false, List, [], ◌∷◌, Option, none, some, ◌≡◌, refl, String, str_eq, eq_iff,
  if◌then◌else◌, Bool-cases, ◌||◌, inl, inr,
}
use nbdpsy_mcp.Edits.Value.{Value, Object, lookup, mentions}
use nbdpsy_mcp.Edits.Override.{set_key, set_given, set_all}

abbrev pub first_of : Option Value → Option Value → Option Value
first_of none old = old
first_of (some v) old = some v

str_eq_self : (a : String) → str_eq a a ≡ true
str_eq_self a = (eq_iff a a).1 refl

str_eq_comm : (a b : String) → str_eq a b ≡ str_eq b a
str_eq_comm a b = elim (Bool-cases (str_eq a b)) [
  | inl e ↦ rw ((eq_iff a b).0 e) refl
  | inr e ↦ elim (Bool-cases (str_eq b a)) [
    | inl h ↦ rw ((eq_iff b a).0 h) refl
    | inr h ↦ rw (e, h) refl
  ]
]

lookup-set_key :
    (k key : String) (v : Value) (fields : Object)
    → lookup k (set_key key v fields) ≡ (if str_eq k key then some v else lookup k fields)
unfolding lookup set_key
lookup-set_key k key v [] = rw (str_eq_comm key k) refl
lookup-set_key k key v ((k0, v0) ∷ fields) = elim (Bool-cases (str_eq k0 key)) [
  | inl e ↦
      rw (e, str_eq_comm key k)
        (elim (Bool-cases (str_eq k key)) [
          | inl h ↦ rw h refl
          | inr h ↦ rw (h, (eq_iff k0 key).0 e, str_eq_comm key k, h) refl
        ])
  | inr e ↦
      rw (e, lookup-set_key k key v fields)
        (elim (Bool-cases (str_eq k key)) [
          | inl h ↦ rw (h, str_eq_comm k0 k, (eq_iff k key).0 h, str_eq_comm key k0, e) refl
          | inr h ↦ rw h refl
        ])
]

lookup-set_given :
    (k key : String) (op fields : Object)
    → lookup k (set_given (lookup key op) key fields)
      ≡ (if str_eq k key then first_of (lookup k op) (lookup k fields) else lookup k fields)
lookup-set_given k key op fields = elim (Bool-cases (str_eq k key)) [
  | inl h ↦ rw (h, ← (eq_iff k key).0 h) (own (lookup k op))
  | inr h ↦ rw h (others (lookup key op) h)
]
  where
    own : (v : Option Value) → lookup k (set_given v k fields) ≡ first_of v (lookup k fields)
    own none = refl
    own (some v) = rw (lookup-set_key k k v fields, str_eq_self k) refl

    others :
        (v : Option Value)
        → str_eq k key ≡ false
        → lookup k (set_given v key fields) ≡ lookup k fields
    others none h = refl
    others (some v) h = rw (lookup-set_key k key v fields, h) refl

pub lookup-set_all :
    (k : String) (keys : List String) (op fields : Object)
    → lookup k (set_all keys op fields)
      ≡ (if mentions k keys then first_of (lookup k op) (lookup k fields) else lookup k fields)
unfolding set_all
lookup-set_all k [] op fields = refl
lookup-set_all k (key ∷ keys) op fields =
    rw
      (
        lookup-set_all k keys op (set_given (lookup key op) key fields),
        lookup-set_given k key op fields,
      )
      (both (str_eq k key) (mentions k keys) (lookup k op) (lookup k fields))
  where
    both :
        (b m : Bool) (v old : Option Value)
        → (if m
            then first_of v (if b then first_of v old else old)
            else (if b then first_of v old else old))
          ≡ (if b || m then first_of v old else old)
    both true true none old = refl
    both true true (some v) old = refl
    both true false v old = refl
    both false true v old = refl
    both false false v old = refl
