-- ===== src/Table/Unique.antt =====
-- Tables whose keys are distinct, as a primary key keeps them.
use nbdpsy_mcp.Prelude.{
  ℕ, Bool, false, List, [], ◌∷◌, ◌++◌, Option, none, some, ◌≡◌, refl, arith, ◌==◌, if◌then◌else◌,
  ◌&&◌,
}
use nbdpsy_mcp.Table.{find, find-append, find-update_where, update_where, count_where}

-- Does the row that was found pass the test?
abbrev pub passes {ℓ} : {A : Type ℓ} → (A → Bool) → Option A → Bool
passes p none = false
passes p (some x) = p x

module _ {ℓ} {A : Type ℓ} (key : A → ℕ) where
  abbrev pub Unique : List A → Type ℓ
  Unique [] = Unit
  Unique (x ∷ xs) = (find key (key x) xs ≡ none) × Unique xs

  pub Unique-append :
      (xs : List A) (y : A) → Unique xs → find key (key y) xs ≡ none → Unique (xs ++ y ∷ [])
  unfolding find
  Unique-append [] y u h = (refl, tt)
  Unique-append (x ∷ xs) y u h = (
    ground (arith, u.0, find-append key (key x) xs (y ∷ [])),
    Unique-append xs y u.1 (ground arith),
  )

  pub Unique-update_where :
      (p : A → Bool) (f : A → A)
      → ((x : A) → key (f x) ≡ key x)
      → (xs : List A) → Unique xs
      → Unique (update_where p f xs)
  unfolding update_where
  Unique-update_where p f same [] u = tt
  Unique-update_where p f same (x ∷ xs) u = (
    ground (arith, same x, find-update_where key (key x) p f xs same, u.0),
    Unique-update_where p f same xs u.1,
  )

  -- With distinct keys, an update by key touches one row at most, and the row count says whether
  -- the row found passes the test.
  count_where-missing :
      (k : ℕ) (p : A → Bool) (xs : List A)
      → find key k xs ≡ none
      → count_where (λ x. (key x == k) && p x) xs ≡ 0
  unfolding find
  count_where-missing k p [] h = refl
  count_where-missing k p (x ∷ xs) h = ground (arith, count_where-missing k p xs)

  pub count_where-key :
      (k : ℕ) (p : A → Bool) (xs : List A)
      → Unique xs
      → count_where (λ x. (key x == k) && p x) xs ≡ (if passes p (find key k xs) then 1 else 0)
  unfolding find
  count_where-key k p [] u = refl
  count_where-key k p (x ∷ xs) u =
      ground (arith, count_where-key k p xs u.1, count_where-missing k p xs, u.0)
