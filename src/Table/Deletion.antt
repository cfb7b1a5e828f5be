-- ===== src/Table/Deletion.antt =====
-- What DELETE leaves of a table, and the ids that a SELECT gives.
use nbdpsy_mcp.Prelude.{
  ℕ, Bool, false, List, [], ◌∷◌, map, none, ◌≡◌, refl, arith, if◌then◌else◌, contains, select, ◌==◌,
}
use nbdpsy_mcp.Table.{find, delete_where, count_where}
use nbdpsy_mcp.Table.Unique.{Unique, passes}

module _ {ℓ} {A : Type ℓ} (key : A → ℕ) where
  pub find-delete_where-none :
      (k : ℕ) (p : A → Bool) (xs : List A)
      → find key k xs ≡ none
      → find key k (delete_where p xs) ≡ none
  unfolding find
  find-delete_where-none k p [] h = refl
  find-delete_where-none k p (x ∷ xs) h = ground (arith, find-delete_where-none k p xs)

  pub find-delete_where :
      (k : ℕ) (p : A → Bool) (xs : List A)
      → Unique key xs
      → find key k (delete_where p xs) ≡ (if passes p (find key k xs) then none else find key k xs)
  unfolding find
  find-delete_where k p [] u = refl
  find-delete_where k p (x ∷ xs) u =
      ground (arith, u.0, find-delete_where k p xs u.1, find-delete_where-none k p xs)

  -- A DELETE by the key.
  pub find-delete_key :
      (k k' : ℕ) (xs : List A)
      → find key k (delete_where (λ x. key x == k') xs) ≡ (if k' == k then none else find key k xs)
  unfolding find
  find-delete_key k k' [] = ground arith
  find-delete_key k k' (x ∷ xs) = ground (arith, find-delete_key k k' xs)

  pub passes-count_where :
      (k : ℕ) (p : A → Bool) (xs : List A) → count_where p xs ≡ 0 → passes p (find key k xs) ≡ false
  unfolding find
  passes-count_where k p [] h = refl
  passes-count_where k p (x ∷ xs) h = ground (arith, passes-count_where k p xs)

  abbrev pub ids_where : (A → Bool) → List A → List ℕ
  ids_where p xs = map key (select p xs)

  ids_where-none :
      (k : ℕ) (p : A → Bool) (xs : List A)
      → find key k xs ≡ none
      → contains (ids_where p xs) k ≡ false
  unfolding find
  ids_where-none k p [] h = refl
  ids_where-none k p (x ∷ xs) h = ground (arith, ids_where-none k p xs)

  -- An id is selected exactly if its row passes the test.
  pub contains-ids_where :
      (k : ℕ) (p : A → Bool) (xs : List A)
      → Unique key xs
      → contains (ids_where p xs) k ≡ passes p (find key k xs)
  unfolding find
  contains-ids_where k p [] u = refl
  contains-ids_where k p (x ∷ xs) u =
      ground (arith, u.0, contains-ids_where k p xs u.1, ids_where-none k p xs)
