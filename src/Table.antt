-- ===== src/Table.antt =====
-- A database table: its rows in order of insertion, and a key for each row. `find` is
-- `session.get`, `update_where` is `UPDATE … WHERE`, `delete_where` is `DELETE … WHERE`.
pub mod Unique
pub mod Deletion
pub mod Upsert
use mathlib.Core.Option
use nbdpsy_mcp.Prelude.{
  ℕ, Bool, List, [], ◌∷◌, ◌++◌, Option, none, some, ◌≡◌, refl, arith, ◌==◌, if◌then◌else◌, not,
  select, length, is_none, ◌≢◌,
}
use nbdpsy_mcp.Result.{Result, ok, err, multiple_results}

module _ {ℓ} {A : Type ℓ} where
  abbrev pub apply_if : (A → Bool) → (A → A) → A → A
  apply_if p f x = if p x then f x else x

  unfoldable pub update_where : (A → Bool) → (A → A) → List A → List A
  update_where p f [] = []
  update_where p f (x ∷ xs) = apply_if p f x ∷ update_where p f xs

  -- The row count that an `UPDATE` or a `DELETE` reports.
  abbrev pub count_where : (A → Bool) → List A → ℕ
  count_where p xs = length (select p xs)

  -- `.scalars().first()`
  unfoldable pub first_where : (A → Bool) → List A → Option A
  first_where p [] = none
  first_where p (x ∷ xs) = if p x then some x else first_where p xs

  -- `.scalar_one_or_none()`, which raises where two rows match.
  unfoldable pub one_or_none : List A → Result (Option A)
  one_or_none [] = ok none
  one_or_none (x ∷ []) = ok (some x)
  one_or_none (x ∷ y ∷ xs) = err multiple_results

  abbrev pub delete_where : (A → Bool) → List A → List A
  delete_where p xs = select (λ x. not (p x)) xs

module _ {ℓ} {A : Type ℓ} (key : A → ℕ) where
  unfoldable pub find : ℕ → List A → Option A
  find k [] = none
  find k (x ∷ xs) = if key x == k then some x else find k xs

  -- A row found by its key has that key.
  pub key-find : (k : ℕ) (xs : List A) (x : A) → find k xs ≡ some x → key x ≡ k
  unfolding find
  key-find k [] x h = ground arith
  key-find k (y ∷ xs) x h = ground (arith, key-find k xs x)

  pub find-append :
      (k : ℕ) (xs ys : List A)
      → find k (xs ++ ys) ≡ (if is_none (find k xs) then find k ys else find k xs)
  unfolding find
  find-append k [] ys = refl
  find-append k (x ∷ xs) ys = ground (arith, find-append k xs ys)

  -- An update that leaves the keys alone changes the row found, and which rows are found not.
  pub find-update_where :
      (k : ℕ) (p : A → Bool) (f : A → A) (xs : List A)
      → ((x : A) → key (f x) ≡ key x)
      → find k (update_where p f xs) ≡ Option.map (apply_if p f) (find k xs)
  unfolding find update_where
  find-update_where k p f [] h = refl
  find-update_where k p f (x ∷ xs) h = ground (arith, h x, find-update_where k p f xs h)

  pub find-append_old :
      (k : ℕ) (xs ys : List A) (x : A) → find k xs ≡ some x → find k (xs ++ ys) ≡ some x
  find-append_old k xs ys x h = rw (find-append k xs ys, h)

  pub find-append_new :
      (k : ℕ) (xs : List A) (y : A)
      → find k xs ≡ none
      → find k (xs ++ y ∷ []) ≡ (if key y == k then some y else none)
  unfolding find
  find-append_new k xs y h = rw (find-append k xs (y ∷ []), h)

  pub find-append_other :
      (k : ℕ) (xs : List A) (y : A) → key y ≢ k → find k (xs ++ y ∷ []) ≡ find k xs
  unfolding find
  find-append_other k [] y ne = ground arith
  find-append_other k (x ∷ xs) y ne = ground (arith, find-append_other k xs y ne)

  -- An update of the rows with one key leaves what is found under another.
  pub find-update_other :
      (k k' : ℕ) (f : A → A) (xs : List A)
      → ((x : A) → key (f x) ≡ key x)
      → k' ≢ k
      → find k (update_where (λ x. key x == k') f xs) ≡ find k xs
  unfolding find update_where
  find-update_other k k' f [] h ne = refl
  find-update_other k k' f (x ∷ xs) h ne = ground (arith, h x, find-update_other k k' f xs h ne)

module _ {ℓ} {A : Type ℓ} (p : A → Bool) (f : A → A) where
  -- An update that matches no row changes nothing.
  pub update_where-none : (xs : List A) → count_where p xs ≡ 0 → update_where p f xs ≡ xs
  unfolding update_where
  update_where-none [] h = refl
  update_where-none (x ∷ xs) h = ground (arith, update_where-none xs)
