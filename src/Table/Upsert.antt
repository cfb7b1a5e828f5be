-- ===== src/Table/Upsert.antt =====
-- "Select by a unique key, update the row that is there, insert one where there is none", as
-- app/services/note_metrics_service.py and app/video/pipeline/glossary.py do it.
use nbdpsy_mcp.Prelude.{
  ◌≤◌, Bool, true, false, List, [], ◌∷◌, ◌++◌, map, Option, none, some, ◌≡◌, inl, inr, refl, sym,
  ap, ◌∙◌, arith, length, select, if◌then◌else◌, Bool-cases, List-cases, append-nil, subst,
}
use nbdpsy_mcp.Result.{Result, ok, ◌>>=◌}
use nbdpsy_mcp.Table.{update_where, one_or_none}

module _ {ℓ} {A : Type ℓ} where
  pub select-append :
      (p : A → Bool) (xs ys : List A) → select p (xs ++ ys) ≡ select p xs ++ select p ys
  select-append p [] ys = refl
  select-append p (x ∷ xs) ys = elim (Bool-cases (p x)) [
    | inl e ↦ rw e (ap (λ l. x ∷ l) (select-append p xs ys))
    | inr e ↦ rw e (select-append p xs ys)
  ]

  -- The row that is there, or the new one.
  abbrev pub row_or : A → List A → A
  row_or new [] = new
  row_or new (x ∷ xs) = x

module _ {ℓ κ} {A : Type ℓ} {K : Type κ} (key : A → K) (same : K → K → Bool) where
  abbrev pub has_key : K → A → Bool
  has_key k x = same (key x) k

  abbrev pub rows_at : K → List A → List A
  rows_at k rows = select (has_key k) rows

  abbrev pub write_row : K → A → (A → A) → List A → Option A → List A
  write_row k new f rows none = rows ++ f new ∷ []
  write_row k new f rows (some x) = update_where (has_key k) f rows

  unfoldable pub upsert : K → A → (A → A) → List A → Result (List A)
  upsert k new f rows = do found ← one_or_none (rows_at k rows); ok (write_row k new f rows found)

  -- The unique constraint of the table.
  abbrev pub IsUnique : List A → Type κ
  IsUnique rows = (k : K) → length (rows_at k rows) ≤ 1

  module _ (same-true : (k k' : K) → same k k' ≡ true → k ≡ k')
      (same_refl : (k : K) → same k k ≡ true) (f : A → A)
      (key-f : (x : A) → key (f x) ≡ key x) where
    select-update_same :
        (k : K) (rows : List A)
        → rows_at k (update_where (has_key k) f rows) ≡ map f (rows_at k rows)
    unfolding update_where
    select-update_same k [] = refl
    select-update_same k (x ∷ rows) = elim (Bool-cases (same (key x) k)) [
      | inl e ↦ rw (e, key-f x, e) (ap (λ l. f x ∷ l) (select-update_same k rows))
      | inr e ↦ rw (e, e) (select-update_same k rows)
    ]

    select-update_other :
        (k k' : K) (rows : List A)
        → same k k' ≡ false
        → rows_at k' (update_where (has_key k) f rows) ≡ rows_at k' rows
    unfolding update_where
    select-update_other k k' [] ne = refl
    select-update_other k k' (x ∷ rows) ne = elim (Bool-cases (same (key x) k)) [
      | inl e ↦ rw (e, key-f x, same-true (key x) k e, ne) (select-update_other k k' rows ne)
      | inr e ↦ rw (e, select-update_other k k' rows ne) refl
    ]

    -- What an upsert wrote: one row under its key, and nothing under another.
    abbrev pub Upserted : K → A → List A → List A → Type (ℓ ⊔ κ)
    Upserted k new rows rows' =
        (rows_at k rows' ≡ f (row_or new (rows_at k rows)) ∷ [])
        × ((k' : K) → same k k' ≡ false → rows_at k' rows' ≡ rows_at k' rows)

    Upserted-IsUnique :
        (k : K) (new : A) (rows rows' : List A)
        → IsUnique rows
        → Upserted k new rows rows'
        → IsUnique rows'
    Upserted-IsUnique k new rows rows' unique (here, there) k' = elim (Bool-cases (same k k')) [
      | inl e ↦ rw (sym (same-true k k' e), here) (omega arith)
      | inr e ↦ rw (there k' e) (unique k')
    ]

    -- What stands under any key.
    pub Upserted-rows_at :
        (k k' : K) (new : A) (rows rows' : List A)
        → Upserted k new rows rows'
        → rows_at k' rows'
          ≡ (if same k k' then f (row_or new (rows_at k' rows)) ∷ [] else rows_at k' rows)
    Upserted-rows_at k k' new rows rows' (here, there) = elim (Bool-cases (same k k')) [
      | inl e ↦ rw e (
          subst (λ q. rows_at q rows' ≡ f (row_or new (rows_at q rows)) ∷ []) (same-true k k' e)
            here)
      | inr e ↦ rw e (there k' e)
    ]

    -- The key of the row that is inserted.
    has_key-new : (k k' : K) (new : A) → key new ≡ k → has_key k' (f new) ≡ same k k'
    has_key-new k k' new at = ap (λ q. same q k') (key-f new ∙ at)

    rows_at-insert_same :
        (k : K) (new : A) (rows : List A)
        → key new ≡ k
        → rows_at k rows ≡ []
        → rows_at k (rows ++ f new ∷ []) ≡ f new ∷ []
    rows_at-insert_same k new rows at none_there =
        select-append (has_key k) rows (f new ∷ [])
        ∙ rw (none_there, has_key-new k k new at, same_refl k) refl

    rows_at-insert_other :
        (k k' : K) (new : A) (rows : List A)
        → key new ≡ k
        → same k k' ≡ false
        → rows_at k' (rows ++ f new ∷ []) ≡ rows_at k' rows
    rows_at-insert_other k k' new rows at ne =
        select-append (has_key k') rows (f new ∷ [])
        ∙ rw (has_key-new k k' new at, ne) (append-nil (rows_at k' rows))

    write_row-Upserted :
        (k : K) (new : A) (rows : List A)
        → key new ≡ k
        → IsUnique rows
        → (rows' : List A) × (upsert k new f rows ≡ ok rows') × Upserted k new rows rows'
    unfolding upsert one_or_none
    write_row-Upserted k new rows at unique = elim (List-cases (rows_at k rows)) [
      | inl e ↦ (
        rows ++ f new ∷ [],
        rw e refl,
        (
          rw e (rows_at-insert_same k new rows at e),
          λ k' ne. rows_at-insert_other k k' new rows at ne,
        ),
      )
      | inr (x, [], e) ↦ (
        update_where (has_key k) f rows,
        rw e refl,
        (select-update_same k rows ∙ rw e refl, λ k' ne. select-update_other k k' rows ne),
      )
      | inr (x, y ∷ xs, e) ↦ absurd (omega (arith, ap length e, unique k))
    ]

    pub upsert-lem :
        (k : K) (new : A) (rows : List A)
        → key new ≡ k
        → IsUnique rows
        → (rows' : List A) × (upsert k new f rows ≡ ok rows')
          × Upserted k new rows rows'
          × IsUnique rows'
    upsert-lem k new rows at unique =
        let (rows', e, u) = write_row-Upserted k new rows at unique in
        (rows', e, u, Upserted-IsUnique k new rows rows' unique u)
