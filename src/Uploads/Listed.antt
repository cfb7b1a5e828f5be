-- ===== src/Uploads/Listed.antt =====
-- What a listing of uploads shows (list_batches in app/services/upload_service.py).
use nbdpsy_mcp.Prelude.{
  ℕ, ◌+◌, ◌≤◌, Bool, ◌&&◌, List, [], ◌∷◌, if◌then◌else◌, ltb, select, ◌==◌, ◌≡◌, refl, ap, ◌∙◌,
  arith, Bool-cases, inl, inr,
}
use nbdpsy_mcp.Uploads.{UploadBatch, State, is_own, insert_batch, newest_first, list_batches}

-- How many rows pass a test?
abbrev pub count : (UploadBatch → Bool) → List UploadBatch → ℕ
count p [] = 0
count p (b ∷ batches) = (if p b then 1 else 0) + count p batches

-- From a moment on backwards.
abbrev pub IsBefore : ℕ → List UploadBatch → Type 0
IsBefore t [] = Unit
IsBefore t (b ∷ batches) = (b.created_at ≤ t) × IsBefore b.created_at batches

-- No row is older than one behind it.
abbrev pub IsNewestFirst : List UploadBatch → Type 0
IsNewestFirst [] = Unit
IsNewestFirst (b ∷ batches) = IsBefore b.created_at batches

module _ (Image : Type 0) where
  count-insert_batch :
      (p : UploadBatch → Bool) (b : UploadBatch) (batches : List UploadBatch)
      → count p (insert_batch Image b batches) ≡ count p (b ∷ batches)
  unfolding insert_batch
  count-insert_batch p b [] = refl
  count-insert_batch p b (c ∷ batches) = ground (arith, count-insert_batch p b batches)

  count-newest_first :
      (p : UploadBatch → Bool) (batches : List UploadBatch)
      → count p (newest_first Image batches) ≡ count p batches
  unfolding newest_first
  count-newest_first p [] = refl
  count-newest_first p (b ∷ batches) =
      count-insert_batch p b (newest_first Image batches)
      ∙ ap (λ n. (if p b then 1 else 0) + n) (count-newest_first p batches)

  insert_batch-IsBefore :
      (t : ℕ) (b : UploadBatch) (batches : List UploadBatch)
      → b.created_at ≤ t
      → IsBefore t batches
      → IsBefore t (insert_batch Image b batches)
  unfolding insert_batch
  insert_batch-IsBefore t b [] le h = (le, tt)
  insert_batch-IsBefore t b (c ∷ batches) le h = elim (Bool-cases (ltb b.created_at c.created_at)) [
    | inl e ↦ rw e (h.0, insert_batch-IsBefore c.created_at b batches (ground (arith, e)) h.1)
    | inr e ↦ rw e (le, (ground (arith, e), h.1))
  ]

  insert_batch-IsNewestFirst :
      (b : UploadBatch) (batches : List UploadBatch)
      → IsNewestFirst batches
      → IsNewestFirst (insert_batch Image b batches)
  unfolding insert_batch
  insert_batch-IsNewestFirst b [] h = tt
  insert_batch-IsNewestFirst b (c ∷ batches) h = elim (Bool-cases (ltb b.created_at c.created_at)) [
    | inl e ↦ rw e (insert_batch-IsBefore c.created_at b batches (ground (arith, e)) h)
    | inr e ↦ rw e (ground (arith, e), h)
  ]

  newest_first-IsNewestFirst :
      (batches : List UploadBatch) → IsNewestFirst (newest_first Image batches)
  unfolding newest_first
  newest_first-IsNewestFirst [] = tt
  newest_first-IsNewestFirst (b ∷ batches) =
      insert_batch-IsNewestFirst b (newest_first Image batches) (newest_first-IsNewestFirst batches)

  count-select :
      (p q : UploadBatch → Bool) (batches : List UploadBatch)
      → count p (select q batches) ≡ count (λ b. q b && p b) batches
  count-select p q [] = refl
  count-select p q (b ∷ batches) = ground (arith, count-select p q batches)

  -- A listing has the rows of the table that are the operator's and have not expired, each as often as
  -- the table has it, and no other row, and none is older than one behind it.
  pub list_batches-own :
      (op now : ℕ) (s : State Image) (p : UploadBatch → Bool)
      → (count p (list_batches Image op now s)
          ≡ count (λ b. ((b.operator_id == op) && ltb now b.expires_at) && p b) s.batches)
        × IsNewestFirst (list_batches Image op now s)
  unfolding list_batches
  list_batches-own op now s p = (
    count-newest_first p (select (is_own Image op now) s.batches)
        ∙ count-select p (is_own Image op now) s.batches,
    newest_first-IsNewestFirst (select (is_own Image op now) s.batches),
  )
