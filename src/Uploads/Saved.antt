-- ===== src/Uploads/Saved.antt =====
-- What an upload and a listing of uploads do (app/services/upload_service.py).
use nbdpsy_mcp.Prelude.{
  ℕ, suc, ◌+◌, ◌*◌, ◌≤◌, Bool, true, false, not, ◌||◌, List, [], ◌∷◌, ◌++◌, Option, none, some,
  String, str_eq, if◌then◌else◌, ltb, leb, select, length, map, ◌≡◌, refl, sym, ap, ◌∙◌, arith,
  Bool-cases, inl, inr, append-nil, eq_iff,
}
use nbdpsy_mcp.Result.{Result, ok, err, value_error, guard, ◌>>◌, >>=-eq-ok, guard-eq-ok, ok_inj}
use nbdpsy_mcp.Table.Upsert.{select-append}
use nbdpsy_mcp.Uploads.{
  UploadBatch, Ext, FileName, Settings, is_expired, Files, State, set_dir, remove_dirs,
  sweep_expired, resolve, resolve_ext, numbered, is_page_in, new_batch, commit_batch, store,
  save_images,
}

-- Does one of the rows have the directory?
abbrev names : String → List UploadBatch → Bool
names k [] = false
names k (b ∷ batches) = str_eq k b.batch_id || names k batches

-- The pages from i on, as many as there are images.
abbrev pages {ℓ} : {A : Type ℓ} → ℕ → List A → List ℕ
pages i [] = []
pages i (image ∷ files) = i ∷ pages (suc i) files

pages-map : {A B : Type 0} (f : A → B) (i : ℕ) (xs : List A) → pages i (map f xs) ≡ pages i xs
pages-map f i [] = refl
pages-map f i (x ∷ xs) = ap (λ l. i ∷ l) (pages-map f (suc i) xs)

length-map : {A B : Type 0} (f : A → B) (xs : List A) → length (map f xs) ≡ length xs
length-map f [] = refl
length-map f (x ∷ xs) = ap suc (length-map f xs)

names-select :
    (id : String) (p : UploadBatch → Bool) (batches : List UploadBatch)
    → names id batches ≡ false
    → names id (select p batches) ≡ false
names-select id p [] h = refl
names-select id p (b ∷ batches) h = ground (arith, names-select id p batches)

module _ (Image : Type 0) where
  dirs-remove_dirs :
      (k : String) (batches : List UploadBatch) (s : State Image)
      → (remove_dirs Image batches s).dirs k ≡ (if names k batches then none else s.dirs k)
  unfolding remove_dirs
  dirs-remove_dirs k [] s = refl
  dirs-remove_dirs k (b ∷ batches) s =
      dirs-remove_dirs k batches (set_dir Image b.batch_id none s)
      ∙ both (str_eq k b.batch_id) (names k batches)
    where
      both :
          (e m : Bool)
          → (if m then none else if e then none else s.dirs k) ≡ (if e || m then none else s.dirs k)
      both true true = refl
      both true false = refl
      both false m = refl

  module _ (size : Image → ℕ) (verify : Image → Option (Option String)) where
    map-numbered :
        (i : ℕ) (resolved : List (Image × Ext))
        → (map (λ f. f.1) (numbered Image size verify i resolved) ≡ map (λ f. f.0) resolved)
          × (map (λ f. f.0.0) (numbered Image size verify i resolved) ≡ pages i resolved)
    unfolding numbered
    map-numbered i [] = (refl, refl)
    map-numbered i ((image, ext) ∷ resolved) =
        let (a, b) = map-numbered (suc i) resolved in (ap (λ l. image ∷ l) a, ap (λ l. i ∷ l) b)

    map-resolve :
        (settings : Settings) (files : List Image) (resolved : List (Image × Ext))
        → resolve Image size verify settings files ≡ ok resolved
        → map (λ f. f.0) resolved ≡ files
    unfolding resolve
    map-resolve settings [] resolved h = rw (← ok_inj h) refl
    map-resolve settings (image ∷ files) resolved h =
        let (fits, h1) =
          guard-eq-ok (leb (size image) (settings.upload_max_mb * 1048576)) value_error _ h in
        let (ext, he, h2) = >>=-eq-ok (resolve_ext Image size verify (verify image)) _ h1 in
        let (rest, hr, h3) = >>=-eq-ok (resolve Image size verify settings files) _ h2 in
        rw (← ok_inj h3) (ap (λ l. image ∷ l) (map-resolve settings files rest hr))

    -- What an upload leaves, for the directory k.
    pub Fate :
        Settings
        → ℕ
        → List Image
        → ℕ
        → String
        → State Image
        → String
        → State Image
        → Result (String × List FileName × ℕ)
        → Type 0
    Fate settings op files now id s k s' (err raised) =
        (s'.batches ≡ s.batches) × (s'.dirs k ≡ s.dirs k)
    Fate settings op files now id s k s' (ok (id', urls, expires)) =
        (id' ≡ id)
        × (expires ≡ now + settings.upload_ttl_days * 86400000000)
        × ((1 ≤ length files) × (length files ≤ 18))
        × (s'.batches
            ≡ select (λ b. not (ltb b.expires_at now)) s.batches
              ++ record {
                batch_id = id;
                operator_id = op;
                file_count = length files;
                created_at = now;
                expires_at = expires;
              }
                ∷ [])
        × ((kept : Files Image) × (s'.dirs k ≡ (
              if str_eq k id
              then some kept
              else if names k (select (λ b. ltb b.expires_at now) s.batches)
              then none
              else s.dirs k))
            × (urls ≡ map (λ f. f.0) kept)
            × (map (λ f. f.0.0) kept ≡ pages 1 files)
            × (map (λ f. f.1) kept ≡ files))

    commit_batch-rows :
        (now : ℕ) (b : UploadBatch) (s : State Image)
        → is_expired now b ≡ false
        → (commit_batch Image size verify now b s).batches
          ≡ select (λ c. not (is_expired now c)) s.batches ++ b ∷ []
    unfolding commit_batch sweep_expired
    commit_batch-rows now b s h =
        select-append (λ c. not (is_expired now c)) s.batches (b ∷ []) ∙ rw h refl

    dirs-commit_batch :
        (now : ℕ) (b : UploadBatch) (s : State Image) (k : String)
        → is_expired now b ≡ false
        → (commit_batch Image size verify now b s).dirs k
          ≡ (if names k (select (is_expired now) s.batches) then none else s.dirs k)
    unfolding commit_batch sweep_expired
    dirs-commit_batch now b s k h =
        dirs-remove_dirs k (select (is_expired now) (s.batches ++ b ∷ []))
          (record s { batches = s.batches ++ b ∷ [] })
        ∙ rw
            (
              select-append (is_expired now) s.batches (b ∷ []),
              h,
              append-nil (select (is_expired now) s.batches),
            )
            refl

    not_yet : (now ttl : ℕ) → ltb (now + ttl) now ≡ false
    not_yet now ttl = ground arith

    module _ (settings : Settings) (op : ℕ) (files : List Image) (now : ℕ) (id : String)
        (fails : Bool) (s : State Image) (k : String) (fresh : s.dirs id ≡ none)
        (own : names id s.batches ≡ false) where
      removed : (if str_eq k id then none else s.dirs k) ≡ s.dirs k
      removed = elim (Bool-cases (str_eq k id)) [
        | inl e ↦ rw (e, (eq_iff k id).0 e) (sym fresh)
        | inr e ↦ rw e refl
      ]

      -- The new directory is none that the sweep removes.
      swapped :
          (kept : Files Image)
          → (if names k (select (is_expired now) s.batches)
              then none
              else if str_eq k id
              then some kept
              else s.dirs k)
            ≡ (if str_eq k id
                then some kept
                else if names k (select (is_expired now) s.batches)
                then none
                else s.dirs k)
      swapped kept = elim (Bool-cases (str_eq k id)) [
        | inl e ↦ rw (e, (eq_iff k id).0 e, names-select id (is_expired now) s.batches own) refl
        | inr e ↦ rw e refl
      ]

      in_bounds : (n : ℕ) → is_page_in Image size verify n ≡ true → (1 ≤ n) × (n ≤ 18)
      in_bounds n h = (ground arith, ground arith)

      stored-Fate :
          (resolved : List (Image × Ext))
          → (guard (is_page_in Image size verify (length files)) value_error
              >> resolve Image size verify settings files)
            ≡ ok resolved
          → let (s', r) = store Image size verify settings op false id now s (ok resolved) in
            Fate settings op files now id s k s' r
      unfolding Fate
      stored-Fate resolved h =
          let (paged, hr) =
            guard-eq-ok (is_page_in Image size verify (length files)) value_error _ h in
          let same = map-resolve settings files resolved hr in
          let (images, numbers) = map-numbered 1 resolved in
          let kept = numbered Image size verify 1 resolved in
          let b = new_batch Image size verify settings op id (length resolved) now in
          let late = not_yet now (settings.upload_ttl_days * 86400000000) in
          let count : length files ≡ length resolved =
            sym (ap length same) ∙ length-map (λ f. f.0) resolved in
          (
            refl,
            refl,
            in_bounds (length files) paged,
            rw count (commit_batch-rows now b (set_dir Image id (some kept) s) late),
            (
              kept,
              dirs-commit_batch now b (set_dir Image id (some kept) s) k late ∙ swapped kept,
              refl,
              numbers ∙ sym (pages-map (λ f. f.0) 1 resolved) ∙ ap (λ l. pages 1 l) same,
              images ∙ same,
            ),
          )

      store-Fate :
          (r : Result (List (Image × Ext)))
          → (guard (is_page_in Image size verify (length files)) value_error
              >> resolve Image size verify settings files)
            ≡ r
          → let (s', r') = store Image size verify settings op fails id now s r in
            Fate settings op files now id s k s' r'
      unfolding Fate
      store-Fate (err raised) h = (refl, refl)
      store-Fate (ok resolved) h = elim (Bool-cases fails) [
        | inl e ↦ rw e (refl, removed)
        | inr e ↦ rw e (stored-Fate resolved h)
      ]

    -- An upload that fails, in its checks or in the writing of a file, leaves the table and every
    -- directory as they were. One that succeeds has between 1 and 18 images, and leaves one row more,
    -- for its operator, with as many files as it has images and the expiry that the settings give it; its
    -- directory has the images in their order, with the pages from 1 on, and the names that it returns
    -- are those of the files; the rows that had expired are gone, and their directories, and no other. The
    -- id of the new batch is no other batch's.
    pub save_images-Fate :
        (settings : Settings) (op : ℕ) (files : List Image) (now : ℕ) (id : String) (fails : Bool)
        (s : State Image) (k : String)
        → s.dirs id ≡ none
        → names id s.batches ≡ false
        → let (s', r) = save_images Image size verify settings op files now id fails s in
          Fate settings op files now id s k s' r
    unfolding save_images Fate
    save_images-Fate settings op files now id fails s k fresh own =
        store-Fate settings op files now id fails s k fresh own
          (guard (is_page_in Image size verify (length files)) value_error
            >> resolve Image size verify settings files)
          refl
