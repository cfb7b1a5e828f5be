-- ===== src/Uploads.antt =====
-- app/services/upload_service.py and app/models/upload_batch.py: batches of images that operators upload.
-- A moment is a number of microseconds. The bytes of an image, its length and what Pillow makes of it are
-- parameters, and so are the random id of a batch and which writes of files fail; the two digits of a
-- page in the name of a file are the page. The id of a new batch is no other's.
mod Saved
mod Listed
mod Examples
use nbdpsy_mcp.Prelude.{
  ℕ, suc, ◌+◌, ◌*◌, Bool, true, false, not, ◌&&◌, ◌||◌, List, [], ◌∷◌, ◌++◌, Option, none, some,
  String, str_eq, ◌==◌, if◌then◌else◌, ltb, leb, select, length, map,
}
use nbdpsy_mcp.Result.{Result, Error, ok, err, value_error, os_error, guard, ◌>>◌, ◌>>=◌}
use nbdpsy_mcp.Table.{delete_where}

pub record UploadBatch : Type 0 where
  pub batch_id : String
  pub operator_id : ℕ
  pub file_count : ℕ
  pub created_at : ℕ
  pub expires_at : ℕ

pub data Ext : Type 0 where
  png jpg webp : Ext

-- A page, from 1 on, and an extension.
abbrev pub FileName : Type 0
FileName = ℕ × Ext

pub record Settings : Type 0 where
  pub upload_max_mb : ℕ
  pub upload_ttl_days : ℕ

abbrev pub max_files : ℕ
max_files = 18

-- `_FORMAT_EXT.get(img.format or "")`
unfoldable pub format_ext : Option String → Result Ext
format_ext none = err value_error
format_ext (some f) =
    if str_eq f "PNG"
    then ok png
    else if str_eq f "JPEG"
    then ok jpg
    else if str_eq f "WEBP"
    then ok webp
    else err value_error

abbrev pub is_expired : ℕ → UploadBatch → Bool
is_expired now b = ltb b.expires_at now

module _ (Image : Type 0) where
  -- The files of a batch, in its directory.
  abbrev pub Files : Type 0
  Files = List (FileName × Image)

  -- The table, and the directories below DATA_DIR/uploads.
  pub record State : Type 0 where
    pub batches : List UploadBatch
    pub dirs : String → Option Files

  abbrev pub set_dir : String → Option Files → State → State
  set_dir id files s = record s { dirs = λ k. if str_eq k id then files else s.dirs k }

  -- `shutil.rmtree` of each directory, then the rows.
  unfoldable pub remove_dirs : List UploadBatch → State → State
  remove_dirs [] s = s
  remove_dirs (b ∷ batches) s = remove_dirs batches (set_dir b.batch_id none s)

  unfoldable pub sweep_expired : ℕ → State → State × ℕ
  sweep_expired now s =
      let expired = select (is_expired now) s.batches in
      (
        record (remove_dirs expired s) { batches = delete_where (is_expired now) s.batches },
        length expired,
      )

  module _ (size : Image → ℕ) (verify : Image → Option (Option String)) where
    -- Pillow raises, or tells the format.
    abbrev pub resolve_ext : Option (Option String) → Result Ext
    resolve_ext none = err value_error
    resolve_ext (some format) = format_ext format

    unfoldable pub resolve : Settings → List Image → Result (List (Image × Ext))
    resolve settings [] = ok []
    resolve settings (image ∷ files) =
        guard (leb (size image) (settings.upload_max_mb * 1048576)) value_error
        >> (resolve_ext (verify image) >>= λ ext.
            resolve settings files >>= λ rest. ok ((image, ext) ∷ rest))

    -- The files with their pages, from page i on.
    unfoldable pub numbered : ℕ → List (Image × Ext) → Files
    numbered i [] = []
    numbered i ((image, ext) ∷ files) = ((i, ext), image) ∷ numbered (suc i) files

    abbrev pub is_page_in : ℕ → Bool
    is_page_in i = leb 1 i && leb i max_files

    abbrev pub new_batch : Settings → ℕ → String → ℕ → ℕ → UploadBatch
    new_batch settings operator_id id count now = record {
      batch_id = id;
      operator_id = operator_id;
      file_count = count;
      created_at = now;
      expires_at = now + settings.upload_ttl_days * 86400000000;
    }

    -- The row and the sweep, behind files that are written.
    unfoldable pub commit_batch : ℕ → UploadBatch → State → State
    commit_batch now b s = (sweep_expired now (record s { batches = s.batches ++ b ∷ [] })).0

    -- Whether a write fails: the directory is removed, and the exception passed on.
    abbrev pub write_files : Bool → String → Files → State → State × Result (List FileName)
    write_files fails id files s =
        if fails
        then (set_dir id none s, err os_error)
        else (set_dir id (some files) s, ok (map (λ f. f.0) files))

    abbrev pub stored :
        Settings
        → ℕ
        → String
        → ℕ
        → ℕ
        → State × Result (List FileName)
        → State × Result (String × List FileName × ℕ)
    stored settings operator_id id count now (s, err raised) = (s, err raised)
    stored settings operator_id id count now (s, ok urls) =
        let b = new_batch settings operator_id id count now in
        (commit_batch now b s, ok (id, urls, b.expires_at))

    abbrev pub store :
        Settings
        → ℕ
        → Bool
        → String
        → ℕ
        → State
        → Result (List (Image × Ext))
        → State × Result (String × List FileName × ℕ)
    store settings operator_id fails id now s (err raised) = (s, err raised)
    store settings operator_id fails id now s (ok resolved) =
        stored settings operator_id id (length resolved) now
          (write_files fails id (numbered 1 resolved) s)

    -- What it returns: the id, the names of the files in their URLs, and when the batch expires. That the
    -- database takes the row and the sweep is assumed: a commit that fails, which leaves the directory
    -- without a row, is left out.
    unfoldable pub save_images :
        Settings
        → ℕ
        → List Image
        → ℕ
        → String
        → Bool
        → State
        → State × Result (String × List FileName × ℕ)
    save_images settings operator_id files now id fails s =
        store settings operator_id fails id now s
          (guard (is_page_in (length files)) value_error >> resolve settings files)

  abbrev pub is_own : ℕ → ℕ → UploadBatch → Bool
  is_own operator_id now b = (b.operator_id == operator_id) && ltb now b.expires_at

  -- Newest first; of two with one moment, which the query leaves open, the earlier row first.
  unfoldable pub insert_batch : UploadBatch → List UploadBatch → List UploadBatch
  insert_batch b [] = b ∷ []
  insert_batch b (c ∷ batches) =
      let rest = insert_batch b batches in
      if ltb b.created_at c.created_at then c ∷ rest else b ∷ c ∷ batches

  unfoldable pub newest_first : List UploadBatch → List UploadBatch
  newest_first [] = []
  newest_first (b ∷ batches) = insert_batch b (newest_first batches)

  unfoldable pub list_batches : ℕ → ℕ → State → List UploadBatch
  list_batches operator_id now s = newest_first (select (is_own operator_id now) s.batches)
