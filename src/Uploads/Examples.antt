-- ===== src/Uploads/Examples.antt =====
-- An operator uploads two images while an older batch has expired. An image is its length.
use nbdpsy_mcp.Prelude.{
  ℕ, ◌*◌, false, [], ◌∷◌, Option, none, some, String, str_eq, if◌then◌else◌, ◌==◌, ◌&&◌, ltb, ◌≡◌,
  refl,
}
use nbdpsy_mcp.Result.{err, value_error}
use nbdpsy_mcp.Uploads.{
  UploadBatch, png, Settings, State, format_ext, remove_dirs, sweep_expired, resolve, numbered,
  commit_batch, save_images, insert_batch, newest_first, list_batches,
}
use nbdpsy_mcp.Uploads.Saved.{Fate, save_images-Fate}
use nbdpsy_mcp.Uploads.Listed.{count, IsNewestFirst, list_batches-own}

abbrev settings : Settings
settings = record { upload_max_mb = 1; upload_ttl_days = 7 }

abbrev size : ℕ → ℕ
size image = image

-- An empty file is no image.
abbrev verify : ℕ → Option (Option String)
verify image = if image == 0 then none else some (some "PNG")

abbrev day : ℕ
day = 86400000000

abbrev old : UploadBatch
old = record {
  batch_id = "old";
  operator_id = 3;
  file_count = 1;
  created_at = day;
  expires_at = 8 * day;
}

abbrev recent : UploadBatch
recent = record {
  batch_id = "recent";
  operator_id = 4;
  file_count = 1;
  created_at = 5 * day;
  expires_at = 12 * day;
}

abbrev new : UploadBatch
new = record {
  batch_id = "new";
  operator_id = 4;
  file_count = 2;
  created_at = 9 * day;
  expires_at = 16 * day;
}

abbrev before : State ℕ
before = record {
  batches = old ∷ recent ∷ [];
  dirs = λ k. if str_eq k "old" then some (((1, png), 10) ∷ []) else none;
}

abbrev after : State ℕ
after = (save_images ℕ size verify settings 4 (20 ∷ 30 ∷ []) (9 * day) "new" false before).0

kept : after.batches ≡ recent ∷ new ∷ []
unfolding save_images resolve format_ext commit_batch sweep_expired
kept = refl

files : after.dirs "new" ≡ some (((1, png), 20) ∷ ((2, png), 30) ∷ [])
unfolding save_images resolve format_ext commit_batch sweep_expired remove_dirs numbered
files = refl

swept : after.dirs "old" ≡ none
unfolding save_images resolve format_ext commit_batch sweep_expired remove_dirs numbered
swept = refl

not_an_image :
    (save_images ℕ size verify settings 4 (20 ∷ 0 ∷ []) (9 * day) "new" false before).1
    ≡ err value_error
unfolding save_images resolve format_ext
not_an_image = refl

listed : list_batches ℕ 4 (10 * day) after ≡ new ∷ recent ∷ []
unfolding save_images resolve format_ext commit_batch sweep_expired list_batches newest_first
    insert_batch
listed = refl

save_images-Fate_example :
    let (s', r) =
      save_images ℕ size verify settings 4 (20 ∷ 30 ∷ []) (9 * day) "new" false before in
    Fate ℕ size verify settings 4 (20 ∷ 30 ∷ []) (9 * day) "new" before "old" s' r
save_images-Fate_example =
    save_images-Fate ℕ size verify settings 4 (20 ∷ 30 ∷ []) (9 * day) "new" false before "old" refl
      refl

list_batches-own_example :
    (count (λ b. b.file_count == 2) (list_batches ℕ 4 (10 * day) before)
      ≡ count
          (λ b. ((b.operator_id == 4) && ltb (10 * day) b.expires_at) && (b.file_count == 2))
          before.batches)
    × IsNewestFirst (list_batches ℕ 4 (10 * day) before)
list_batches-own_example = list_batches-own ℕ 4 (10 * day) before (λ b. b.file_count == 2)
