-- ===== src/Server/Files/Tests.antt =====
-- The handlers of apps/server/src/api/files.rs at concrete inputs. An id is written as its number and 35
-- zeros.
use free_box.Prelude.{
  inl, ◌≤◌, ◌-◌, ltb, length, ◌≡◌, refl, ℕ, true, false, Option, none, some, [], ◌∷◌, replicate,
  map, arith, ◌==◌, Bool, if◌then◌else◌,
}
use free_box.Prelude.Digits.{digits_be}
use free_box.Outcome.{ok, err}
use free_box.Server.Error.{AppError, not_found}
use free_box.Server.Files.Keys.{Text, UuidText, chunk_storage_key}
use free_box.Server.Files.Keys.Parse.{parse_chunk_index-decimal, ascii_digits}
use free_box.Server.Files.State.{Body, Store, FileRow, empty, set_upload}
use free_box.Server.Files.Upload.{
  UploadInitRequest, upload_init, upload_chunk, upload_complete, commit_chunk,
}
use free_box.Server.Files.Upload.Counting.{stored_chunks}
use free_box.Server.Files.Upload.Init.{staged, IsFresh, upload_init-IsCounted}
use free_box.Server.Files.Upload.Chunk.{IsCounted, upload_chunk-IsCounted}
use free_box.Server.Files.Upload.Complete.{upload_complete-IsCounted}
use free_box.Server.Files.Upload.Faults.{
  sends, serve_all, lost_update-never_completes, racing_sends_overcount,
}
use Prim.Native.Nat.{min}
use free_box.Prelude.Int.{pos}
use free_box.Server.Files.Download.{
  FileListResponse, list_files, order_desc, download_chunk, get_file_meta, meta_of,
}
use free_box.Server.Files.Download.EndToEnd.{calm, send_upto}
use free_box.Server.Files.Download.Order.{order_desc-Perm, order_desc-IsDescending}
use free_box.Server.Files.Download.Pages.{active_count, list_files_lem, walk, walk_collects}
use free_box.Server.Files.Trash.{delete_file, restore_file, rename_file}
use free_box.Server.Files.Trash.Restore.{restore_file-delete_file}
use free_box.Server.Files.Trash.Owner.{stranger_finds_nothing}

head_same : (a b : ℕ) (xs ys : Text) → a ∷ xs ≡ b ∷ ys → a ≡ b
head_same a b xs ys h = cc

abbrev uuid : UuidText
uuid = record {
  text = λ id. id ∷ replicate 35 0;
  length-text = λ id. refl;
  text_injective = λ a b. head_same a b (replicate 35 0) (replicate 35 0);
}

abbrev request : UploadInitRequest
request = record {
  total_chunks = 2;
  size_bytes = 9;
  encrypted_key_envelope = 1 ∷ [];
  content_hash = 2 ∷ [];
  encrypted_name = 3 ∷ [];
}

fresh : IsFresh uuid 7 empty
fresh = record { unused = refl; unstored = λ i. refl }

IsCounted-empty : IsCounted uuid empty
IsCounted-empty = record { counted = λ id u h. cc h; small = λ id u h. cc h; stored = tt }

abbrev begun : Store
begun = set_upload 7 (some (staged 5 request)) empty

IsCounted-begun : IsCounted uuid begun
unfolding upload_init
IsCounted-begun = upload_init-IsCounted uuid calm 5 7 request empty fresh IsCounted-empty

abbrev header : ℕ → Option Text
header k = some (ascii_digits (digits_be 10 10 k))

abbrev body : ℕ → Body
body k = 9 ∷ k ∷ []

-- Every call works.
works : true ≡ false → true ≡ false
works h = h

upload_chunk-IsCounted_example :
    IsCounted uuid (upload_chunk uuid calm 5 7 (header 1) (body 1) begun).1
upload_chunk-IsCounted_example =
    upload_chunk-IsCounted uuid calm 5 7 (header 1) (body 1) begun works refl IsCounted-begun

abbrev sent : Store
sent = send_upto uuid 5 7 header body 2 begun

IsCounted-sent : IsCounted uuid sent
unfolding send_upto
IsCounted-sent =
    upload_chunk-IsCounted uuid calm 5 7 (header 1) (body 1) _ works refl
      (upload_chunk-IsCounted uuid calm 5 7 (header 0) (body 0) begun works refl IsCounted-begun)

upload_complete-IsCounted_example : IsCounted uuid (upload_complete calm 99 5 7 sent).1
upload_complete-IsCounted_example = upload_complete-IsCounted uuid calm 99 5 7 sent IsCounted-sent

abbrev count_fails : ℕ → Bool
count_fails k = if k == 3 then false else true

lost_update-never_completes_example :
    (e : AppError) × ((upload_complete calm 99 5 7 (
        serve_all uuid
          (sends calm 5 7 (header 0) (body 0) ∷ [])
          (upload_chunk uuid count_fails 5 7 (header 0) (body 0) begun).1)).0
      ≡ err e)
lost_update-never_completes_example =
    lost_update-never_completes uuid count_fails 5 7 0 (header 0) (body 0) begun (staged 5 request)
      IsCounted-begun (parse_chunk_index-decimal 9 0 (omega arith) (omega arith)) refl (omega arith)
      refl (omega arith) refl (refl, refl, inl (refl, refl))
      (sends calm 5 7 (header 0) (body 0) ∷ []) calm 99 5

racing_sends_overcount_example :
    let after =
      (commit_chunk uuid calm 7
        (body 1)
        (chunk_storage_key uuid 7 0, false)
        (commit_chunk uuid calm 7 (body 0) (chunk_storage_key uuid 7 0, false) begun).1).1 in
    (after.uploads 7 ≡ some (record (staged 5 request) { chunks_received = 2 }))
    × (stored_chunks uuid after 7 2 ≡ 1)
    × ((upload_complete calm 99 5 7 after).0 ≡ ok 7)
racing_sends_overcount_example =
    racing_sends_overcount uuid 7 5 0 99 (body 0) (body 1) begun (staged 5 request) IsCounted-begun
      refl (omega arith) (omega arith) refl refl

abbrev photo : ℕ → ℕ → FileRow
photo id time = record {
  id = id;
  user_id = 5;
  total_chunks = 1;
  size_bytes = 2;
  encrypted_key_envelope = 1 ∷ [];
  content_hash = 2 ∷ [];
  encrypted_name = 3 ∷ [];
  created_at = time;
  deleted_at = none;
}

abbrev shelf : Store
shelf = record empty { files = photo 1 10 ∷ photo 2 30 ∷ photo 3 20 ∷ [] }

restore_file-delete_file_example :
    let after = (delete_file calm 100 5 2 shelf).1 in
    (delete_file calm 100 5 2 shelf ≡ (ok tt, after))
    × (get_file_meta calm 5 2 after ≡ (err not_found, after))
    × (download_chunk uuid calm 5 2 0 after ≡ (err not_found, after))
    × (delete_file calm 100 5 2 after ≡ (err not_found, after))
    × (restore_file calm 200 5 2 after ≡ (ok tt, shelf))
    × (restore_file calm 9000000 5 2 after ≡ (err not_found, after))
restore_file-delete_file_example =
    restore_file-delete_file uuid 100 200 9000000 5 2 0 shelf refl refl (omega arith) (omega arith)

stranger_finds_nothing_example :
    (upload_chunk uuid calm 6 2 (header 0) (body 0) shelf ≡ (err not_found, shelf))
    × (upload_complete calm 100 6 2 shelf ≡ (err not_found, shelf))
    × (get_file_meta calm 6 2 shelf ≡ (err not_found, shelf))
    × (download_chunk uuid calm 6 2 0 shelf ≡ (err not_found, shelf))
    × (delete_file calm 100 6 2 shelf ≡ (err not_found, shelf))
    × (restore_file calm 100 6 2 shelf ≡ (err not_found, shelf))
    × (rename_file calm 6 2 (65 ∷ []) shelf ≡ (err not_found, shelf))
stranger_finds_nothing_example =
    stranger_finds_nothing uuid 6 2 100 0 (header 0) (body 0) (65 ∷ []) shelf refl refl
      (parse_chunk_index-decimal 9 0 (omega arith) (omega arith)) refl

list_files_lem_example :
    (r : FileListResponse) × (list_files calm 5 (some (pos 2)) (some (pos 1)) shelf ≡ (ok r, shelf))
    × (1 ≤ r.limit)
    × (r.limit ≤ 200)
    × (length r.files ≡ min r.limit (active_count 5 shelf - r.offset))
    × (r.total ≡ (if ltb r.offset (active_count 5 shelf) then active_count 5 shelf else 0))
list_files_lem_example = list_files_lem 5 (some (pos 2)) (some (pos 1)) shelf

walk_collects_example : walk 5 2 2 0 shelf ≡ map meta_of (photo 2 30 ∷ photo 3 20 ∷ photo 1 10 ∷ [])
unfolding order_desc
walk_collects_example =
    walk_collects 5 2 shelf 2 (photo 2 30 ∷ photo 3 20 ∷ photo 1 10 ∷ []) (omega arith)
      (omega arith) (omega arith)
      (((λ e. omega arith), ((λ e. omega arith), tt)), (((λ e. omega arith), tt), (tt, tt)))
      (order_desc-Perm (λ f. f.created_at) shelf.files)
      (order_desc-IsDescending (λ f. f.created_at) shelf.files)
