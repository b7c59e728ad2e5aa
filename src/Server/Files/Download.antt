-- ===== src/Server/Files/Download.antt =====
-- apps/server/src/api/files.rs: metadata, chunk downloads and the file list.
pub mod EndToEnd
pub mod Order
pub mod Pages
pub mod Ties
use free_box.Prelude.{
  ℕ, zero, suc, ◌+◌, ◌<◌, Bool, true, false, ◌&&◌, Option, none, some, List, [], ◌∷◌, length, take,
  drop, map, ltb, leb, ◌==◌, if◌then◌else◌,
}
use free_box.Prelude.Int.{ℤ, pos, negsuc}
use free_box.Outcome.{Result, ok, err, reject_if}
use free_box.Server.Error.{AppError, internal, not_found, bad_request}
use free_box.Server.Handler.{Handler, pure, fail, lift, gets, require, await, ◌>>=◌, ◌>>◌}
use free_box.Server.Files.Keys.{Text, UuidText, chunk_storage_key}
use free_box.Server.Files.State.{Body, Store, FileRow, active_of, find_file, is_active}

pub record FileMetaResponse : Type 0 where
  pub file_id : ℕ
  pub encrypted_name : Text
  pub size_bytes : ℕ
  pub total_chunks : ℕ
  pub encrypted_key_envelope : Text
  pub content_hash : Text
  pub created_at : ℕ

abbrev pub meta_of : FileRow → FileMetaResponse
meta_of f = record {
  file_id = f.id;
  encrypted_name = f.encrypted_name;
  size_bytes = f.size_bytes;
  total_chunks = f.total_chunks;
  encrypted_key_envelope = f.encrypted_key_envelope;
  content_hash = f.content_hash;
  created_at = f.created_at;
}

unfoldable pub get_file_meta : (ℕ → Bool) → ℕ → ℕ → Handler Store FileMetaResponse
get_file_meta io user file_id = do
  await (io 0)
  found ← gets (λ s. find_file (active_of file_id user) s.files)
  row ← require found not_found
  pure (meta_of row)

-- `StorageProvider::get`: a missing object is `Error::NotFound`, which becomes a 404.
unfoldable pub download_chunk : UuidText → (ℕ → Bool) → ℕ → ℕ → ℕ → Handler Store Body
download_chunk uuid io user file_id chunk_index = do
  await (io 0)
  found ← gets (λ s. find_file (active_of file_id user) s.files)
  row ← require found not_found
  lift (reject_if (leb row.total_chunks chunk_index) bad_request)
  await (io 1)
  object ← gets (λ s. s.objects (chunk_storage_key uuid file_id chunk_index))
  require object not_found

-- `params.limit.unwrap_or(50).clamp(1, 200)`
unfoldable pub page_limit : Option ℤ → ℕ
page_limit none = 50
page_limit (some (pos n)) = if ltb n 1 then 1 else if ltb 200 n then 200 else n
page_limit (some (negsuc n)) = 1

-- `params.offset.unwrap_or(0).max(0)`
unfoldable pub page_offset : Option ℤ → ℕ
page_offset none = 0
page_offset (some (pos n)) = n
page_offset (some (negsuc n)) = 0

pub record FileListResponse : Type 0 where
  pub files : List FileMetaResponse
  pub total : ℕ
  pub limit : ℕ
  pub offset : ℕ

abbrev pub select : (FileRow → Bool) → List FileRow → List FileRow
select p [] = []
select p (f ∷ fs) = if p f then f ∷ select p fs else select p fs

-- `WHERE user_id = $1 AND deleted_at IS NULL`
abbrev pub active_for : ℕ → FileRow → Bool
active_for user f = f.user_id == user && is_active f.deleted_at

-- `ORDER BY … DESC` on a column: an insertion that puts a row before the rows that are not newer. Rows of
-- one time keep their order, which the database does not promise.
unfoldable pub insert_desc : (FileRow → ℕ) → FileRow → List FileRow → List FileRow
insert_desc column f [] = f ∷ []
insert_desc column f (g ∷ gs) =
    if leb (column g) (column f) then f ∷ g ∷ gs else g ∷ insert_desc column f gs

unfoldable pub order_desc : (FileRow → ℕ) → List FileRow → List FileRow
unfolding insert_desc
order_desc column [] = []
order_desc column (f ∷ fs) = insert_desc column f (order_desc column fs)

-- `rows.first()` carries `COUNT(*) OVER()`; without a row the total is 0.
abbrev pub total_of : List FileRow → ℕ → ℕ
total_of [] count = 0
total_of (f ∷ fs) count = count

abbrev pub page : ℕ → ℕ → List FileRow → List FileRow
page limit offset rows = take limit (drop offset rows)

unfoldable pub list_files : (ℕ → Bool) → ℕ → Option ℤ → Option ℤ → Handler Store FileListResponse
unfolding page_limit page_offset order_desc
list_files io user limit offset = do
  await (io 0)
  rows ← gets (λ s. order_desc (λ f. f.created_at) (select (active_for user) s.files))
  let shown = page (page_limit limit) (page_offset offset) rows
  pure (record {
    files = map meta_of shown;
    total = total_of shown (length rows);
    limit = page_limit limit;
    offset = page_offset offset;
  })
