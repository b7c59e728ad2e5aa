-- ===== src/Server/Files/Upload.antt =====
-- apps/server/src/api/files.rs: the three phases of an upload. `upload_chunk` is two parts, since the
-- server may run another handler between them: the checks up to the `exists` call, and the writes.
pub mod Init
pub mod Counting
pub mod Chunk
pub mod Complete
pub mod Behind
pub mod Faults
use free_box.Prelude.{
  ℕ, ◌+◌, ◌*◌, Bool, true, false, ◌&&◌, Option, none, some, List, [], ◌∷◌, ◌++◌, length, ltb, leb,
  if◌then◌else◌,
}
use free_box.Prelude.Int.{ℤ, pos, negsuc, as_i32}
use free_box.Outcome.{Result, ok, err, reject_if}
use free_box.Server.Error.{AppError, internal, not_found, bad_request}
use free_box.Server.Handler.{Handler, pure, fail, lift, gets, require, modify, await, ◌>>=◌, ◌>>◌}
use free_box.Server.Files.Keys.{
  Text, UuidText, parse_chunk_index, chunk_storage_key, validate_chunk_body_size,
}
use free_box.Server.Files.State.{
  Body, Store, Upload, FileRow, set_upload, put_object, object_exists, find_upload, has_file,
  is_some,
}

pub record UploadInitRequest : Type 0 where
  pub total_chunks : ℕ
  pub size_bytes : ℕ
  pub encrypted_key_envelope : Text
  pub content_hash : Text
  pub encrypted_name : Text

-- `CHECK (total_chunks > 0)` on the bound `i32`, and the value stored
abbrev pub check_total : ℤ → Result AppError ℕ
check_total (pos n) = if ltb 0 n then ok n else err internal
check_total (negsuc n) = err internal

-- `CHECK (size_bytes >= 0)` on `size as i64`
abbrev pub check_size : ℕ → Result AppError ℕ
check_size n = if ltb n 9223372036854775808 then ok n else err internal

-- The INSERT of phase 1: the CHECKs, and the primary key.
abbrev pub insert_upload : ℕ → Upload → Handler Store (Unit {0})
insert_upload id row = do
  taken ← gets (λ s. is_some (s.uploads id))
  lift (reject_if taken internal)
  modify (set_upload id (some row))

-- The confirmed chunk size: 4 MiB.
abbrev pub upload_chunk_size : ℕ
upload_chunk_size = 4 * 1024 * 1024

-- `upload_id` is what `Uuid::new_v4` returns. The result is the id and the chunk size.
unfoldable pub upload_init : (ℕ → Bool) → ℕ → ℕ → UploadInitRequest → Handler Store (ℕ × ℕ)
unfolding as_i32
upload_init io user upload_id req = do
  await (io 0)
  total ← lift (check_total (as_i32 req.total_chunks))
  size ← lift (check_size req.size_bytes)
  insert_upload upload_id (record {
    user_id = user;
    total_chunks = total;
    chunks_received = 0;
    size_bytes = size;
    encrypted_key_envelope = req.encrypted_key_envelope;
    content_hash = req.content_hash;
    encrypted_name = req.encrypted_name;
  })
  pure (upload_id, upload_chunk_size)

abbrev pub is_empty : Body → Bool
is_empty [] = true
is_empty (b ∷ bs) = false

-- `UPDATE uploads SET chunks_received = chunks_received + 1`: an INT column overflows with an error.
abbrev pub bump : ℕ → Option Upload → Handler Store (Unit {0})
bump id none = pure tt
bump id (some u) =
    if ltb (u.chunks_received + 1) 2147483648
    then modify (set_upload id (some (record u { chunks_received = u.chunks_received + 1 })))
    else fail internal

-- The bytes of a body up to the first that `io` refuses.
abbrev pub taken_part : (ℕ → Bool) → ℕ → Body → Body
taken_part io k [] = []
taken_part io k (b ∷ bs) = if io k then b ∷ taken_part io (k + 1) bs else []

-- `put` of the storage provider: it works, or it fails and leaves an object with a part of the body, or it
-- fails and leaves nothing.
abbrev pub put_chunk : Bool → Bool → Body → Text → Body → Handler Store (Unit {0})
put_chunk true leaves part key body = modify (put_object key body)
put_chunk false true part key body = do modify (put_object key part); fail internal
put_chunk false false part key body = fail internal

module _ (uuid : UuidText) where
  -- `upload_chunk` up to `exists`: the storage key, and whether it was there
  unfoldable pub probe_chunk : (ℕ → Bool) → ℕ → ℕ → Option Text → Body → Handler Store (Text × Bool)
  probe_chunk io user upload_id header body = do
    chunk_index ← lift (parse_chunk_index header)
    await (io 0)
    found ← gets (find_upload upload_id user)
    upload ← require found not_found
    lift (reject_if (leb upload.total_chunks chunk_index) bad_request)
    lift (reject_if (is_empty body) bad_request)
    lift (validate_chunk_body_size (length body))
    let key = chunk_storage_key uuid upload_id chunk_index
    await (io 1)
    already_received ← gets (object_exists key)
    pure (key, already_received)

  -- The rest: the object, and the counter if the object is new. A `put` that fails leaves an object if
  -- `io 4` says so, with as much of the body as the answers after it say.
  unfoldable pub commit_chunk : (ℕ → Bool) → ℕ → Body → Text × Bool → Handler Store (Unit {0})
  commit_chunk io upload_id body (key, already_received) = do
    put_chunk (io 2) (io 4) (taken_part io 5 body) key body
    if already_received
        then pure tt
        else do await (io 3); row ← gets (λ s. s.uploads upload_id); bump upload_id row

  unfoldable pub upload_chunk : (ℕ → Bool) → ℕ → ℕ → Option Text → Body → Handler Store (Unit {0})
  unfolding probe_chunk commit_chunk
  upload_chunk io user upload_id header body = do
    probe ← probe_chunk io user upload_id header body
    commit_chunk io upload_id body probe

-- The file that an upload becomes.
abbrev pub promoted : ℕ → ℕ → ℕ → Upload → FileRow
promoted now user id u = record {
  id = id;
  user_id = user;
  total_chunks = u.total_chunks;
  size_bytes = u.size_bytes;
  encrypted_key_envelope = u.encrypted_key_envelope;
  content_hash = u.content_hash;
  encrypted_name = u.encrypted_name;
  created_at = now;
  deleted_at = none;
}

abbrev pub with_file : FileRow → Store → Store
with_file f s = record s { files = s.files ++ f ∷ [] }

-- The DELETE is best effort: its failure is ignored.
abbrev pub remove_upload : Bool → ℕ → Handler Store (Unit {0})
remove_upload true id = modify (set_upload id none)
remove_upload false id = pure tt

unfoldable pub upload_complete : (ℕ → Bool) → ℕ → ℕ → ℕ → Handler Store ℕ
upload_complete io now user upload_id = do
  await (io 0)
  found ← gets (find_upload upload_id user)
  upload ← require found not_found
  lift (reject_if (ltb upload.chunks_received upload.total_chunks) bad_request)
  await (io 1)
  taken ← gets (λ s. has_file upload_id s.files)
  lift (reject_if taken internal)
  modify (with_file (promoted now user upload_id upload))
  remove_upload (io 2) upload_id
  pure upload_id
