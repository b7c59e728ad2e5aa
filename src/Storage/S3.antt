-- ===== src/Storage/S3.antt =====
-- plugins/storage-s3/src/lib.rs: a bucket as a storage backend. The plugin has the fields of the local one: a
-- cell for OpenDAL's operator. `remote`, what the operator reads and writes, is the record's `disk`.
pub mod Objects
pub mod Multipart
pub mod Sigv4
pub mod Bucket
pub mod Lifecycle
mod Tests
use free_box.Prelude.{ℕ, ◌*◌, Bool, true, Option, none, some, List, [], ◌∷◌, if◌then◌else◌}
use free_box.Outcome.{Result, ok, err, ok_or}
use free_box.Server.Error.{CoreError}
use free_box.Server.Files.Keys.{Text, codes}
use free_box.Storage.{
  Bytes, Call, pure, lift, ◌>>=◌, ◌>>◌, ObjectMeta, MultipartUpload, CompletedPart,
  StorageCapabilities, StorageProvider,
}
use free_box.Storage.Local.{
  Operator, Metadata, LocalPlugin, ask, act, or_default, storage_error, not_found_or_storage,
}

abbrev pub S3Plugin : Type 0 → Type 0
S3Plugin D = LocalPlugin D

abbrev pub object_meta : Text → Metadata → ObjectMeta
object_meta key m = record {
  key = key;
  size = m.content_length;
  last_modified = or_default m.last_modified;
  etag = m.etag;
}

abbrev pub files_of : List (Text × Metadata) → List ObjectMeta
files_of [] = []
files_of (e ∷ es) =
    let rest = files_of es in if e.1.is_file then object_meta e.0 e.1 ∷ rest else rest

-- at most 5 GiB in one `put`
abbrev pub capabilities : StorageCapabilities
capabilities = record {
  versioning = true;
  server_side_copy = true;
  presigned_urls = true;
  multipart_upload = true;
  max_single_put_bytes = some (5 * 1024 * 1024 * 1024);
}

module _ {D : Type 0} where
  unfoldable pub put : Text → Bytes → Call (S3Plugin D) (Unit {0})
  put key bytes = act storage_error (λ operator. operator.write key bytes)

  unfoldable pub get : Text → Call (S3Plugin D) Bytes
  get key = ask not_found_or_storage (λ operator. operator.read key)

  unfoldable pub get_range : Text → ℕ → ℕ → Call (S3Plugin D) Bytes
  get_range key first last = ask storage_error (λ operator. operator.read_range key first last)

  unfoldable pub delete : Text → Call (S3Plugin D) (Unit {0})
  delete key = act storage_error (λ operator. operator.delete key)

  unfoldable pub list : Text → Call (S3Plugin D) (List ObjectMeta)
  list prefix = do
    entries ← ask storage_error (λ operator. operator.list_with prefix)
    pure (files_of entries)

  unfoldable pub exists : Text → Call (S3Plugin D) Bool
  exists key = ask storage_error (λ operator. operator.is_exist key)

  unfoldable pub create_multipart : Text → Text → Call (S3Plugin D) MultipartUpload
  create_multipart upload_id key = pure (record { upload_id = upload_id; key = key })

  -- the part's number is not used
  unfoldable pub upload_part : MultipartUpload → ℕ → Bytes → Call (S3Plugin D) CompletedPart
  unfolding put
  upload_part upload part_number bytes = do
    put upload.key bytes
    pure (record { part_number = part_number; etag = [] })

  unfoldable pub complete_multipart :
      MultipartUpload → List CompletedPart → Call (S3Plugin D) (Unit {0})
  complete_multipart upload parts = pure tt

  unfoldable pub abort_multipart : MultipartUpload → Call (S3Plugin D) (Unit {0})
  unfolding delete
  abort_multipart upload = delete upload.key

  unfoldable pub head : Text → Call (S3Plugin D) ObjectMeta
  head key = do
    m ← ask not_found_or_storage (λ operator. operator.stat_with key)
    pure (object_meta key m)

  -- `url_parse` is `str::parse::<url::Url>`.
  unfoldable pub presign_get : (Text → Option Text) → Text → ℕ → Call (S3Plugin D) Text
  presign_get url_parse key expires = do
    uri ← ask storage_error (λ operator. operator.presign_read key expires)
    lift (ok_or (url_parse uri) CoreError.storage)

  -- `impl StorageProvider for S3Plugin`
  abbrev pub s3_provider : (Text → Option Text) → StorageProvider (S3Plugin D)
  s3_provider url_parse = record {
    id = codes "storage-s3";
    put = put;
    get = get;
    get_range = get_range;
    delete = delete;
    list = list;
    exists = exists;
    create_multipart = create_multipart;
    upload_part = upload_part;
    complete_multipart = complete_multipart;
    abort_multipart = abort_multipart;
    head = head;
    capabilities = capabilities;
    presign_get = presign_get url_parse;
  }
