-- ===== src/Storage/Local.antt =====
-- plugins/storage-local/src/lib.rs: the local file system as a storage backend.
pub mod Lifecycle
pub mod Objects
pub mod Staging
pub mod Gather
pub mod Multipart
use free_box.Prelude.{
  ℕ, Bool, true, false, Option, none, some, List, [], ◌∷◌, ◌++◌, leb, if◌then◌else◌,
}
use free_box.Outcome.{Result, ok, err, ok_or}
use free_box.Server.Error.{CoreError}
use free_box.Server.Files.Keys.{Text, codes, pad8}
use free_box.Storage.{
  Bytes, Call, pure, lift, ignore, ◌>>=◌, ◌>>◌, ObjectMeta, MultipartUpload, CompletedPart,
  StorageCapabilities, StorageProvider,
}

-- What OpenDAL's `Fs` service does to a disk: an error is of the kind `NotFound` or of another.
pub data Fault : Type 0 where
  not_found unexpected : Fault

pub record Metadata : Type 0 where
  pub is_file : Bool
  pub content_length : ℕ
  pub last_modified : Option ℕ
  pub etag : Option Text

pub record Operator (D : Type 0) : Type 0 where
  pub write : Text → Bytes → D → Result Fault (Unit {0}) × D
  pub read : Text → D → Result Fault Bytes
  -- from the first offset up to the second
  pub read_range : Text → ℕ → ℕ → D → Result Fault Bytes
  pub delete : Text → D → Result Fault (Unit {0}) × D
  pub list_with : Text → D → Result Fault (List (Text × Metadata))
  pub is_exist : Text → D → Result Fault Bool
  pub stat_with : Text → D → Result Fault Metadata
  -- the address of a signed request, for so many seconds
  pub presign_read : Text → ℕ → D → Result Fault Text

-- The plugin's cell for its operator, and the disk.
pub record LocalPlugin (D : Type 0) : Type 0 where
  pub operator : Option (Operator D)
  pub disk : D

abbrev pub not_found_or_storage : Fault → CoreError
not_found_or_storage not_found = CoreError.object_not_found
not_found_or_storage unexpected = CoreError.storage

abbrev pub map_err : {A : Type 0} → (Fault → CoreError) → Result Fault A → Result CoreError A
map_err f (ok a) = ok a
map_err f (err e) = err (f e)

abbrev pub or_default : Option ℕ → ℕ
or_default none = 0
or_default (some t) = t

abbrev pub object_meta : Text → Metadata → ObjectMeta
object_meta key m = record {
  key = key;
  size = m.content_length;
  last_modified = or_default m.last_modified;
  etag = none;
}

abbrev pub files_of : List (Text × Metadata) → List ObjectMeta
files_of [] = []
files_of (e ∷ es) =
    let rest = files_of es in if e.1.is_file then object_meta e.0 e.1 ∷ rest else rest

-- `Vec::sort_by_key`, which is stable
unfoldable pub insert_part : CompletedPart → List CompletedPart → List CompletedPart
insert_part p [] = p ∷ []
insert_part p (q ∷ qs) =
    let rest = insert_part p qs in if leb p.part_number q.part_number then p ∷ q ∷ qs else q ∷ rest

unfoldable pub sort_by_key : List CompletedPart → List CompletedPart
unfolding insert_part
sort_by_key [] = []
sort_by_key (p ∷ ps) = insert_part p (sort_by_key ps)

-- `format!("{}.part.{:08}", key, part_number)`
unfoldable pub staging_key : Text → ℕ → Text
unfolding pad8
staging_key key part_number = key ++ codes ".part." ++ pad8 part_number

abbrev pub storage_error : Fault → CoreError
storage_error e = CoreError.storage

abbrev pub capabilities : StorageCapabilities
capabilities = record {
  versioning = false;
  server_side_copy = false;
  presigned_urls = false;
  multipart_upload = true;
  max_single_put_bytes = none;
}

module _ {D : Type 0} where
  unfoldable pub op : LocalPlugin D → Result CoreError (Operator D)
  op s = ok_or s.operator CoreError.storage

  -- a call that only reads the disk, and one that writes it
  abbrev pub ask :
      {A : Type 0}
      → (Fault → CoreError)
      → (Operator D → D → Result Fault A)
      → Call (LocalPlugin D) A
  ask f call = do operator ← (λ s. (op s, s)); λ s. (map_err f (call operator s.disk), s)

  abbrev pub act :
      {A : Type 0}
      → (Fault → CoreError)
      → (Operator D → D → Result Fault A × D)
      → Call (LocalPlugin D) A
  act f call = do
    operator ← (λ s. (op s, s))
    λ s. let (r, disk) = call operator s.disk in (map_err f r, record s { disk = disk })

  unfoldable pub put : Text → Bytes → Call (LocalPlugin D) (Unit {0})
  unfolding op
  put key bytes = act storage_error (λ operator. operator.write key bytes)

  unfoldable pub get : Text → Call (LocalPlugin D) Bytes
  unfolding op
  get key = ask not_found_or_storage (λ operator. operator.read key)

  unfoldable pub get_range : Text → ℕ → ℕ → Call (LocalPlugin D) Bytes
  unfolding op
  get_range key first last = ask storage_error (λ operator. operator.read_range key first last)

  unfoldable pub delete : Text → Call (LocalPlugin D) (Unit {0})
  unfolding op
  delete key = act storage_error (λ operator. operator.delete key)

  unfoldable pub list : Text → Call (LocalPlugin D) (List ObjectMeta)
  unfolding op
  list prefix = do
    entries ← ask storage_error (λ operator. operator.list_with prefix)
    pure (files_of entries)

  unfoldable pub exists : Text → Call (LocalPlugin D) Bool
  unfolding op
  exists key = ask storage_error (λ operator. operator.is_exist key)

  unfoldable pub create_multipart : Text → Text → Call (LocalPlugin D) MultipartUpload
  create_multipart upload_id key = pure (record { upload_id = upload_id; key = key })

  unfoldable pub upload_part : MultipartUpload → ℕ → Bytes → Call (LocalPlugin D) CompletedPart
  unfolding put staging_key
  upload_part upload part_number bytes = do
    put (staging_key upload.key part_number) bytes
    pure (record { part_number = part_number; etag = [] })

  -- the loop over the sorted parts
  unfoldable pub gather : Text → List CompletedPart → Call (LocalPlugin D) Bytes
  unfolding get delete staging_key
  gather key [] = pure []
  gather key (p ∷ ps) = do
    let staging = staging_key key p.part_number
    chunk ← get staging
    ignore (delete staging)
    rest ← gather key ps
    pure (chunk ++ rest)

  unfoldable pub complete_multipart :
      MultipartUpload → List CompletedPart → Call (LocalPlugin D) (Unit {0})
  unfolding gather sort_by_key put
  complete_multipart upload parts = do
    final_data ← gather upload.key (sort_by_key parts)
    put upload.key final_data

  unfoldable pub abort_multipart : MultipartUpload → Call (LocalPlugin D) (Unit {0})
  unfolding delete
  abort_multipart upload = delete upload.key

  unfoldable pub head : Text → Call (LocalPlugin D) ObjectMeta
  unfolding op
  head key = do
    m ← ask not_found_or_storage (λ operator. operator.stat_with key)
    pure (object_meta key m)

  unfoldable pub presign_get : Text → ℕ → Call (LocalPlugin D) Text
  presign_get key expires = lift (err CoreError.storage)

  -- `impl StorageProvider for LocalPlugin`
  abbrev pub local_provider : StorageProvider (LocalPlugin D)
  local_provider = record {
    id = codes "storage-local";
    put = put;
    get = get;
    get_range = get_range;
    delete = delete;
    list = list;
    exists = exists;
    create_multipart = create_multipart;
    upload_part = upload_part;
    complete_multipart = complete_multipart;
    abort_multipart = abort_multipart;
    head = head;
    capabilities = capabilities;
    presign_get = presign_get;
  }
