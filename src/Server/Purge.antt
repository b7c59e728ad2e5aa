-- ===== src/Server/Purge.antt =====
-- apps/server/src/main.rs: the hourly task that removes the uploads that were begun more than 24 hours ago,
-- with their chunks. What the database and the storage provider answer are arguments.
pub mod Keeps
pub mod Clears
pub mod Completed
pub mod Counted
mod Tests
use free_box.Outcome.{unwrap_or}
use free_box.Prelude.{
  ℕ, ◌+◌, ◌*◌, Bool, true, false, ◌&&◌, Option, none, some, List, [], ◌∷◌, ◌++◌, bytes_eq, ltb,
  if◌then◌else◌,
}
use free_box.Server.Files.Keys.{Text, UuidText, codes}
use free_box.Server.Files.State.{Store, is_some}
use free_box.Server.Files.Upload.{remove_upload}

-- `StorageProvider::delete`
abbrev pub remove_object : Text → Store → Store
remove_object key s = record s { objects = λ k. if bytes_eq key k then none else s.objects k }

-- The calls that a purge awaits: whether the SELECT answers, the keys that the storage provider lists
-- under a prefix, and whether the deletion of a key and of a row succeed.
pub record Services : Type 0 where
  pub fetch_all : Bool
  pub list : Text → Store → Option (List Text)
  pub deletes : Text → Bool
  pub executes : ℕ → Bool

-- `INTERVAL '24 hours'`, in seconds
abbrev pub max_age : ℕ
max_age = 24 * 3600

-- `format!("chunks/{upload_id}/")`
unfoldable pub chunks_prefix : UuidText → ℕ → Text
chunks_prefix uuid id = codes "chunks/" ++ uuid.text id ++ b'/' ∷ []

-- A deletion that fails is only logged.
abbrev pub delete_logged : Bool → Text → Store → Store
delete_logged true key s = remove_object key s
delete_logged false key s = s

-- the loop over the listed objects
unfoldable pub delete_objects : (Text → Bool) → List Text → Store → Store
delete_objects deletes [] s = s
delete_objects deletes (key ∷ keys) s =
    delete_objects deletes keys (delete_logged (deletes key) key s)

module _ (services : Services) (uuid : UuidText) where
  -- the blobs of one upload
  unfoldable pub purge_blobs : ℕ → Store → Store
  unfolding delete_objects chunks_prefix
  purge_blobs id s =
      delete_objects services.deletes (unwrap_or (services.list (chunks_prefix uuid id) s) []) s

  -- one row of the loop: it goes whatever happened to the blobs
  unfoldable pub purge_upload : ℕ → Store → Store
  unfolding purge_blobs
  purge_upload id s = (remove_upload (services.executes id) id (purge_blobs id s)).1

  unfoldable pub purge_rows : List ℕ → Store → Store
  unfolding purge_upload
  purge_rows [] s = s
  purge_rows (id ∷ ids) s = purge_rows ids (purge_upload id s)

-- `WHERE created_at < NOW() - INTERVAL '24 hours'`, on the rows that there are
unfoldable pub is_orphaned : ℕ → (ℕ → ℕ) → Store → ℕ → Bool
is_orphaned now created_at s id = is_some (s.uploads id) && ltb (created_at id + max_age) now

abbrev pub select_ids : (ℕ → Bool) → List ℕ → List ℕ
select_ids p [] = []
select_ids p (id ∷ ids) = let rest = select_ids p ids in if p id then id ∷ rest else rest

-- `created_at` is the column of the table `uploads`, and `ids` the order in which the database goes
-- through the rows.
unfoldable pub purge_orphaned_uploads : Services → UuidText → ℕ → (ℕ → ℕ) → List ℕ → Store → Store
unfolding purge_rows is_orphaned
purge_orphaned_uploads services uuid now created_at ids s =
    if services.fetch_all
    then purge_rows services uuid (select_ids (is_orphaned now created_at s) ids) s
    else s
