-- ===== src/Server/Purge/Keeps.antt =====
-- `purge_orphaned_uploads` of apps/server/src/main.rs leaves every other upload alone.
use free_box.Outcome.{unwrap_or}
use free_box.Prelude.{
  ℕ, ◌≡◌, ◌≢◌, refl, ◌∙◌, Bool, true, false, Option, List, [], ◌∷◌, ◌++◌, append_assoc, All,
  bytes_eq, bytes_eq-ne, false≢true, sym, drop, ap, arith, if_either, Bool-cases, inl, inr,
}
use free_box.Server.Files.Keys.{Text, UuidText, chunk_storage_key, pad8}
use free_box.Server.Files.Keys.Injective.{append-injective}
use free_box.Server.Files.State.{Store, Upload}
use free_box.Server.Files.Upload.{remove_upload}
use free_box.Server.Purge.{
  Services, delete_logged, chunks_prefix, delete_objects, purge_blobs, purge_upload, purge_rows,
  is_orphaned, select_ids, purge_orphaned_uploads,
}

-- A key under a prefix.
abbrev pub IsUnder : Text → Text → Type 0
IsUnder prefix key = (rest : Text) × (key ≡ prefix ++ rest)

-- `StorageProvider::list` names keys under the prefix only.
abbrev pub ListsUnder : Services → Type 0
ListsUnder services =
    (prefix : Text) (s : Store) → All (IsUnder prefix) (unwrap_or (services.list prefix s) [])

-- The row and the chunks of an upload are the same in two states, and so are the files.
pub record IsSpared (uuid : UuidText) (id : ℕ) (s t : Store) : Type 0 where
  pub row : t.uploads id ≡ s.uploads id
  pub files : t.files ≡ s.files
  pub chunks :
      (i : ℕ) → t.objects (chunk_storage_key uuid id i) ≡ s.objects (chunk_storage_key uuid id i)

pub Spared-self : (uuid : UuidText) (id : ℕ) (s : Store) → IsSpared uuid id s s
Spared-self uuid id s = record { row = refl; files = refl; chunks = λ i. refl }

-- What deletions do to the tables, and to an object that they do not name.
tables-delete_logged :
    (deleted : Bool) (key : Text) (s : Store)
    → ((delete_logged deleted key s).uploads ≡ s.uploads)
      × ((delete_logged deleted key s).files ≡ s.files)
tables-delete_logged true key s = (refl, refl)
tables-delete_logged false key s = (refl, refl)

delete_logged-other :
    (deleted : Bool) (key k : Text) (s : Store)
    → bytes_eq key k ≡ false
    → (delete_logged deleted key s).objects k ≡ s.objects k
delete_logged-other true key k s h = rw h refl
delete_logged-other false key k s h = refl

pub tables-delete_objects :
    (deletes : Text → Bool) (keys : List Text) (s : Store)
    → ((delete_objects deletes keys s).uploads ≡ s.uploads)
      × ((delete_objects deletes keys s).files ≡ s.files)
unfolding delete_objects
tables-delete_objects deletes [] s = (refl, refl)
tables-delete_objects deletes (key ∷ keys) s =
    let (rows, files) = tables-delete_objects deletes keys (delete_logged (deletes key) key s) in
    let (row, file) = tables-delete_logged (deletes key) key s in (rows ∙ row, files ∙ file)

delete_objects-other :
    (deletes : Text → Bool) (k : Text) (keys : List Text) (s : Store)
    → All (λ key. bytes_eq key k ≡ false) keys
    → (delete_objects deletes keys s).objects k ≡ s.objects k
unfolding delete_objects
delete_objects-other deletes k [] s h = refl
delete_objects-other deletes k (key ∷ keys) s h =
    delete_objects-other deletes k keys (delete_logged (deletes key) key s) h.1
    ∙ delete_logged-other (deletes key) key k s h.0

pub files-remove_upload :
    (deleted : Bool) (a : ℕ) (s : Store) → (remove_upload deleted a s).1.files ≡ s.files
files-remove_upload false a s = refl
files-remove_upload true a s = refl

module _ (uuid : UuidText) where
  -- a chunk's key continues its upload's prefix
  pub chunks_prefix-chunk :
      (id i : ℕ) → chunk_storage_key uuid id i ≡ chunks_prefix uuid id ++ pad8 i
  unfolding chunk_storage_key chunks_prefix
  chunks_prefix-chunk id i = rw (append_assoc (uuid.text id) (47 ∷ []) (pad8 i)) refl

  -- and no other upload's
  other_prefix :
      (a b i : ℕ) (key : Text)
      → a ≢ b
      → IsUnder (chunks_prefix uuid a) key
      → bytes_eq key (chunk_storage_key uuid b i) ≡ false
  unfolding chunk_storage_key chunks_prefix
  other_prefix a b i key ne (rest, e) = bytes_eq-ne key (chunk_storage_key uuid b i) (λ same.
      let joined : uuid.text a ++ 47 ∷ rest ≡ uuid.text b ++ 47 ∷ pad8 i =
        sym (append_assoc (uuid.text a) (47 ∷ []) rest) ∙ ap (drop 7) (sym e ∙ same) in
      let (names, tails) =
        append-injective (uuid.text a) (uuid.text b) (47 ∷ rest) (47 ∷ pad8 i)
          (omega (arith, uuid.length-text a, uuid.length-text b)) joined in
      ne (uuid.text_injective a b names))

  others_prefix :
      (a b i : ℕ) (keys : List Text)
      → a ≢ b
      → All (IsUnder (chunks_prefix uuid a)) keys
      → All (λ key. bytes_eq key (chunk_storage_key uuid b i) ≡ false) keys
  others_prefix a b i [] ne h = tt
  others_prefix a b i (key ∷ keys) ne h =
      (other_prefix a b i key ne h.0, others_prefix a b i keys ne h.1)

  uploads-remove_upload :
      (deleted : Bool) (a b : ℕ) (s : Store)
      → a ≢ b
      → IsSpared uuid b s (remove_upload deleted a s).1
  uploads-remove_upload false a b s ne = Spared-self uuid b s
  uploads-remove_upload true a b s ne = record {
    row = ground arith;
    files = refl;
    chunks = λ i. refl;
  }

  files-purge_rows :
      (services : Services) (ids : List ℕ) (s : Store)
      → (purge_rows services uuid ids s).files ≡ s.files
  unfolding purge_rows purge_upload purge_blobs
  files-purge_rows services [] s = refl
  files-purge_rows services (a ∷ ids) s =
      let keys = unwrap_or (services.list (chunks_prefix uuid a) s) [] in
      let after = delete_objects services.deletes keys s in
      files-purge_rows services ids (remove_upload (services.executes a) a after).1
      ∙ files-remove_upload (services.executes a) a after
      ∙ (tables-delete_objects services.deletes keys s).1

  -- A purge does not touch the table of files.
  pub files-purge_orphaned_uploads :
      (services : Services) (now : ℕ) (created_at : ℕ → ℕ) (ids : List ℕ) (s : Store)
      → (purge_orphaned_uploads services uuid now created_at ids s).files ≡ s.files
  unfolding purge_orphaned_uploads
  files-purge_orphaned_uploads services now created_at ids s =
      if_either (λ (t : Store). t.files ≡ s.files) services.fetch_all _ s
        (λ _. files-purge_rows services (select_ids (is_orphaned now created_at s) ids) s)
        (λ _. refl)

  Spared-trans :
      (id : ℕ) (s t u : Store) → IsSpared uuid id s t → IsSpared uuid id t u → IsSpared uuid id s u
  Spared-trans id s t u h k = record {
    row = k.row ∙ h.row;
    files = k.files ∙ h.files;
    chunks = λ i. k.chunks i ∙ h.chunks i;
  }

  module _ (services : Services) (lists : ListsUnder services) where
    purge_blobs-IsSpared :
        (a b : ℕ) (s : Store) → a ≢ b → IsSpared uuid b s (purge_blobs services uuid a s)
    unfolding purge_blobs
    purge_blobs-IsSpared a b s ne =
        let keys = unwrap_or (services.list (chunks_prefix uuid a) s) [] in
        let (rows, files) = tables-delete_objects services.deletes keys s in
        record {
          row = ap (λ (f : ℕ → Option Upload). f b) rows;
          files = files;
          chunks = λ i.
              delete_objects-other services.deletes (chunk_storage_key uuid b i) keys s
                (others_prefix a b i keys ne (lists (chunks_prefix uuid a) s));
        }

    purge_upload-IsSpared :
        (a b : ℕ) (s : Store) → a ≢ b → IsSpared uuid b s (purge_upload services uuid a s)
    unfolding purge_upload
    purge_upload-IsSpared a b s ne =
        Spared-trans b s (purge_blobs services uuid a s) _ (purge_blobs-IsSpared a b s ne)
          (uploads-remove_upload (services.executes a) a b (purge_blobs services uuid a s) ne)

    pub purge_rows-IsSpared :
        (ids : List ℕ) (b : ℕ) (s : Store)
        → All (λ a. a ≢ b) ids
        → IsSpared uuid b s (purge_rows services uuid ids s)
    unfolding purge_rows
    purge_rows-IsSpared [] b s h = Spared-self uuid b s
    purge_rows-IsSpared (a ∷ ids) b s h =
        let t = purge_upload services uuid a s in
        Spared-trans b s t _ (purge_upload-IsSpared a b s h.0) (purge_rows-IsSpared ids b t h.1)

    -- What `select_ids` returns passes the test.
    unselected :
        (p : ℕ → Bool) (b : ℕ) (ids : List ℕ) → p b ≡ false → All (λ a. a ≢ b) (select_ids p ids)
    unselected p b [] h = tt
    unselected p b (a ∷ ids) h = elim (Bool-cases (p a)) [
      | inl e ↦ rw e ((λ same. false≢true (sym h ∙ ap p (sym same) ∙ e)), unselected p b ids h)
      | inr e ↦ rw e (unselected p b ids h)
    ]

    -- Take a storage provider that lists keys under the prefix asked for only. Whatever calls of a purge
    -- fail, the row and the chunks of an upload that is not orphaned are as they were, and so is the
    -- table of files.
    pub purge_orphaned_uploads-IsSpared :
        (now : ℕ) (created_at : ℕ → ℕ) (ids : List ℕ) (s : Store) (id : ℕ)
        → is_orphaned now created_at s id ≡ false
        → IsSpared uuid id s (purge_orphaned_uploads services uuid now created_at ids s)
    unfolding purge_orphaned_uploads
    purge_orphaned_uploads-IsSpared now created_at ids s id h =
        if_either (IsSpared uuid id s) services.fetch_all _ s
          (λ _.
            purge_rows-IsSpared (select_ids (is_orphaned now created_at s) ids) id s
              (unselected (is_orphaned now created_at s) id ids h))
          (λ _. Spared-self uuid id s)
