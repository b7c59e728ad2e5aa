-- ===== src/Server/Purge/Completed.antt =====
-- `purge_orphaned_uploads` of apps/server/src/main.rs takes an upload for one that was never completed if its
-- row is there. `upload_complete` of apps/server/src/api/files.rs may leave the row behind, and may run while
-- a purge does.
use free_box.Prelude.{
  ◌+◌, lt→ltb, ℕ, ◌≤◌, ◌<◌, ◌≡◌, refl, ◌∙◌, ap, Bool, true, false, Option, none, some, List, [],
  ◌∷◌, ◌++◌, arith, leb, ltb, ◌==◌, if◌then◌else◌,
}
use free_box.Outcome.{unwrap_or, ok, err}
use free_box.Server.Error.{not_found}
use free_box.Server.Files.Keys.{Text, UuidText, chunk_storage_key}
use free_box.Server.Files.State.{
  owned, Store, Upload, FileRow, find_upload, has_file, find_file, active_of, set_upload,
}
use free_box.Server.Files.Upload.{upload_complete, remove_upload, promoted, with_file}
use free_box.Server.Files.Download.{get_file_meta, download_chunk, meta_of}
use free_box.Server.Files.Upload.Chunk.{owned_row}
use free_box.Server.Purge.{
  Services, chunks_prefix, is_orphaned, max_age, purge_blobs, purge_orphaned_uploads,
}
use free_box.Server.Purge.Keeps.{
  ListsUnder, IsSpared, purge_orphaned_uploads-IsSpared, files-purge_orphaned_uploads,
  files-remove_upload, tables-delete_objects,
}
use free_box.Server.Purge.Clears.{
  IsWithin, Works, purge_blobs-clears, objects-remove_upload, HasNoChunk, has_id,
  purge_orphaned_uploads-clears,
}

-- The file is shown to its owner, and a chunk of it is not found.
abbrev pub IsHollow : UuidText → (ℕ → Bool) → ℕ → FileRow → ℕ → Store → Type 0
IsHollow uuid io user f i s =
    (get_file_meta io user f.id s ≡ (ok (meta_of f), s))
    × (download_chunk uuid io user f.id i s ≡ (err not_found, s))

-- A row that is appended under a new id is found.
find-promoted :
    (now user id : ℕ) (u : Upload) (fs : List FileRow)
    → has_file id fs ≡ false
    → find_file (active_of id user) (fs ++ promoted now user id u ∷ [])
      ≡ some (promoted now user id u)
find-promoted now user id u [] h = ground arith
find-promoted now user id u (f ∷ fs) h = ground (arith, find-promoted now user id u fs)

-- Where the row of a file is found and no chunk is there.
hollow :
    (uuid : UuidText) (user : ℕ) (f : FileRow) (i : ℕ) (s : Store)
    → i < f.total_chunks
    → find_file (active_of f.id user) s.files ≡ some f
    → HasNoChunk uuid f.id s
    → IsHollow uuid (λ _. true) user f i s
unfolding get_file_meta download_chunk
hollow uuid user f i s l found gone =
    let inside : leb f.total_chunks i ≡ false = ground arith in
    (rw found refl, rw (found, inside, gone i) refl)

-- Every call of `upload_complete` works but for the DELETE, which works or not.
abbrev pub best_effort : Bool → ℕ → Bool
best_effort deleted k = if k == 2 then deleted else true

-- A complete upload of the user's, which is no file yet.
pub record IsReady (user id : ℕ) (u : Upload) (s : Store) : Type 0 where
  pub found : find_upload id user s ≡ some u
  pub full : u.total_chunks ≤ u.chunks_received
  pub unused : has_file id s.files ≡ false

upload_complete-IsReady :
    (deleted : Bool) (now user id : ℕ) (u : Upload) (s : Store)
    → IsReady user id u s
    → upload_complete (best_effort deleted) now user id s
      ≡ (ok id, (remove_upload deleted id (with_file (promoted now user id u) s)).1)
unfolding upload_complete
upload_complete-IsReady true now user id u s h =
    let full = h.full in
    let all_sent : ltb u.chunks_received u.total_chunks ≡ false = ground arith in
    rw (h.found, all_sent, h.unused) refl
upload_complete-IsReady false now user id u s h =
    let full = h.full in
    let all_sent : ltb u.chunks_received u.total_chunks ≡ false = ground arith in
    rw (h.found, all_sent, h.unused) refl

module _ (uuid : UuidText) (services : Services) (lists : ListsUnder services) (known : List Text)
    (works : Works services known) where
  -- Take objects at keys of a list, an upload that is completed, the index of one of its chunks, and a purge in
  -- which every call works, when the upload's row is more than 24 hours old. If `upload_complete` could
  -- delete the row, the purge leaves the file's chunks alone. If it could not, which it does not report,
  -- the file is still shown after the purge, and that chunk of it is not found.
  pub completed_upload_is_purged :
      (now later user id i : ℕ) (created_at : ℕ → ℕ) (ids : List ℕ) (u : Upload) (s : Store)
      → IsWithin known s
      → i < u.total_chunks
      → IsReady user id u s
      → services.fetch_all ≡ true
      → services.executes id ≡ true
      → has_id id ids ≡ true
      → created_at id + max_age < later
      → let after = λ (deleted : Bool). upload_complete (best_effort deleted) now user id s in
        let purge = purge_orphaned_uploads services uuid later created_at ids in
        ((after true).0 ≡ ok id)
        × IsSpared uuid id (after true).1 (purge (after true).1)
        × ((after false).0 ≡ ok id)
        × IsHollow uuid (λ _. true) user (promoted now user id u) i (purge (after false).1)
  unfolding is_orphaned
  completed_upload_is_purged now later user id i created_at ids u s within l h fetched executed here
        old =
      let f = promoted now user id u in
      let kept = with_file f s in
      let gone = set_upload id none kept in
      let purge = purge_orphaned_uploads services uuid later created_at ids in
      rw
        (
          upload_complete-IsReady true now user id u s h,
          upload_complete-IsReady false now user id u s h,
        )
        (
          refl,
          purge_orphaned_uploads-IsSpared uuid services lists later created_at ids gone id
              (ground arith),
          refl,
          hollow uuid user f i (purge kept) l
              (ap (find_file (active_of id user))
                  (files-purge_orphaned_uploads uuid services later created_at ids kept)
                ∙ find-promoted now user id u s.files h.unused)
              (purge_orphaned_uploads-clears uuid services known works later created_at ids kept id
                within fetched executed here
                (rw (owned_row user (s.uploads id) u h.found)
                  (lt→ltb (created_at id + max_age) later old))).1,
        )

  -- Take objects at keys of a list, the index of a chunk, and a complete upload for which a purge has just
  -- deleted the blobs, and not yet the row. The upload can be completed, with any outcome of the
  -- best-effort DELETE: the file is shown, and that chunk of it is not found.
  pub complete_amid_purge :
      (deleted : Bool) (now user id i : ℕ) (u : Upload) (s : Store)
      → IsWithin known s
      → i < u.total_chunks
      → IsReady user id u s
      → let after =
          upload_complete (best_effort deleted) now user id (purge_blobs services uuid id s) in
        (after.0 ≡ ok id) × IsHollow uuid (λ _. true) user (promoted now user id u) i after.1
  unfolding purge_blobs
  complete_amid_purge deleted now user id i u s within l h =
      let f = promoted now user id u in
      let blank = purge_blobs services uuid id s in
      let kept = with_file f blank in
      let (rows, files) =
        tables-delete_objects services.deletes
          (unwrap_or (services.list (chunks_prefix uuid id) s) []) s in
      let ready : IsReady user id u blank = record {
        found = ap (λ (g : ℕ → Option Upload). owned user (g id)) rows ∙ h.found;
        full = h.full;
        unused = ap (has_file id) files ∙ h.unused;
      } in
      rw (upload_complete-IsReady deleted now user id u blank ready) (
        refl,
        hollow uuid user f i (remove_upload deleted id kept).1 l
            (ap (find_file (active_of id user)) (files-remove_upload deleted id kept)
              ∙ find-promoted now user id u blank.files ready.unused)
            (λ k.
              ap (λ (g : Text → Option (List ℕ)). g (chunk_storage_key uuid id k))
                (objects-remove_upload deleted id kept)
              ∙ purge_blobs-clears uuid services known works id s within k),
      )
