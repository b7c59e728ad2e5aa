-- ===== src/Server/Files/Trash/Owner.antt =====
-- apps/server/src/api/files.rs: every handler asks for the user's own row.
use free_box.Prelude.{
  ℕ, ◌≡◌, refl, Bool, true, false, ◌&&◌, Option, none, List, [], ◌∷◌, ◌==◌, arith,
}
use free_box.Outcome.{ok, err}
use free_box.Server.Error.{not_found}
use free_box.Server.Files.Keys.{Text, UuidText, parse_chunk_index}
use free_box.Server.Files.State.{Body, Store, FileRow, active_of, find_upload, rows_affected}
use free_box.Server.Files.Upload.{upload_chunk, upload_complete}
use free_box.Server.Files.Download.{get_file_meta, download_chunk}
use free_box.Server.Files.Trash.{delete_file, restore_file, rename_file, trashed_of, is_blank}
use free_box.Server.Files.Trash.Restore.{update_where-none, find_file-none}

abbrev pub belongs : ℕ → ℕ → FileRow → Bool
belongs id user f = f.id == id && f.user_id == user

module _ (id user now : ℕ) where
  none_active :
      (fs : List FileRow)
      → rows_affected (belongs id user) fs ≡ 0
      → rows_affected (active_of id user) fs ≡ 0
  none_active [] h = refl
  none_active (f ∷ fs) h = ground (arith, none_active fs)

  none_trashed :
      (fs : List FileRow)
      → rows_affected (belongs id user) fs ≡ 0
      → rows_affected (trashed_of now id user) fs ≡ 0
  none_trashed [] h = refl
  none_trashed (f ∷ fs) h = ground (arith, none_trashed fs)

-- To a user who owns neither an upload nor a file of this id, each handler that names the id answers
-- not found and leaves the state as it was: sending a chunk (with a readable index), completing,
-- metadata, download, deletion, restoring and renaming (to a name that is not blank).
pub stranger_finds_nothing :
    (uuid : UuidText) (user id now k : ℕ) (header : Option Text) (body : Body) (name : Text)
    (s : Store)
    → find_upload id user s ≡ none
    → rows_affected (belongs id user) s.files ≡ 0
    → parse_chunk_index header ≡ ok k
    → is_blank name ≡ false
    → (upload_chunk uuid (λ _. true) user id header body s ≡ (err not_found, s))
      × (upload_complete (λ _. true) now user id s ≡ (err not_found, s))
      × (get_file_meta (λ _. true) user id s ≡ (err not_found, s))
      × (download_chunk uuid (λ _. true) user id k s ≡ (err not_found, s))
      × (delete_file (λ _. true) now user id s ≡ (err not_found, s))
      × (restore_file (λ _. true) now user id s ≡ (err not_found, s))
      × (rename_file (λ _. true) user id name s ≡ (err not_found, s))
unfolding upload_chunk upload_complete get_file_meta download_chunk delete_file restore_file
    rename_file
stranger_finds_nothing uuid user id now k header body name s no_upload no_file parsed named =
    let active = none_active id user now s.files no_file in
    let trashed = none_trashed id user now s.files no_file in
    let unseen = find_file-none (active_of id user) s.files active in
    let same = λ (g : FileRow → FileRow). update_where-none (active_of id user) g s.files active in
    (
      ground (arith),
      ground (arith),
      ground (arith, unseen),
      ground (arith, unseen),
      rw (active, same _) refl,
      rw (trashed, update_where-none (trashed_of now id user) _ s.files trashed) refl,
      rw (named, active, same _) refl,
    )
