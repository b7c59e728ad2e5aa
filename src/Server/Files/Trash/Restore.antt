-- ===== src/Server/Files/Trash/Restore.antt =====
-- apps/server/src/api/files.rs: deletion, restoring and renaming, for the owner and for anybody else.
use free_box.Prelude.{
  ℕ, ◌+◌, ◌≤◌, ◌<◌, ◌≡◌, refl, Bool, true, none, some, List, [], ◌∷◌, ◌==◌, arith,
}
use free_box.Outcome.{ok, err}
use free_box.Server.Error.{not_found}
use free_box.Server.Files.Keys.{UuidText}
use free_box.Server.Files.State.{Store, FileRow, active_of, find_file, update_where, rows_affected}
use free_box.Server.Files.Download.{get_file_meta, download_chunk}
use free_box.Server.Files.Trash.{delete_file, restore_file, trashed_of, retention}

abbrev pub has_id : ℕ → FileRow → Bool
has_id id f = f.id == id

-- An UPDATE that matches no row changes nothing.
pub update_where-none :
    (p : FileRow → Bool) (g : FileRow → FileRow) (fs : List FileRow)
    → rows_affected p fs ≡ 0
    → update_where p g fs ≡ fs
update_where-none p g [] h = refl
update_where-none p g (f ∷ fs) h = ground (arith, update_where-none p g fs)

-- A SELECT that matches no row finds none.
pub find_file-none :
    (p : FileRow → Bool) (fs : List FileRow) → rows_affected p fs ≡ 0 → find_file p fs ≡ none
find_file-none p [] h = refl
find_file-none p (f ∷ fs) h = ground (arith, find_file-none p fs)

-- What `delete_file` and `restore_file` write.
abbrev pub mark : ℕ → FileRow → FileRow
mark now f = record f { deleted_at = some now }

abbrev pub unmark : FileRow → FileRow
unmark f = record f { deleted_at = none }

module _ (id user : ℕ) where
  -- One id, one row: what is active is not in the trash.
  disjoint :
      (now : ℕ) (fs : List FileRow)
      → rows_affected (active_of id user) fs + rows_affected (trashed_of now id user) fs
        ≤ rows_affected (has_id id) fs
  disjoint now [] = omega arith
  disjoint now (f ∷ fs) = ground (arith, disjoint now fs)

  none_trashed_yet :
      (fs : List FileRow)
      → rows_affected (has_id id) fs ≡ 1
      → rows_affected (active_of id user) fs ≡ 1
      → (now : ℕ) → rows_affected (trashed_of now id user) fs ≡ 0
  none_trashed_yet fs single active now = omega (arith, disjoint now fs)

  -- Marking and unmarking the active rows, while none is in the trash, gives the table back.
  unmark-mark :
      (now later : ℕ) (fs : List FileRow)
      → later < now + retention
      → rows_affected (trashed_of later id user) fs ≡ 0
      → update_where
          (trashed_of later id user)
          unmark
          (update_where (active_of id user) (mark now) fs)
        ≡ fs
  unmark-mark now later [] h none_there = refl
  unmark-mark now later (f ∷ fs) h none_there = ground (arith, unmark-mark now later fs)

  marked_count :
      (now later : ℕ) (fs : List FileRow)
      → later < now + retention
      → rows_affected (active_of id user) fs
        ≤ rows_affected (trashed_of later id user) (update_where (active_of id user) (mark now) fs)
  marked_count now later [] h = omega arith
  marked_count now later (f ∷ fs) h = ground (arith, marked_count now later fs)

  marked_gone :
      (now : ℕ) (fs : List FileRow)
      → rows_affected (active_of id user) (update_where (active_of id user) (mark now) fs) ≡ 0
  marked_gone now [] = refl
  marked_gone now (f ∷ fs) = ground (arith, marked_gone now fs)

  marked_late :
      (now later : ℕ) (fs : List FileRow)
      → now + retention ≤ later
      → rows_affected (trashed_of later id user) fs ≡ 0
      → rows_affected (trashed_of later id user) (update_where (active_of id user) (mark now) fs)
        ≡ 0
  marked_late now later [] h none_there = refl
  marked_late now later (f ∷ fs) h none_there = ground (arith, marked_late now later fs)

-- Take an active file, the only row of its id. Deleting it makes its owner's metadata request, download
-- and second deletion answer not found. Restoring it within thirty days succeeds and gives the state
-- from before the deletion back; after thirty days it answers not found and changes nothing.
pub restore_file-delete_file :
    (uuid : UuidText) (now soon late user id chunk : ℕ) (s : Store)
    → rows_affected (has_id id) s.files ≡ 1
    → rows_affected (active_of id user) s.files ≡ 1
    → soon < now + retention
    → now + retention ≤ late
    → let after = (delete_file (λ _. true) now user id s).1 in
      (delete_file (λ _. true) now user id s ≡ (ok tt, after))
      × (get_file_meta (λ _. true) user id after ≡ (err not_found, after))
      × (download_chunk uuid (λ _. true) user id chunk after ≡ (err not_found, after))
      × (delete_file (λ _. true) now user id after ≡ (err not_found, after))
      × (restore_file (λ _. true) soon user id after ≡ (ok tt, s))
      × (restore_file (λ _. true) late user id after ≡ (err not_found, after))
unfolding delete_file restore_file get_file_meta download_chunk
restore_file-delete_file uuid now soon late user id chunk s single active h k =
    let marked = update_where (active_of id user) (mark now) s.files in
    let quiet = none_trashed_yet id user s.files single active in
    let gone = marked_gone id user now s.files in
    let unseen = find_file-none (active_of id user) marked gone in
    let count = marked_count id user now soon s.files h in
    let back = unmark-mark id user now soon s.files h (quiet soon) in
    let expired = marked_late id user now late s.files k (quiet late) in
    (
      rw (active) refl,
      ground (arith, unseen),
      ground (arith, unseen),
      rw (gone, update_where-none (active_of id user) (mark now) marked gone) refl,
      rw (back) (ground (arith, count)),
      rw (expired, update_where-none (trashed_of late id user) unmark marked expired) refl,
    )
