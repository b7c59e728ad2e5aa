-- ===== src/Server/Files/Trash.antt =====
-- apps/server/src/api/files.rs: soft deletion, the trash with its window of thirty days, and renaming.
pub mod Restore
pub mod Owner
use free_box.Prelude.{
  ℕ, ◌+◌, ◌*◌, Bool, true, false, ◌&&◌, ◌||◌, Option, none, some, List, [], ◌∷◌, length, map, all,
  ltb, leb, ◌==◌, if◌then◌else◌,
}
use free_box.Prelude.Int.{ℤ}
use free_box.Outcome.{Result, ok, err, reject_if}
use free_box.Server.Error.{AppError, internal, not_found, bad_request}
use free_box.Server.Handler.{Handler, pure, fail, lift, gets, modify, require, await, ◌>>=◌, ◌>>◌}
use free_box.Server.Files.Keys.{Text}
use free_box.Server.Files.State.{Store, FileRow, active_of, update_where, rows_affected}
use free_box.Server.Files.Download.{page_limit, page_offset, select, order_desc, page, total_of}

-- `INTERVAL '30 days'`, in seconds
abbrev pub retention : ℕ
retention = 30 * 86400

-- An UPDATE, and an error if it touched no row.
abbrev pub update_one : (FileRow → Bool) → (FileRow → FileRow) → Handler Store (Unit {0})
update_one p g = do
  affected ← gets (λ s. rows_affected p s.files)
  modify (λ s. record s { files = update_where p g s.files })
  lift (reject_if (affected == 0) not_found)

unfoldable pub delete_file : (ℕ → Bool) → ℕ → ℕ → ℕ → Handler Store (Unit {0})
delete_file io now user file_id = do
  await (io 0)
  update_one (active_of file_id user) (λ f. record f { deleted_at = some now })

-- `deleted_at IS NOT NULL AND deleted_at > NOW() - INTERVAL '30 days'`
abbrev pub in_window : ℕ → Option ℕ → Bool
in_window now none = false
in_window now (some t) = ltb now (t + retention)

abbrev pub trashed_of : ℕ → ℕ → ℕ → FileRow → Bool
trashed_of now file_id user f = f.id == file_id && (f.user_id == user && in_window now f.deleted_at)

unfoldable pub restore_file : (ℕ → Bool) → ℕ → ℕ → ℕ → Handler Store (Unit {0})
restore_file io now user file_id = do
  await (io 0)
  update_one (trashed_of now file_id user) (λ f. record f { deleted_at = none })

pub record TrashFileResponse : Type 0 where
  pub file_id : ℕ
  pub encrypted_name : Text
  pub size_bytes : ℕ
  pub total_chunks : ℕ
  pub content_hash : Text
  pub created_at : ℕ
  pub deleted_at : ℕ

abbrev deletion_time : Option ℕ → ℕ
deletion_time none = 0
deletion_time (some t) = t

abbrev pub trash_meta_of : FileRow → TrashFileResponse
trash_meta_of f = record {
  file_id = f.id;
  encrypted_name = f.encrypted_name;
  size_bytes = f.size_bytes;
  total_chunks = f.total_chunks;
  content_hash = f.content_hash;
  created_at = f.created_at;
  deleted_at = deletion_time f.deleted_at;
}

pub record TrashListResponse : Type 0 where
  pub files : List TrashFileResponse
  pub total : ℕ
  pub limit : ℕ
  pub offset : ℕ

unfoldable pub list_trash :
    (ℕ → Bool) → ℕ → ℕ → Option ℤ → Option ℤ → Handler Store TrashListResponse
unfolding page_limit page_offset order_desc
list_trash io now user limit offset = do
  await (io 0)
  rows ← gets (λ s.
      order_desc (λ f. deletion_time f.deleted_at)
        (select (λ f. f.user_id == user && in_window now f.deleted_at) s.files))
  let shown = page (page_limit limit) (page_offset offset) rows
  pure (record {
    files = map trash_meta_of shown;
    total = total_of shown (length rows);
    limit = page_limit limit;
    offset = page_offset offset;
  })

-- `char::is_whitespace`, which `trim` drops at both ends
abbrev pub is_whitespace : ℕ → Bool
is_whitespace c =
    (leb 9 c && leb c 13)
    || c == 32
    || c == 133
    || c == 160
    || c == 5760
    || (leb 8192 c && leb c 8202)
    || c == 8232
    || c == 8233
    || c == 8239
    || c == 8287
    || c == 12288

-- `.trim().is_empty()`
abbrev pub is_blank : Text → Bool
is_blank name = all is_whitespace name

unfoldable pub rename_file : (ℕ → Bool) → ℕ → ℕ → Text → Handler Store (Unit {0})
rename_file io user file_id name = do
  lift (reject_if (is_blank name) bad_request)
  await (io 0)
  update_one (active_of file_id user) (λ f. record f { encrypted_name = name })
