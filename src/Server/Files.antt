-- ===== src/Server/Files.antt =====
-- apps/server/src/api/files.rs: uploads, downloads, the file list and the trash. `io k` says whether
-- the k-th awaited call of a handler succeeds; `now` is the time that the database reads.
pub mod Keys
pub mod State
pub mod Upload
pub mod Download
pub mod Trash
mod Tests
