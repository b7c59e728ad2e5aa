-- ===== src/Client/Names.antt =====
-- apps/cli/src/commands/upload.rs: several files, and apps/cli/src/commands/download.rs: a file by its name.
use free_box.Prelude.{
  ℕ, zero, suc, ◌-◌, Bool, ◌&&◌, ◌||◌, Option, none, some, List, [], ◌∷◌, length, drop, bytes_eq,
  ltb, leb, ◌==◌, if◌then◌else◌,
}
use free_box.Outcome.{ok_or, reject_if}
use free_box.Crypto.Aead.{Aead, Bytes}
use free_box.Crypto.Encryption.{FileKey}
use free_box.Server.Files.Keys.{Text, codes}
use free_box.Server.Files.Download.{FileMetaResponse}
use free_box.Server.Auth.Handlers.{strip_prefix}
use free_box.Client.{
  Codecs, FilesApi, Command, unreadable, bad_parallelism, name_not_found, pure, lift, request,
  remote_name, upload_file, ◌>>=◌, ◌>>◌,
}

-- A file on the disk: its name, if it has one in UTF-8, its content, if it can be read, and the key that is
-- drawn for it.
pub record LocalFile : Type 0 where
  pub file_name : Option Text
  pub content : Option Bytes
  pub key : FileKey

-- `trim_start_matches`: rounds, as many as the text has bytes at most
abbrev pub trim_rounds : ℕ → Text → Text → Text
trim_rounds zero prefix text = text
trim_rounds (suc n) prefix text = elim (strip_prefix prefix text) [
  | none ↦ text
  | some rest ↦ trim_rounds n prefix rest
]

abbrev pub trim_start_matches : Text → Text → Text
trim_start_matches prefix text = trim_rounds (length text) prefix text

abbrev pub ends_with : Text → Text → Bool
ends_with suffix text =
    leb (length suffix) (length text) && bytes_eq (drop (length text - length suffix) text) suffix

abbrev pub normalised : Text → Text
normalised name = trim_start_matches (codes "/") (trim_start_matches (codes "remote://") name)

module _ (codecs : Codecs) where
  -- the name in UTF-8, or nothing
  abbrev pub decoded_name : Option Bytes → Text
  decoded_name none = []
  decoded_name (some bytes) = if codecs.is_utf8 bytes then bytes else []

  abbrev pub is_named : Text → FileMetaResponse → Bool
  is_named needle f =
      let name = normalised (decoded_name (codecs.base64_decode f.encrypted_name)) in
      bytes_eq name needle || ends_with (b'/' ∷ needle) name

  abbrev pub first_named : Text → List FileMetaResponse → Option ℕ
  first_named needle [] = none
  first_named needle (f ∷ fs) = if is_named needle f then some f.file_id else first_named needle fs

  module _ (aead : Aead) {S : Type 0} (api : FilesApi S) where
    -- the loop: an error stops it, and the files before it stay uploaded
    unfoldable pub upload_each : Text → List LocalFile → Command S (List ℕ)
    unfolding upload_file remote_name
    upload_each destination [] = pure []
    upload_each destination (f ∷ fs) = do
      plaintext ← lift (ok_or f.content unreadable)
      name ← lift (remote_name destination f.file_name)
      file_id ← upload_file codecs aead api f.key name plaintext
      rest ← upload_each destination fs
      pure (file_id ∷ rest)

    unfoldable pub upload_files : ℕ → Text → List LocalFile → Command S (List ℕ)
    unfolding upload_each
    upload_files parallelism destination files = do
      lift (reject_if (parallelism == 0 || ltb 16 parallelism) bad_parallelism)
      upload_each destination files

    unfoldable pub resolve_name_to_id : Text → Command S ℕ
    unfolding strip_prefix
    resolve_name_to_id name = do
      page ← request api.list_files
      lift (ok_or (first_named (normalised name) page.files) name_not_found)
