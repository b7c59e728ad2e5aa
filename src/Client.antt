-- ===== src/Client.antt =====
-- apps/cli/src/commands/upload.rs and download.rs: a file goes to the server and comes back. Paths, progress
-- bars and the session are left out; the requests of `buffer_unordered` are made one after the other.
pub mod Session
pub mod Sending
pub mod Names
pub mod Sources
mod Tests
pub mod EndToEnd
use free_box.Prelude.{
  ℕ, zero, suc, ◌+◌, ◌≡◌, Bool, bytes_eq, true, false, not, Option, none, some, List, [], ◌∷◌, ◌++◌,
  length, ltb, ◌==◌, if◌then◌else◌,
}
use free_box.Outcome
use free_box.Outcome.{Result, ok, err, ok_or, reject_if}
use free_box.Crypto.Aead.{Aead, Bytes}
use free_box.Crypto.Encryption.{
  CryptoError, FileKey, ChunkCiphertext, encrypt_chunk, encrypt_file, decrypt_file,
}
use free_box.Server.Error.{AppError}
use free_box.Server.Files.Keys.{Text, codes, u32_limit, to_string}
use free_box.Texts.{trim_end_slashes}
use free_box.Server.Files.Upload.{UploadInitRequest}
use free_box.Server.Files.Download.{FileMetaResponse, FileListResponse}

-- The `anyhow` errors.
pub data CliError : Type 0 where
  http : AppError → CliError
  crypto : CryptoError → CliError
  bad_base64 bad_key_length bad_json bad_utf8 too_many_chunks no_file_name : CliError
  unreadable bad_parallelism name_not_found : CliError

-- The crates `base64`, `serde_json` and `blake3`, and `String::from_utf8`.
pub record Codecs : Type 0 where
  pub base64_encode : Bytes → Text
  pub base64_decode : Text → Option Bytes
  pub base64_decode-base64_encode : (bs : Bytes) → base64_decode (base64_encode bs) ≡ some bs
  pub to_vec : ChunkCiphertext → Bytes
  pub from_slice : Bytes → Option ChunkCiphertext
  pub from_slice-to_vec : (c : ChunkCiphertext) → from_slice (to_vec c) ≡ some c
  pub hash_hex : Bytes → Text
  pub is_utf8 : Bytes → Bool

-- The server's file API, for one user: what the client calls.
pub record FilesApi (S : Type 0) : Type 0 where
  pub upload_init : UploadInitRequest → S → Result AppError ℕ × S
  pub upload_chunk : ℕ → Option Text → Bytes → S → Result AppError (Unit {0}) × S
  pub upload_complete : ℕ → S → Result AppError ℕ × S
  pub get_file_meta : ℕ → S → Result AppError FileMetaResponse × S
  pub download_chunk : ℕ → ℕ → S → Result AppError Bytes × S
  pub list_files : S → Result AppError FileListResponse × S

-- A command reads and writes the server's state and may stop with an error.
abbrev pub Command : Type 0 → Type 0 → Type 0
Command S A = S → Result CliError A × S

module _ {S A : Type 0} where
  abbrev pub pure : A → Command S A
  pure a s = (ok a, s)

  abbrev pub lift : Result CliError A → Command S A
  lift r s = (r, s)

  abbrev pub answered : Result AppError A × S → Result CliError A × S
  answered (ok a, s) = (ok a, s)
  answered (err e, s) = (err (http e), s)

  -- a request and `error_for_status`
  abbrev pub request : (S → Result AppError A × S) → Command S A
  request call s = answered (call s)

module _ {S A B : Type 0} where
  abbrev pub continue : Result CliError A → S → (A → Command S B) → Result CliError B × S
  continue (ok a) s f = f a s
  continue (err e) s f = (err e, s)

  infixl 5 ◌>>=◌
  abbrev pub ◌>>=◌ : Command S A → (A → Command S B) → Command S B
  ◌>>=◌ m f s = let (r, s') = m s in continue r s' f

module _ {S B : Type 0} where
  infixl 5 ◌>>◌
  abbrev pub ◌>>◌ : Command S (Unit {0}) → Command S B → Command S B
  m >> n = m >>= λ _. n

abbrev pub crypto_error : {A : Type 0} → Result CryptoError A → Result CliError A
crypto_error (ok a) = ok a
crypto_error (err e) = err (crypto e)

unfoldable pub remote_name : Text → Option Text → Result CliError Text
unfolding trim_end_slashes
remote_name destination none = err no_file_name
remote_name destination (some file_name) =
    let folder = trim_end_slashes destination in
    if bytes_eq folder []
    then ok file_name
    else if bytes_eq folder (codes "remote:")
    then ok file_name
    else if bytes_eq folder (codes "remote://")
    then ok file_name
    else ok (folder ++ b'/' ∷ file_name)

pub record PreparedUpload : Type 0 where
  pub total_chunks : ℕ
  pub size_bytes : ℕ
  pub encrypted_key_envelope : Text
  pub content_hash : Text
  pub encrypted_name : Text
  pub chunks : List ChunkCiphertext

abbrev pub request_of : PreparedUpload → UploadInitRequest
request_of p = record {
  total_chunks = p.total_chunks;
  size_bytes = p.size_bytes;
  encrypted_key_envelope = p.encrypted_key_envelope;
  content_hash = p.content_hash;
  encrypted_name = p.encrypted_name;
}

-- `rsplit('/')` and the last part that is not empty
abbrev pub push_part : ℕ → List Text → List Text
push_part c [] = (c ∷ []) ∷ []
push_part c (p ∷ ps) = (c ∷ p) ∷ ps

unfoldable pub parts : Text → List Text
parts [] = [] ∷ []
parts (c ∷ cs) = let rest = parts cs in if c == b'/' then [] ∷ rest else push_part c rest

abbrev pub later_or : Text → Option Text → Option Text
later_or p (some q) = some q
later_or [] none = none
later_or (c ∷ cs) none = some (c ∷ cs)

unfoldable pub last_part : List Text → Option Text
last_part [] = none
last_part (p ∷ ps) = later_or p (last_part ps)

abbrev pub or_download_bin : Option Text → Text
or_download_bin none = codes "download.bin"
or_download_bin (some t) = t

unfoldable pub file_name : Text → Text
unfolding parts last_part
file_name remote_name = or_download_bin (last_part (parts remote_name))

module _ (aead : Aead) where
  unfoldable pub encrypt_plaintext : FileKey → Bytes → Result CryptoError (List ChunkCiphertext)
  encrypt_plaintext key [] = Outcome.◌>>=◌ (encrypt_chunk aead key 0 []) (λ chunk. ok (chunk ∷ []))
  encrypt_plaintext key (b ∷ bs) = encrypt_file aead key (b ∷ bs)

module _ (codecs : Codecs) where
  unfoldable pub default_file_name : Text → Result CliError Text
  unfolding file_name
  default_file_name encrypted_name =
      Outcome.◌>>=◌ (ok_or (codecs.base64_decode encrypted_name) bad_base64) (λ decoded.
        Outcome.◌>>◌ (reject_if (not (codecs.is_utf8 decoded)) bad_utf8) (ok (file_name decoded)))

  unfoldable pub file_key_from_envelope : Text → Result CliError FileKey
  file_key_from_envelope envelope =
      Outcome.◌>>=◌ (ok_or (codecs.base64_decode envelope) bad_base64) (λ bytes.
        Outcome.◌>>◌ (reject_if (not (length bytes == 32)) bad_key_length)
          (ok (record { bytes = bytes })))

  module _ (aead : Aead) where
    abbrev pub prepared_of : FileKey → Text → Bytes → List ChunkCiphertext → PreparedUpload
    prepared_of key remote_name plaintext chunks = record {
      total_chunks = length chunks;
      size_bytes = length plaintext;
      encrypted_key_envelope = codecs.base64_encode key.bytes;
      content_hash = codecs.hash_hex plaintext;
      encrypted_name = codecs.base64_encode remote_name;
      chunks = chunks;
    }

    -- with the key that `FileKey::generate` draws
    unfoldable pub prepare_upload : FileKey → Text → Bytes → Result CliError PreparedUpload
    unfolding encrypt_plaintext
    prepare_upload key remote_name plaintext =
        Outcome.◌>>=◌ (crypto_error (encrypt_plaintext aead key plaintext)) (λ chunks.
          Outcome.◌>>◌ (reject_if (not (ltb (length chunks) u32_limit)) too_many_chunks)
            (ok (prepared_of key remote_name plaintext chunks)))

    module _ {S : Type 0} (api : FilesApi S) where
      -- Every chunk is sent, and then the first error counts.
      abbrev pub first_error :
          Result CliError (Unit {0}) → Result CliError (Unit {0}) → Result CliError (Unit {0})
      first_error (ok u) r = r
      first_error (err e) r = err e

      unfoldable pub send_all : ℕ → List ChunkCiphertext → Command S (Unit {0})
      unfolding to_string
      send_all upload_id [] s = (ok tt, s)
      send_all upload_id (c ∷ cs) s =
          let sent =
            request (api.upload_chunk upload_id (some (to_string c.index)) (codecs.to_vec c)) s in
          let rest = send_all upload_id cs sent.1 in (first_error sent.0 rest.0, rest.1)

      unfoldable pub upload_file : FileKey → Text → Bytes → Command S ℕ
      unfolding prepare_upload send_all
      upload_file key remote_name plaintext = do
        prepared ← lift (prepare_upload key remote_name plaintext)
        upload_id ← request (api.upload_init (request_of prepared))
        send_all upload_id prepared.chunks
        request (api.upload_complete upload_id)

      -- the loop over the chunk indices
      unfoldable pub fetch_chunks : ℕ → ℕ → ℕ → Command S (List ChunkCiphertext)
      fetch_chunks file_id from zero = pure []
      fetch_chunks file_id from (suc n) = do
        body ← request (api.download_chunk file_id from)
        chunk ← lift (ok_or (codecs.from_slice body) bad_json)
        rest ← fetch_chunks file_id (from + 1) n
        pure (chunk ∷ rest)

      -- the default name of the output, and what is written to it
      unfoldable pub download_file : ℕ → Command S (Text × Bytes)
      unfolding file_key_from_envelope fetch_chunks default_file_name
      download_file file_id = do
        m ← request (api.get_file_meta file_id)
        key ← lift (file_key_from_envelope m.encrypted_key_envelope)
        chunks ← fetch_chunks file_id 0 m.total_chunks
        plaintext ← lift (crypto_error (decrypt_file aead key chunks))
        name ← lift (default_file_name m.encrypted_name)
        pure (name, plaintext)
