-- ===== src/Client/Sending.antt =====
-- The chunks that apps/cli/src/commands/upload.rs sends, and the server that takes them.
use free_box.Prelude.{
  ℕ, ◌+◌, ◌*◌, ◌≤◌, ◌<◌, ◌≡◌, refl, ap, sym, subst, ltb, Bool, true, false, Option, none, some,
  List, [], ◌∷◌, length, arith,
}
use free_box.Outcome.{Result, ok, err, reject_if, ok_or, first_step, ◌>>=◌, ◌>>◌}
use free_box.Crypto.Aead.{Aead, Bytes}
use free_box.Crypto.Encryption.{
  FileKey, nonce_of, oversized, encrypt_failed, ChunkCiphertext, chunk_size, encrypt_chunk,
  encrypt_from, encrypt_file, decrypt_from, decrypt_file, chunks,
}
use free_box.Crypto.Encryption.RoundTrip.{decrypt_chunk-encrypt_chunk, decrypt_file-encrypt_file}
use free_box.Server.Error.{AppError}
use free_box.Server.Files.Keys.{UuidText, max_upload_chunk_body_bytes}
use free_box.Server.Files.State.{Store}
use free_box.Server.Files.Upload.{upload_init, upload_chunk, upload_complete, is_empty}
use free_box.Server.Files.Download.{get_file_meta, download_chunk, list_files}
use free_box.Server.Files.Download.EndToEnd.{calm}
use free_box.Client.{Codecs, FilesApi, encrypt_plaintext}

abbrev pub id_of : Result AppError (ℕ × ℕ) × Store → Result AppError ℕ × Store
id_of (ok (id, size), s) = (ok id, s)
id_of (err e, s) = (err e, s)

-- The handlers of apps/server/src/api/files.rs for one user, whose calls all answer: `id` is the id that
-- `upload_init` draws, and `now` is the time of the completion.
abbrev pub server_api : UuidText → ℕ → ℕ → ℕ → FilesApi Store
server_api uuid user id now = record {
  upload_init = λ req s. id_of (upload_init calm user id req s);
  upload_chunk = upload_chunk uuid calm user;
  upload_complete = upload_complete calm now user;
  get_file_meta = get_file_meta calm user;
  download_chunk = download_chunk uuid calm user;
  list_files = list_files calm user none none;
}

-- Chunks whose indices count up from `i`, each small enough to be sent.
abbrev pub Counted : Codecs → ℕ → List ChunkCiphertext → Type 0
Counted codecs i [] = Unit {0}
Counted codecs i (c ∷ cs) =
    (c.index ≡ i)
    × (is_empty (codecs.to_vec c) ≡ false)
    × (length (codecs.to_vec c) ≤ max_upload_chunk_body_bytes)
    × Counted codecs (i + 1) cs

module _ (codecs : Codecs) (aead : Aead) (key : FileKey)
    (small : (i : ℕ) (text : Bytes) (c : ChunkCiphertext)
      → encrypt_chunk aead key i text ≡ ok c
      → (is_empty (codecs.to_vec c) ≡ false)
        × (length (codecs.to_vec c) ≤ max_upload_chunk_body_bytes)) where
  index_of :
      (i : ℕ) (nonce : Bytes) (b : Bool) (o : Option Bytes) (c : ChunkCiphertext)
      → (reject_if b oversized
          >> (ok_or o encrypt_failed >>= λ text.
              ok (record { index = i; nonce = nonce; ciphertext = text })))
        ≡ ok c
      → c.index ≡ i
  index_of i nonce true o c h = cc h
  index_of i nonce false none c h = cc h
  index_of i nonce false (some text) c h =
      let same : record { index = i; nonce = nonce; ciphertext = text } ≡ c = cc h in
      sym (ap (λ (d : ChunkCiphertext). d.index) same)

  index_lem :
      (i : ℕ) (text : Bytes) (c : ChunkCiphertext)
      → encrypt_chunk aead key i text ≡ ok c
      → c.index ≡ i
  unfolding encrypt_chunk
  index_lem i text c h =
      index_of i (nonce_of i) (ltb chunk_size (length text))
        (aead.encrypt key.bytes (nonce_of i) text) c h

  Counted-encrypt_from :
      (i : ℕ) (texts : List Bytes) (cs : List ChunkCiphertext)
      → encrypt_from aead key i texts ≡ ok cs
      → Counted codecs i cs
  unfolding encrypt_from
  Counted-encrypt_from i [] [] h = tt
  Counted-encrypt_from i [] (c ∷ cs) h = cc h
  Counted-encrypt_from i (t ∷ ts) cs h =
      let (c, first, more) = first_step (encrypt_chunk aead key i t) _ cs h in
      let (rest, second, all) = first_step (encrypt_from aead key (i + 1) ts) _ cs more in
      let same : c ∷ rest ≡ cs = cc all in
      let sized = small i t c first in
      subst (Counted codecs i) same
        (index_lem i t c first, sized.0, sized.1, Counted-encrypt_from (i + 1) ts rest second)

  -- Encrypting a file or nothing at all: one chunk at least, which decrypt to the file.
  pub encrypt_plaintext_lem :
      (plaintext : Bytes)
      → (cs : List ChunkCiphertext) × (encrypt_plaintext aead key plaintext ≡ ok cs)
        × (decrypt_file aead key cs ≡ ok plaintext)
        × Counted codecs 0 cs
        × (0 < length cs)
        × (length cs * chunk_size ≤ length plaintext + chunk_size)
  unfolding encrypt_plaintext encrypt_file decrypt_file decrypt_from
  encrypt_plaintext_lem [] =
      let (c, e, d) = decrypt_chunk-encrypt_chunk aead key 0 [] (omega arith) in
      let sized = small 0 [] c e in
      (
        c ∷ [],
        rw e refl,
        rw d refl,
        (index_lem 0 [] c e, sized.0, sized.1, tt),
        omega arith,
        omega arith,
      )
  encrypt_plaintext_lem (b ∷ bs) =
      let (cs, e, d, least, most) = decrypt_file-encrypt_file aead key (b ∷ bs) in
      (
        cs,
        e,
        d,
        Counted-encrypt_from 0 (chunks chunk_size (b ∷ bs)) cs e,
        omega (arith, least),
        omega (arith, most),
      )
