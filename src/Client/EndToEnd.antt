-- ===== src/Client/EndToEnd.antt =====
-- apps/cli/src/commands/upload.rs, then apps/cli/src/commands/download.rs, through the handlers of
-- apps/server/src/api/files.rs.
use free_box.Prelude.{
  ℕ, zero, suc, ◌+◌, ◌*◌, ◌≤◌, ◌<◌, ◌≡◌, refl, ap, ◌∙◌, true, false, Option, some, List, [], ◌∷◌,
  length, arith,
}
use free_box.Outcome.{Result, ok, err}
use free_box.Crypto.Aead.{Aead, Bytes}
use free_box.Crypto.Encryption.{FileKey, ChunkCiphertext, chunk_size, encrypt_chunk}
use free_box.Server.Error.{AppError}
use free_box.Server.Files.Keys.{
  Text, UuidText, u32_limit, max_upload_chunk_body_bytes, parse_chunk_index, to_string,
}
use free_box.Server.Files.Keys.Parse.{parse_chunk_index-to_string}
use free_box.Server.Files.State.{Store, has_file}
use free_box.Server.Files.Upload.{
  upload_init, upload_chunk, upload_complete, is_empty, upload_chunk_size,
}
use free_box.Server.Files.Upload.Init.{IsFresh}
use free_box.Server.Files.Download.{download_chunk}
use free_box.Server.Files.Download.EndToEnd.{calm, send_upto, upload_protocol, get_file_meta-upload}
use free_box.Client.{
  Codecs, answered, encrypt_plaintext, request_of, prepared_of, prepare_upload, send_all,
  upload_file, fetch_chunks, download_file, file_name, default_file_name, file_key_from_envelope,
}
use free_box.Client.Sending.{server_api, id_of, Counted, encrypt_plaintext_lem}

abbrev body_at : Codecs → List ChunkCiphertext → ℕ → Bytes
body_at codecs [] k = 0 ∷ []
body_at codecs (c ∷ cs) zero = codecs.to_vec c
body_at codecs (c ∷ cs) (suc k) = body_at codecs cs k

body_at_fits :
    (codecs : Codecs) (i : ℕ) (cs : List ChunkCiphertext)
    → Counted codecs i cs
    → (k : ℕ)
    → (is_empty (body_at codecs cs k) ≡ false)
      × (length (body_at codecs cs k) ≤ max_upload_chunk_body_bytes)
body_at_fits codecs i [] h k = (refl, omega arith)
body_at_fits codecs i (c ∷ cs) h zero = (h.1, h.2)
body_at_fits codecs i (c ∷ cs) h (suc k) = body_at_fits codecs (i + 1) cs h.3 k

-- The chunks with indices from `i` are written as the bodies from `i`.
abbrev Agrees : Codecs → (ℕ → Bytes) → ℕ → List ChunkCiphertext → Type 0
Agrees codecs body i [] = Unit {0}
Agrees codecs body i (c ∷ cs) =
    (c.index ≡ i) × (codecs.to_vec c ≡ body i) × Agrees codecs body (i + 1) cs

Agrees-body :
    (codecs : Codecs) (body : ℕ → Bytes) (i : ℕ) (cs : List ChunkCiphertext)
    → Counted codecs i cs
    → ((k : ℕ) → body_at codecs cs k ≡ body (i + k))
    → Agrees codecs body i cs
Agrees-body codecs body i [] h e = tt
Agrees-body codecs body i (c ∷ cs) h e = (
  h.0,
  e 0 ∙ ap body (omega arith),
  Agrees-body codecs body (i + 1) cs h.3 (λ k. e (suc k) ∙ ap body (omega arith)),
)

answered_ok :
    {A S : Type 0} (r : Result AppError A × S) (a : A) → r.0 ≡ ok a → answered r ≡ (ok a, r.1)
answered_ok (ok b, s) a h = let same : b ≡ a = cc h in rw same refl
answered_ok (err e, s) a h = cc h

id_of_ok :
    (r : Result AppError (ℕ × ℕ) × Store) (id size : ℕ)
    → r.0 ≡ ok (id, size)
    → id_of r ≡ (ok id, r.1)
id_of_ok (ok (a, b), s) id size h = let same : a ≡ id = cc h in rw same refl
id_of_ok (err e, s) id size h = cc h

module _ (uuid : UuidText) (user id now : ℕ) (codecs : Codecs) (aead : Aead) where
  abbrev header : ℕ → Option Text
  header k = some (to_string k)

  next_lem :
      (body : ℕ → Bytes) (i : ℕ) (s : Store)
      → (upload_chunk uuid calm user id
          (header i)
          (body i)
          (send_upto uuid user id header body i s)).1
        ≡ send_upto uuid user id header body (suc i) s
  unfolding send_upto
  next_lem body i s = refl

  send_all_lem :
      (body : ℕ → Bytes) (i : ℕ) (cs : List ChunkCiphertext) (s : Store)
      → Agrees codecs body i cs
      → ((k : ℕ)
          → k < i + length cs
          → (upload_chunk uuid calm user id
              (header k)
              (body k)
              (send_upto uuid user id header body k s)).0
            ≡ ok tt)
      → send_all codecs aead
          (server_api uuid user id now)
          id
          cs
          (send_upto uuid user id header body i s)
        ≡ (ok tt, send_upto uuid user id header body (i + length cs) s)
  unfolding send_all
  send_all_lem body i [] s h each =
      ap (λ k. (ok tt, send_upto uuid user id header body k s)) (omega arith)
  send_all_lem body i (c ∷ cs) s h each =
      let here = send_upto uuid user id header body i s in
      let r = upload_chunk uuid calm user id (header i) (body i) here in
      let first = answered_ok r tt (each i (omega arith)) in
      let step : r.1 ≡ send_upto uuid user id header body (i + 1) s =
        next_lem body i s ∙ ap (λ k. send_upto uuid user id header body k s) (omega arith) in
      let rest = send_all_lem body (i + 1) cs s h.2 (λ k l. each k (omega arith)) in
      let longer : i + 1 + length cs ≡ i + suc (length cs) = omega arith in
      rw (h.1, h.0, first, step, rest)
        (ap (λ k. (ok tt, send_upto uuid user id header body k s)) longer)

  send_all_from_start :
      (body : ℕ → Bytes) (cs : List ChunkCiphertext) (s : Store)
      → Agrees codecs body 0 cs
      → ((k : ℕ)
          → k < length cs
          → (upload_chunk uuid calm user id
              (header k)
              (body k)
              (send_upto uuid user id header body k s)).0
            ≡ ok tt)
      → send_all codecs aead (server_api uuid user id now) id cs s
        ≡ (ok tt, send_upto uuid user id header body (length cs) s)
  unfolding send_upto
  send_all_from_start body cs s h each =
      let whole : 0 + length cs ≡ length cs = omega arith in
      send_all_lem body 0 cs s h (λ k l. each k (omega arith))
      ∙ ap (λ k. (ok tt, send_upto uuid user id header body k s)) whole

  fetch_chunks_lem :
      (body : ℕ → Bytes) (i : ℕ) (cs : List ChunkCiphertext) (s : Store)
      → Agrees codecs body i cs
      → ((k : ℕ) → k < i + length cs → download_chunk uuid calm user id k s ≡ (ok (body k), s))
      → fetch_chunks codecs aead (server_api uuid user id now) id i (length cs) s ≡ (ok cs, s)
  unfolding fetch_chunks
  fetch_chunks_lem body i [] s h each = refl
  fetch_chunks_lem body i (c ∷ cs) s h each =
      let decoded : codecs.from_slice (body i) ≡ some c = rw (← h.1) (codecs.from_slice-to_vec c) in
      let rest = fetch_chunks_lem body (i + 1) cs s h.2 (λ k l. each k (omega arith)) in
      rw (each i (omega arith), decoded, rest) refl

  module _ (key : FileKey) (remote : Text) (plaintext : Bytes) (s : Store)
      (small : (i : ℕ) (text : Bytes) (c : ChunkCiphertext)
        → encrypt_chunk aead key i text ≡ ok c
        → (is_empty (codecs.to_vec c) ≡ false)
          × (length (codecs.to_vec c) ≤ max_upload_chunk_body_bytes))
      (key_length : length key.bytes ≡ 32) (named : codecs.is_utf8 remote ≡ true)
      (limited : length plaintext < 2147483646 * chunk_size) (fresh : IsFresh uuid id s)
      (free : has_file id s.files ≡ false) where
    prepared_lem :
        (cs : List ChunkCiphertext)
        → encrypt_plaintext aead key plaintext ≡ ok cs
        → length cs < u32_limit
        → prepare_upload codecs aead key remote plaintext
          ≡ ok (prepared_of codecs aead key remote plaintext cs)
    unfolding prepare_upload
    prepared_lem cs e h = rw e (ground arith)

    envelope_lem : file_key_from_envelope codecs (codecs.base64_encode key.bytes) ≡ ok key
    unfolding file_key_from_envelope
    envelope_lem = rw (codecs.base64_decode-base64_encode key.bytes, key_length) refl

    name_lem : default_file_name codecs (codecs.base64_encode remote) ≡ ok (file_name remote)
    unfolding default_file_name
    name_lem = rw (codecs.base64_decode-base64_encode remote, named) refl

    -- Take a key of 32 bytes, a remote name in UTF-8, a file of fewer bytes than 2,147,483,646 chunks of 4 MiB
    -- hold, an id that the server has not used, and a JSON encoding that is never empty nor longer than 32 MiB
    -- for a chunk.
    -- When all calls answer, the upload succeeds with that id, and a download of the id then gives the
    -- file's content under the last part of the remote name.
    pub download_file-upload_file :
        let api = server_api uuid user id now in
        let up = upload_file codecs aead api key remote plaintext s in
        (up.0 ≡ ok id)
        × (download_file codecs aead api id up.1 ≡ (ok (file_name remote, plaintext), up.1))
    unfolding upload_file download_file
    download_file-upload_file =
        let (cs, e, d, counted, some_chunk, most) =
          encrypt_plaintext_lem codecs aead key small plaintext in
        let req = request_of (prepared_of codecs aead key remote plaintext cs) in
        let body = body_at codecs cs in
        let few : length cs < 2147483648 = omega (arith, most, limited) in
        let parsed : (k : ℕ) → k < length cs → parse_chunk_index (header k) ≡ ok k =
          λ k h. parse_chunk_index-to_string k (omega arith) in
        let agrees = Agrees-body codecs body 0 cs counted (λ k. ap body (omega arith)) in
        let fits = body_at_fits codecs 0 cs counted in
        let protocol =
          upload_protocol uuid user id header body req s.files fits few now s some_chunk
            (omega arith) fresh free refl parsed in
        let api = server_api uuid user id now in
        let begun = upload_init calm user id req s in
        let sent = send_upto uuid user id header body (length cs) begun.1 in
        let done = upload_complete calm now user id sent in
        let sending = send_all_from_start body cs begun.1 agrees (λ k h. (protocol k h).1) in
        let uploaded : upload_file codecs aead api key remote plaintext s ≡ (ok id, done.1) =
          rw
            (
              prepared_lem cs e (omega arith),
              id_of_ok begun id upload_chunk_size (protocol 0 some_chunk).0,
              sending,
              answered_ok done id (protocol 0 some_chunk).2,
            )
            refl in
        let described =
          get_file_meta-upload uuid user id header body req s.files fits few now s some_chunk
            (omega arith) fresh free refl parsed in
        let fetched =
          fetch_chunks_lem body 0 cs done.1 agrees (λ k h. (protocol k (omega arith)).3) in
        rw uploaded (refl, rw (described, envelope_lem, fetched, d, name_lem) refl)
