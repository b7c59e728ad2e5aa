-- ===== src/Client/Tests.antt =====
-- A file of three bytes, uploaded and downloaded. A chunk is encoded as its index, the length of its nonce,
-- the nonce and the ciphertext; base64 is the identity.
use free_box.Prelude.{
  ℕ, ◌+◌, ◌≡◌, ◌≤◌, refl, subst, Bool, true, false, Option, none, some, [], ◌∷◌, ◌++◌, length, take,
  drop, replicate, bytes_eq, ltb, length-append, arith,
}
use free_box.Outcome.{ok, reject_if, ◌>>◌}
use free_box.Crypto.Aead.{Bytes}
use free_box.Crypto.Toy.{toy, total}
use free_box.Crypto.Encryption.{
  FileKey, ChunkCiphertext, oversized, chunk_size, nonce_of, encrypt_chunk,
}
use free_box.Crypto.Encryption.RoundTrip.{length-nonce_of}
use free_box.Server.Files.Keys.{UuidText, codes, max_upload_chunk_body_bytes}
use free_box.Server.Files.State.{empty}
use free_box.Server.Files.Upload.{is_empty}
use free_box.Server.Files.Upload.Init.{IsFresh}
use free_box.Client.{Codecs, upload_file, download_file, file_name}
use free_box.Client.Sending.{server_api}
use free_box.Client.Names.{normalised, ends_with}
use free_box.Server.Auth.Handlers.{strip_prefix}
use free_box.Client.EndToEnd.{download_file-upload_file}

take-length : (xs ys : Bytes) → take (length xs) (xs ++ ys) ≡ xs
take-length [] ys = refl
take-length (x ∷ xs) ys = rw (take-length xs ys) refl

drop-length : (xs ys : Bytes) → drop (length xs) (xs ++ ys) ≡ ys
drop-length [] ys = refl
drop-length (x ∷ xs) ys = drop-length xs ys

abbrev write_chunk : ChunkCiphertext → Bytes
write_chunk c = c.index ∷ length c.nonce ∷ c.nonce ++ c.ciphertext

abbrev read_chunk : Bytes → Option ChunkCiphertext
read_chunk [] = none
read_chunk (i ∷ []) = none
read_chunk (i ∷ n ∷ bs) = some (record { index = i; nonce = take n bs; ciphertext = drop n bs })

read_chunk-write_chunk : (c : ChunkCiphertext) → read_chunk (write_chunk c) ≡ some c
read_chunk-write_chunk c =
    rw (take-length c.nonce c.ciphertext, drop-length c.nonce c.ciphertext) refl

abbrev codecs : Codecs
codecs = record {
  base64_encode = λ bs. bs;
  base64_decode = λ t. some t;
  base64_decode-base64_encode = λ bs. refl;
  to_vec = write_chunk;
  from_slice = read_chunk;
  from_slice-to_vec = read_chunk-write_chunk;
  hash_hex = λ bs. [];
  is_utf8 = λ bs. true;
}

head_same : (a b : ℕ) (xs ys : Bytes) → a ∷ xs ≡ b ∷ ys → a ≡ b
head_same a b xs ys h = cc

abbrev uuid : UuidText
uuid = record {
  text = λ id. id ∷ replicate 35 0;
  length-text = λ id. refl;
  text_injective = λ a b. head_same a b (replicate 35 0) (replicate 35 0);
}

abbrev key : FileKey
key = record { bytes = replicate 32 7 }

length-write_chunk :
    (i tag : ℕ) (text : Bytes) (b : Bool) (c : ChunkCiphertext)
    → ltb chunk_size (length text) ≡ b
    → (reject_if b oversized
        >> ok (record { index = i; nonce = nonce_of i; ciphertext = tag ∷ text }))
      ≡ ok c
    → length (write_chunk c) ≤ max_upload_chunk_body_bytes
length-write_chunk i tag text true c e h = cc h
length-write_chunk i tag text false c e h =
    let made : ChunkCiphertext = record {
      index = i;
      nonce = nonce_of i;
      ciphertext = tag ∷ text;
    } in
    let same : made ≡ c = cc h in
    subst (λ d. length (write_chunk d) ≤ max_upload_chunk_body_bytes) same
      (ground (arith, length-append (nonce_of i) (tag ∷ text), length-nonce_of i))

small :
    (i : ℕ) (text : Bytes) (c : ChunkCiphertext)
    → encrypt_chunk toy key i text ≡ ok c
    → (is_empty (write_chunk c) ≡ false) × (length (write_chunk c) ≤ max_upload_chunk_body_bytes)
unfolding encrypt_chunk
small i text c h = (
  refl,
  length-write_chunk i (total key.bytes + total (nonce_of i)) text (ltb chunk_size (length text)) c
      refl h,
)

abbrev remote : Bytes
remote = codes "docs/report.pdf"

abbrev plaintext : Bytes
plaintext = 1 ∷ 2 ∷ 3 ∷ []

fresh : IsFresh uuid 7 empty
fresh = record { unused = refl; unstored = λ i. refl }

download_file-upload_file_example :
    let api = server_api uuid 5 7 99 in
    let up = upload_file codecs toy api key remote plaintext empty in
    (up.0 ≡ ok 7)
    × (download_file codecs toy api 7 up.1 ≡ (ok (codes "report.pdf", plaintext), up.1))
unfolding file_name
download_file-upload_file_example =
    download_file-upload_file uuid 5 7 99 codecs toy key remote plaintext empty small refl refl
      (omega arith) fresh refl

name_without_scheme : normalised (codes "remote:///docs/a") ≡ codes "docs/a"
unfolding strip_prefix
name_without_scheme = refl

last_part_is_enough : ends_with (codes "/a") (codes "docs/a") ≡ true
unfolding bytes_eq
last_part_is_enough = refl
