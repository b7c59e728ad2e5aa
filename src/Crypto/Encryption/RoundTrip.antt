-- ===== src/Crypto/Encryption/RoundTrip.antt =====
-- packages/crypto/src/encryption.rs: decryption undoes encryption, chunk by chunk and for a file.
use free_box.Prelude.{
  ℕ, zero, suc, ◌+◌, ◌*◌, ◌≤◌, ◌<◌, ◌≡◌, refl, ap, sym, ◌∙◌, List, [], ◌∷◌, ◌++◌, length, drop, All,
  append-nil, append_assoc, length-drop, arith,
}
use free_box.Prelude.Digits.{length-digits_be}
use free_box.Outcome.{ok}
use free_box.Crypto.Aead.{Aead, Bytes}
use free_box.Crypto.Encryption.{
  FileKey, ChunkCiphertext, chunk_size, nonce_of, encrypt_chunk, decrypt_chunk, encrypt_from,
  encrypt_file, decrypt_from, decrypt_file, chunks, chunks_within,
}
use free_box.Crypto.Encryption.Chunks.{concat, concat-chunks, All-chunks}

pub length-nonce_of : (i : ℕ) → length (nonce_of i) ≡ 12
unfolding nonce_of
length-nonce_of i = omega (arith, length-digits_be 256 8 i)

-- A chunk count: neither short of the text nor with an empty chunk too many.
chunks_within_count :
    (rounds : ℕ) (xs : Bytes)
    → length xs ≤ rounds
    → (length xs ≤ length (chunks_within rounds chunk_size xs) * chunk_size)
      × (length (chunks_within rounds chunk_size xs) * chunk_size < length xs + chunk_size)
unfolding chunks_within
chunks_within_count zero xs h = omega arith
chunks_within_count (suc rounds) [] h = omega arith
chunks_within_count (suc rounds) (x ∷ xs) h = omega (
  arith,
  length-drop chunk_size (x ∷ xs),
  chunks_within_count rounds (drop chunk_size (x ∷ xs))
      (omega (arith, length-drop chunk_size (x ∷ xs))),
)

chunks_count :
    (xs : Bytes)
    → (length xs ≤ length (chunks chunk_size xs) * chunk_size)
      × (length (chunks chunk_size xs) * chunk_size < length xs + chunk_size)
unfolding chunks
chunks_count xs = chunks_within_count (length xs) xs (omega arith)

module _ (aead : Aead) where
  -- A chunk that fits encrypts, and decrypts at the index that it was encrypted at.
  pub decrypt_chunk-encrypt_chunk :
      (key : FileKey) (i : ℕ) (text : Bytes)
      → length text ≤ chunk_size
      → (c : ChunkCiphertext) × (encrypt_chunk aead key i text ≡ ok c)
        × (decrypt_chunk aead key i c ≡ ok text)
  unfolding encrypt_chunk decrypt_chunk
  decrypt_chunk-encrypt_chunk key i text h =
      let (c, e) = aead.encrypt_total key.bytes (nonce_of i) text (omega arith) in
      (
        record { index = i; nonce = nonce_of i; ciphertext = c },
        ground (arith, e),
        ground (arith, length-nonce_of i, aead.decrypt-encrypt key.bytes (nonce_of i) text c e),
      )

  decrypt_from-encrypt_from :
      (key : FileKey) (i : ℕ) (texts : List Bytes) (before : Bytes)
      → All (λ t. length t ≤ chunk_size) texts
      → (cs : List ChunkCiphertext) × (encrypt_from aead key i texts ≡ ok cs)
        × (decrypt_from aead key i cs before ≡ ok (before ++ concat texts))
        × (length cs ≡ length texts)
  unfolding encrypt_from decrypt_from concat
  decrypt_from-encrypt_from key i [] before h = ([], refl, ap ok (sym (append-nil before)), refl)
  decrypt_from-encrypt_from key i (t ∷ ts) before h =
      let (c, e, d) = decrypt_chunk-encrypt_chunk key i t h.0 in
      let (cs, es, ds, n) = decrypt_from-encrypt_from key (i + 1) ts (before ++ t) h.1 in
      (c ∷ cs, rw (e, es), rw d (ds ∙ ap ok (append_assoc before t (concat ts))), ap suc n)

  -- Encrypting a file of any length succeeds, decrypting the chunks gives the file back, and there
  -- are as few chunks of `chunk_size` as can hold the file.
  pub decrypt_file-encrypt_file :
      (key : FileKey) (plaintext : Bytes)
      → (cs : List ChunkCiphertext) × (encrypt_file aead key plaintext ≡ ok cs)
        × (decrypt_file aead key cs ≡ ok plaintext)
        × (length plaintext ≤ length cs * chunk_size)
        × (length cs * chunk_size < length plaintext + chunk_size)
  unfolding encrypt_file decrypt_file
  decrypt_file-encrypt_file key plaintext =
      let (cs, e, d, n) =
        decrypt_from-encrypt_from key 0 (chunks chunk_size plaintext) []
          (All-chunks chunk_size plaintext) in
      (
        cs,
        e,
        d ∙ ap ok (concat-chunks chunk_size plaintext (omega arith)),
        omega (arith, n, chunks_count plaintext),
        omega (arith, n, chunks_count plaintext),
      )
