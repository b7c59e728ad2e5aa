-- ===== src/Crypto/Encryption.antt =====
-- packages/crypto/src/encryption.rs: chunked file encryption. An `anyhow` error is the branch that
-- made it. The cipher is the parameter `aead`.
pub mod Chunks
pub mod RoundTrip
pub mod Binding
mod Tests
use free_box.Prelude.{
  ℕ, zero, suc, ◌+◌, ◌*◌, Bool, not, List, [], ◌∷◌, ◌++◌, length, take, drop, replicate, ltb, ◌==◌,
}
use free_box.Prelude.Digits.{digits_be}
use free_box.Outcome.{Result, ok, err, reject_if, ok_or, ◌>>=◌, ◌>>◌}
use free_box.Crypto.Aead.{Aead, Bytes}

abbrev pub chunk_size : ℕ
chunk_size = 4 * 1024 * 1024

pub record FileKey : Type 0 where
  pub bytes : Bytes

pub record ChunkCiphertext : Type 0 where
  pub index : ℕ
  pub nonce : Bytes
  pub ciphertext : Bytes

pub data CryptoError : Type 0 where
  oversized index_mismatch nonce_length encrypt_failed authentication_failed : CryptoError

-- `[4 zero bytes | 8-byte big-endian index]`
unfoldable pub nonce_of : ℕ → Bytes
nonce_of index = replicate 4 0 ++ digits_be 256 8 index

-- `slice::chunks`: rounds of `take` and `drop`, as many as there are elements at most.
unfoldable pub chunks_within {ℓ} : {A : Type ℓ} → ℕ → ℕ → List A → List (List A)
chunks_within zero size xs = []
chunks_within (suc rounds) size [] = []
chunks_within (suc rounds) size (x ∷ xs) =
    take size (x ∷ xs) ∷ chunks_within rounds size (drop size (x ∷ xs))

unfoldable pub chunks {ℓ} : {A : Type ℓ} → ℕ → List A → List (List A)
unfolding chunks_within
chunks size xs = chunks_within (length xs) size xs

module _ (aead : Aead) where
  unfoldable pub encrypt_chunk : FileKey → ℕ → Bytes → Result CryptoError ChunkCiphertext
  unfolding nonce_of
  encrypt_chunk key index text = do
    reject_if (ltb chunk_size (length text)) oversized
    let nonce = nonce_of index
    ciphertext ← ok_or (aead.encrypt key.bytes nonce text) encrypt_failed
    ok (record { index = index; nonce = nonce; ciphertext = ciphertext })

  unfoldable pub decrypt_chunk : FileKey → ℕ → ChunkCiphertext → Result CryptoError Bytes
  decrypt_chunk key expected chunk = do
    reject_if (not (chunk.index == expected)) index_mismatch
    reject_if (not (length chunk.nonce == 12)) nonce_length
    ok_or (aead.decrypt key.bytes chunk.nonce chunk.ciphertext) authentication_failed

  -- `.enumerate().map(..).collect()`, from index `i`
  unfoldable pub encrypt_from : FileKey → ℕ → List Bytes → Result CryptoError (List ChunkCiphertext)
  encrypt_from key i [] = ok []
  encrypt_from key i (text ∷ texts) = do
    chunk ← encrypt_chunk key i text
    rest ← encrypt_from key (i + 1) texts
    ok (chunk ∷ rest)

  unfoldable pub encrypt_file : FileKey → Bytes → Result CryptoError (List ChunkCiphertext)
  encrypt_file key plaintext = encrypt_from key 0 (chunks chunk_size plaintext)

  -- the loop of `decrypt_file`
  unfoldable pub decrypt_from :
      FileKey → ℕ → List ChunkCiphertext → Bytes → Result CryptoError Bytes
  decrypt_from key i [] plaintext = ok plaintext
  decrypt_from key i (chunk ∷ rest) plaintext = do
    decrypted ← decrypt_chunk key i chunk
    decrypt_from key (i + 1) rest (plaintext ++ decrypted)

  unfoldable pub decrypt_file : FileKey → List ChunkCiphertext → Result CryptoError Bytes
  unfolding decrypt_from
  decrypt_file key cs = decrypt_from key 0 cs []
