-- ===== src/Crypto/Encryption/Tests.antt =====
-- The theorems on packages/crypto/src/encryption.rs at concrete inputs, with the toy cipher.
use free_box.Prelude.{ℕ, ◌+◌, ◌*◌, ◌≤◌, ◌<◌, ◌≡◌, refl, List, [], ◌∷◌, ◌++◌, length, arith}
use free_box.Prelude.Digits.{digits_be}
use free_box.Outcome.{ok}
use free_box.Crypto.Aead.{Bytes}
use free_box.Crypto.Toy.{toy, total}
use free_box.Crypto.Encryption.{
  FileKey, ChunkCiphertext, chunk_size, encrypt_chunk, decrypt_chunk, encrypt_file, encrypt_from,
  chunks, decrypt_file, nonce_of,
}
use free_box.Crypto.Encryption.RoundTrip.{decrypt_file-encrypt_file}
use free_box.Crypto.Encryption.Binding.{
  decrypt_chunk-relabelled, decrypt_file-truncated, encrypt_file-nonces,
}

abbrev key : FileKey
key = record { bytes = 7 ∷ 9 ∷ [] }

abbrev chunk_at : ℕ → Bytes → ChunkCiphertext
chunk_at i text = record {
  index = i;
  nonce = nonce_of i;
  ciphertext = (total key.bytes + total (nonce_of i)) ∷ text;
}

decrypt_file-encrypt_file_example :
    (cs : List ChunkCiphertext) × (encrypt_file toy key (1 ∷ 2 ∷ 3 ∷ []) ≡ ok cs)
    × (decrypt_file toy key cs ≡ ok (1 ∷ 2 ∷ 3 ∷ []))
    × (3 ≤ length cs * chunk_size)
    × (length cs * chunk_size < 3 + chunk_size)
decrypt_file-encrypt_file_example = decrypt_file-encrypt_file toy key (1 ∷ 2 ∷ 3 ∷ [])

abbrev first : ℕ
first = 0

encrypt_file-nonces_example :
    ((chunk_at 0 (5 ∷ [])).index ≡ first) × ((chunk_at 0 (5 ∷ [])).index ≡ first) × (first ≡ first)
unfolding encrypt_file encrypt_chunk encrypt_from chunks
encrypt_file-nonces_example =
    encrypt_file-nonces toy key (5 ∷ []) (chunk_at 0 (5 ∷ []) ∷ []) 0 0 (chunk_at 0 (5 ∷ []))
      (chunk_at 0 (5 ∷ [])) refl refl refl (omega arith) (omega arith) refl

-- The chunk made for position 1 is accepted at position 0.
decrypt_chunk-relabelled_example :
    decrypt_chunk toy key 0 (record (chunk_at 1 (5 ∷ [])) { index = 0 }) ≡ ok (5 ∷ [])
unfolding encrypt_chunk
decrypt_chunk-relabelled_example =
    decrypt_chunk-relabelled toy key 1 0 (5 ∷ []) (chunk_at 1 (5 ∷ [])) refl

decrypt_file-truncated_example :
    (q r : Bytes) × (decrypt_file toy key (chunk_at 0 (5 ∷ []) ∷ []) ≡ ok q) × (5 ∷ 6 ∷ [] ≡ q ++ r)
unfolding decrypt_file decrypt_chunk nonce_of digits_be
decrypt_file-truncated_example =
    decrypt_file-truncated toy key (chunk_at 0 (5 ∷ []) ∷ []) (chunk_at 1 (6 ∷ []) ∷ [])
      (5 ∷ 6 ∷ []) refl
