-- ===== src/Crypto/Encryption/Binding.antt =====
-- packages/crypto/src/encryption.rs: what a chunk is bound to. The index is bound to the nonce when
-- a chunk is made; `decrypt_chunk` compares the index field alone.
use free_box.Prelude.{
  ℕ, zero, suc, ◌+◌, ◌^◌, ◌<◌, ◌≡◌, ◌↔◌, refl, ap, sym, ◌∙◌, List, [], ◌∷◌, ◌++◌, length, get_elem?,
  drop, some, arith, append_assoc, append-nil,
}
use free_box.Prelude.Digits.{value_from, value-bytes}
use free_box.Outcome.{ok, first_step}
use free_box.Crypto.Aead.{Aead, Bytes}
use free_box.Crypto.Encryption.{
  FileKey, ChunkCiphertext, chunk_size, nonce_of, encrypt_chunk, decrypt_chunk, encrypt_from,
  encrypt_file, decrypt_from, decrypt_file, chunks,
}
use free_box.Crypto.Encryption.RoundTrip.{length-nonce_of}

-- The last eight bytes of the nonce are the index: below 2^64 no two indices share a nonce.
pub nonce_of-injective : (i j : ℕ) → i < 256 ^ 8 → j < 256 ^ 8 → nonce_of i ≡ nonce_of j → i ≡ j
unfolding nonce_of
nonce_of-injective i j hi hj e =
    sym (value-bytes 8 i hi) ∙ ap (value_from 256 0) (ap (drop 4) e) ∙ value-bytes 8 j hj

module _ (aead : Aead) where
  encrypt_chunk-fields :
      (key : FileKey) (i : ℕ) (text : Bytes) {c : ChunkCiphertext}
      → encrypt_chunk aead key i text ≡ ok c
      → (c.index ≡ i)
        × (c.nonce ≡ nonce_of i)
        × (aead.encrypt key.bytes (nonce_of i) text ≡ some c.ciphertext)
  unfolding encrypt_chunk
  encrypt_chunk-fields key i text h = ground arith

  encrypt_from-cons :
      (key : FileKey) (i : ℕ) (t : Bytes) (ts : List Bytes) {cs : List ChunkCiphertext}
      → encrypt_from aead key i (t ∷ ts) ≡ ok cs
      → (c : ChunkCiphertext) × (rest : List ChunkCiphertext) × (encrypt_chunk aead key i t ≡ ok c)
        × (encrypt_from aead key (i + 1) ts ≡ ok rest)
        × (c ∷ rest ≡ cs)
  unfolding encrypt_from
  encrypt_from-cons key i t ts h =
      let (c, e, more) = first_step (encrypt_chunk aead key i t) _ _ h in
      let (rest, es, out) = first_step (encrypt_from aead key (i + 1) ts) _ _ more in
      (c, rest, e, es, cc out)

  encrypt_from-nonce :
      (key : FileKey) (i : ℕ) (texts : List Bytes) (cs : List ChunkCiphertext) (k : ℕ)
      {c : ChunkCiphertext}
      → encrypt_from aead key i texts ≡ ok cs
      → get_elem? cs k ≡ some c
      → (c.index ≡ i + k) × (c.nonce ≡ nonce_of (i + k))
  encrypt_from-nonce key i texts [] k h g = cc
  encrypt_from-nonce key i [] (d ∷ cs) k h g = unfold encrypt_from in cc
  encrypt_from-nonce key i (t ∷ ts) (d ∷ cs) zero h g =
      let (c, rest, e, es, out) = encrypt_from-cons key i t ts h in
      let fields = encrypt_chunk-fields key i t e in
      let same : c ≡ d = cc out in
      let here : i ≡ i + 0 = omega arith in
      (ground (arith, fields, same), cc (g, same, fields.1, ap nonce_of here))
  encrypt_from-nonce key i (t ∷ ts) (d ∷ cs) (suc k) h g =
      let (c, rest, e, es, out) = encrypt_from-cons key i t ts h in
      let same : rest ≡ cs = cc out in
      let later = encrypt_from-nonce key (i + 1) ts cs k (es ∙ ap ok same) g in
      let shift : i + 1 + k ≡ i + suc k = omega arith in
      (ground (arith, later), later.1 ∙ ap nonce_of shift)

  -- `decrypt_chunk` succeeds exactly at a chunk with the expected index field and a nonce of 12
  -- bytes whose ciphertext is the encryption of the result under that nonce.
  pub decrypt_chunk_iff :
      (key : FileKey) (expected : ℕ) (c : ChunkCiphertext) (text : Bytes)
      → (decrypt_chunk aead key expected c ≡ ok text) ↔ (
          (c.index ≡ expected)
          × (length c.nonce ≡ 12)
          × (aead.encrypt key.bytes c.nonce text ≡ some c.ciphertext))
  unfolding decrypt_chunk
  decrypt_chunk_iff key expected c text =
      (λ h. grind (arith, aead.decrypt_sound), λ h. grind (arith, aead.decrypt-encrypt))

  -- A chunk made at one index, its index field rewritten, decrypts at any other index.
  pub decrypt_chunk-relabelled :
      (key : FileKey) (made_at shown_at : ℕ) (text : Bytes) (c : ChunkCiphertext)
      → encrypt_chunk aead key made_at text ≡ ok c
      → decrypt_chunk aead key shown_at (record c { index = shown_at }) ≡ ok text
  unfolding decrypt_chunk
  decrypt_chunk-relabelled key i j text c h =
      let fields = encrypt_chunk-fields key i text h in
      let opens = aead.decrypt-encrypt key.bytes (nonce_of i) text c.ciphertext fields.2 in
      ground (arith, fields, opens, length-nonce_of i)

  decrypt_from-prefix :
      (key : FileKey) (i : ℕ) (cs : List ChunkCiphertext) (before : Bytes) {text : Bytes}
      → decrypt_from aead key i cs before ≡ ok text
      → (r : Bytes) × (text ≡ before ++ r)
  unfolding decrypt_from
  decrypt_from-prefix key i [] before h = ([], cc (h, append-nil before))
  decrypt_from-prefix key i (c ∷ cs) before h =
      let (t, e, more) = first_step (decrypt_chunk aead key i c) _ _ h in
      let (r, s) = decrypt_from-prefix key (i + 1) cs (before ++ t) more in
      (t ++ r, s ∙ append_assoc before t r)

  decrypt_from-append :
      (key : FileKey) (i : ℕ) (front back : List ChunkCiphertext) (before : Bytes) {text : Bytes}
      → decrypt_from aead key i (front ++ back) before ≡ ok text
      → (q r : Bytes) × (decrypt_from aead key i front before ≡ ok q) × (text ≡ q ++ r)
  unfolding decrypt_from
  decrypt_from-append key i [] back before h =
      let (r, s) = decrypt_from-prefix key i back before h in (before, r, refl, s)
  decrypt_from-append key i (c ∷ front) back before h =
      let (t, e, more) = first_step (decrypt_chunk aead key i c) _ _ h in
      let (q, r, d, s) = decrypt_from-append key (i + 1) front back (before ++ t) more in
      (q, r, ground (arith, e, d), s)

  -- If a file decrypts, so does every initial part of its chunks, to an initial part of the file:
  -- nothing in the format shows that the rest is missing.
  pub decrypt_file-truncated :
      (key : FileKey) (front back : List ChunkCiphertext) (text : Bytes)
      → decrypt_file aead key (front ++ back) ≡ ok text
      → (q r : Bytes) × (decrypt_file aead key front ≡ ok q) × (text ≡ q ++ r)
  unfolding decrypt_file
  decrypt_file-truncated key front back text h = decrypt_from-append key 0 front back [] h

  -- In an encrypted file the chunk at position `i` has index `i`, and below 2^64 chunks no two
  -- positions have the same nonce.
  pub encrypt_file-nonces :
      (key : FileKey) (plaintext : Bytes) (cs : List ChunkCiphertext) (i j : ℕ)
      (a b : ChunkCiphertext)
      → encrypt_file aead key plaintext ≡ ok cs
      → get_elem? cs i ≡ some a
      → get_elem? cs j ≡ some b
      → i < 256 ^ 8
      → j < 256 ^ 8
      → a.nonce ≡ b.nonce
      → (a.index ≡ i) × (b.index ≡ j) × (i ≡ j)
  unfolding encrypt_file
  encrypt_file-nonces key plaintext cs i j a b h ga gb hi hj e =
      let texts = chunks chunk_size plaintext in
      let at_i = encrypt_from-nonce key 0 texts cs i h ga in
      let at_j = encrypt_from-nonce key 0 texts cs j h gb in
      (
        omega (arith, at_i.0),
        omega (arith, at_j.0),
        nonce_of-injective i j hi hj
            (ap nonce_of (omega arith) ∙ sym at_i.1 ∙ e ∙ at_j.1 ∙ ap nonce_of (omega arith)),
      )
