-- ===== src/Crypto/Aead.antt =====
-- The `aes-gcm` crate's cipher, which packages/crypto/src calls: a parameter with its documented
-- behaviour. The plaintext limit is the crate's `P_MAX`.
use free_box.Prelude.{ℕ, ◌≤◌, ◌≡◌, Option, some, List, length}

abbrev pub Bytes : Type 0
Bytes = List ℕ

abbrev pub max_plaintext : ℕ
max_plaintext = 68719476736

-- Key, nonce and text, in this order.
pub record Aead : Type 0 where
  pub encrypt : Bytes → Bytes → Bytes → Option Bytes
  pub decrypt : Bytes → Bytes → Bytes → Option Bytes
  -- encryption fails on an over-long plaintext only
  pub encrypt_total :
      (k n p : Bytes) → length p ≤ max_plaintext → (c : Bytes) × (encrypt k n p ≡ some c)
  -- what was encrypted decrypts
  pub decrypt-encrypt : (k n p c : Bytes) → encrypt k n p ≡ some c → decrypt k n c ≡ some p
  -- the tag and the counter mode are deterministic: only the encryption of a text decrypts to it
  pub decrypt_sound : (k n c p : Bytes) → decrypt k n c ≡ some p → encrypt k n p ≡ some c
