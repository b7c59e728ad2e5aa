-- ===== src/Crypto/Curves.antt =====
-- The `ed25519-dalek` and `x25519-dalek` crates, which packages/crypto/src calls: parameters with
-- their documented behaviour. A secret, a public key and a signature are byte strings.
use free_box.Prelude.{◌≡◌, ◌≢◌, Bool, true, replicate}
use free_box.Crypto.Aead.{Bytes}

abbrev pub zero_key : Bytes
zero_key = replicate 32 0

pub record Ed25519 : Type 0 where
  -- `SigningKey::verifying_key`
  pub verifying_key : Bytes → Bytes
  -- `VerifyingKey::from_bytes` accepts
  pub is_key : Bytes → Bool
  pub sign : Bytes → Bytes → Bytes
  -- key, message, signature: `verify_strict`
  pub verify : Bytes → Bytes → Bytes → Bool
  pub is_key-verifying_key : (s : Bytes) → is_key (verifying_key s) ≡ true
  pub verify-sign : (s m : Bytes) → verify (verifying_key s) m (sign s m) ≡ true
  pub verifying_key_ne_zero : (s : Bytes) → verifying_key s ≢ zero_key

pub record X25519 : Type 0 where
  -- `PublicKey::from(&secret)`
  pub public_key : Bytes → Bytes
  -- secret and the other side's public key
  pub diffie_hellman : Bytes → Bytes → Bytes
  pub diffie_hellman_comm :
      (a b : Bytes) → diffie_hellman a (public_key b) ≡ diffie_hellman b (public_key a)
  pub public_key_ne_zero : (s : Bytes) → public_key s ≢ zero_key
