-- ===== src/Crypto/Toy.antt =====
-- Concrete stand-ins for the crates that packages/crypto calls: they meet the laws assumed of those
-- crates, and the examples run on them.
use free_box.Prelude.{
  ◌≢◌, true, ◌++◌, bytes_eq, bytes_eq_refl, ℕ, ◌+◌, ◌*◌, ◌≡◌, refl, Option, none, some, [], ◌∷◌,
  arith, ◌==◌, if◌then◌else◌,
}
use Prim.Native.String.{String, count}
use free_box.Crypto.Aead.{Aead, Bytes}
use free_box.Crypto.Curves.{Ed25519, X25519, zero_key}

abbrev pub total : Bytes → ℕ
total [] = 0
total (x ∷ xs) = x + 2 * total xs

-- The tag is a sum over the key and the nonce, in front of the plaintext.
abbrev pub toy_open : ℕ → Bytes → Option Bytes
toy_open tag [] = none
toy_open tag (t ∷ p) = if t == tag then some p else none

pub toy_open-tag : (tag : ℕ) (p c : Bytes) → some (tag ∷ p) ≡ some c → toy_open tag c ≡ some p
toy_open-tag tag p [] h = cc
toy_open-tag tag p (t ∷ q) h = ground arith

pub toy_open_sound : (tag : ℕ) (c p : Bytes) → toy_open tag c ≡ some p → some (tag ∷ p) ≡ some c
toy_open_sound tag [] p h = cc
toy_open_sound tag (t ∷ q) p h = ground arith

abbrev pub toy : Aead
toy = record {
  encrypt = λ k n p. some ((total k + total n) ∷ p);
  decrypt = λ k n c. toy_open (total k + total n) c;
  encrypt_total = λ k n p h. ((total k + total n) ∷ p, refl);
  decrypt-encrypt = λ k n p c. toy_open-tag (total k + total n) p c;
  decrypt_sound = λ k n c p. toy_open_sound (total k + total n) c p;
}

abbrev pub toy_kdf : String → Bytes → Bytes
toy_kdf context material = count context ∷ material

-- A public key is 1 in front of its secret; both schemes share it.
abbrev pub toy_public : Bytes → Bytes
toy_public s = 1 ∷ s

pub toy_public_ne_zero : (s : Bytes) → toy_public s ≢ zero_key
toy_public_ne_zero s h = ground arith

pub toy_verify-sign : (s m : Bytes) → bytes_eq (toy_public s ++ m) (toy_public s ++ m) ≡ true
toy_verify-sign s m = bytes_eq_refl (toy_public s ++ m)

abbrev pub toy_ed : Ed25519
toy_ed = record {
  verifying_key = toy_public;
  is_key = λ k. true;
  sign = λ s m. toy_public s ++ m;
  verify = λ k m signature. bytes_eq (k ++ m) signature;
  is_key-verifying_key = λ s. refl;
  verify-sign = toy_verify-sign;
  verifying_key_ne_zero = toy_public_ne_zero;
}

pub toy_dh_comm :
    (a b : Bytes)
    → (total (toy_public a) + total (toy_public b)) ∷ []
      ≡ (total (toy_public b) + total (toy_public a)) ∷ []
toy_dh_comm a b = ground arith

abbrev pub toy_curve : X25519
toy_curve = record {
  public_key = toy_public;
  diffie_hellman = λ s p. (total (toy_public s) + total p) ∷ [];
  diffie_hellman_comm = toy_dh_comm;
  public_key_ne_zero = toy_public_ne_zero;
}
