-- ===== src/Crypto/X3dh.antt =====
-- packages/crypto/src/signal.rs: the X3DH key agreement. The ephemeral secret that the initiator
-- draws is an argument; a public key is read from its bytes as they are.
pub mod Agreement
mod Tests
use free_box.Prelude.{ℕ, Bool, not, Option, none, some, List, [], ◌∷◌, ◌++◌}
use free_box.Outcome.{Result, ok, err, reject_if, ◌>>=◌, ◌>>◌}
use free_box.Crypto.Aead.{Bytes}
use free_box.Crypto.Curves.{Ed25519, X25519}
use free_box.Crypto.Keys.{
  KeyError, invalid_identity_key, bad_signature, OneTimePrekey, PrekeyBundle,
}
use free_box.Crypto.Ratchet.{Kdf, x3dh_domain}

pub record X3dhInitiation : Type 0 where
  pub shared_secret : Bytes
  pub ephemeral_public_key : Bytes
  pub one_time_prekey_id : Option ℕ

unfoldable pub verify_signed_prekey : Ed25519 → Bytes → Bytes → Bytes → Result KeyError (Unit {0})
verify_signed_prekey ed identity_key signed_prekey signature = do
  reject_if (not (ed.is_key identity_key)) invalid_identity_key
  reject_if (not (ed.verify identity_key signed_prekey signature)) bad_signature

-- `one_time_prekeys.first()`
abbrev pub first : List OneTimePrekey → Option OneTimePrekey
first [] = none
first (k ∷ ks) = some k

-- the optional fourth input of the hash
abbrev pub or_nothing : Option Bytes → Bytes
or_nothing none = []
or_nothing (some b) = b

module _ (curve : X25519) (derive_key : Kdf) where
  -- the initiator's fourth agreement and the id of the prekey it used
  abbrev pub fourth : Bytes → Option OneTimePrekey → Option Bytes × Option ℕ
  fourth ephemeral none = (none, none)
  fourth ephemeral (some otp) = (some (curve.diffie_hellman ephemeral otp.public_key), some otp.id)

  unfoldable pub x3dh_initiate :
      Ed25519 → Bytes → Bytes → PrekeyBundle → Result KeyError X3dhInitiation
  unfolding verify_signed_prekey
  x3dh_initiate ed alice_identity ephemeral bob = do
    verify_signed_prekey ed bob.identity_key bob.signed_prekey.public_key
        bob.signed_prekey.signature
    let dh1 = curve.diffie_hellman alice_identity bob.signed_prekey.public_key
    let dh2 = curve.diffie_hellman ephemeral bob.identity_key
    let dh3 = curve.diffie_hellman ephemeral bob.signed_prekey.public_key
    let (dh4, id) = fourth ephemeral (first bob.one_time_prekeys)
    ok (record {
      shared_secret = derive_key x3dh_domain (dh1 ++ dh2 ++ dh3 ++ or_nothing dh4);
      ephemeral_public_key = curve.public_key ephemeral;
      one_time_prekey_id = id;
    })

  -- the responder's fourth agreement
  abbrev pub fourth_back : Option Bytes → Bytes → Option Bytes
  fourth_back none alice_ephemeral = none
  fourth_back (some secret) alice_ephemeral = some (curve.diffie_hellman secret alice_ephemeral)

  unfoldable pub x3dh_respond : Bytes → Bytes → Option Bytes → Bytes → Bytes → Bytes
  x3dh_respond bob_identity bob_signed bob_one_time alice_identity alice_ephemeral =
      let dh1 = curve.diffie_hellman bob_signed alice_identity in
      let dh2 = curve.diffie_hellman bob_identity alice_ephemeral in
      let dh3 = curve.diffie_hellman bob_signed alice_ephemeral in
      derive_key x3dh_domain
        (dh1 ++ dh2 ++ dh3 ++ or_nothing (fourth_back bob_one_time alice_ephemeral))
