-- ===== src/Crypto/X3dh/Agreement.antt =====
-- packages/crypto/src/signal.rs: when the two sides of X3DH derive one secret. The code takes the Ed25519
-- identity key of a bundle for an X25519 public key.
use free_box.Prelude.{
  ℕ, ◌≡◌, ◌↔◌, refl, sym, ap, ◌∙◌, true, Option, none, some, ◌++◌, length, length-append, take,
  drop, arith,
}
use free_box.Texts.Find.{take-length_append, drop-length_append}
use free_box.Outcome.{ok}
use free_box.Crypto.Aead.{Bytes}
use free_box.Crypto.Curves.{Ed25519, X25519}
use free_box.Crypto.Keys.{OneTimePrekey, PrekeyBundle}
use free_box.Crypto.Ratchet.{Kdf, x3dh_domain}
use free_box.Crypto.X3dh.{
  X3dhInitiation, first, fourth, fourth_back, or_nothing, x3dh_initiate, x3dh_respond,
}

fronts : (xs ys a b : Bytes) → length xs ≡ length ys → xs ++ a ≡ ys ++ b → xs ≡ ys
fronts xs ys a b h e =
    sym (take-length_append xs a)
    ∙ ap (take (length xs)) e
    ∙ ap (λ n. take n (ys ++ b)) h
    ∙ take-length_append ys b

rests : (xs ys a b : Bytes) → length xs ≡ length ys → xs ++ a ≡ ys ++ b → a ≡ b
rests xs ys a b h e =
    sym (drop-length_append xs a)
    ∙ ap (drop (length xs)) e
    ∙ ap (λ n. drop n (ys ++ b)) h
    ∙ drop-length_append ys b

module _ (curve : X25519) (derive_key : Kdf) where
  -- `secret` is the secret of the one-time prekey that the bundle offers, if it offers one.
  abbrev pub SecretOf : Option OneTimePrekey → Option Bytes → Type 0
  SecretOf none none = Unit
  SecretOf (some otp) (some secret) = otp.public_key ≡ curve.public_key secret
  SecretOf none (some secret) = ⊥
  SecretOf (some otp) none = ⊥

  fourth_agree :
      (ephemeral : Bytes) (otp : Option OneTimePrekey) (secret : Option Bytes)
      → SecretOf otp secret
      → fourth_back curve derive_key secret (curve.public_key ephemeral)
        ≡ (fourth curve derive_key ephemeral otp).0
  fourth_agree e none none h = refl
  fourth_agree e none (some s) h = absurd h
  fourth_agree e (some otp) none h = absurd h
  fourth_agree e (some otp) (some s) h = cc (h, curve.diffie_hellman_comm e s)

  -- What the initiator hands over: both signature checks passed, the ephemeral key and the id of the
  -- one-time prekey are those that went into the secret.
  pub x3dh_initiate-fields :
      (ed : Ed25519) (alice_identity ephemeral : Bytes) (bundle : PrekeyBundle)
      (init : X3dhInitiation)
      → x3dh_initiate curve derive_key ed alice_identity ephemeral bundle ≡ ok init
      → (ed.is_key bundle.identity_key ≡ true)
        × (ed.verify bundle.identity_key bundle.signed_prekey.public_key
              bundle.signed_prekey.signature
            ≡ true)
        × (init.ephemeral_public_key ≡ curve.public_key ephemeral)
        × (init.one_time_prekey_id
            ≡ (fourth curve derive_key ephemeral (first bundle.one_time_prekeys)).1)
        × (init.shared_secret
            ≡ derive_key x3dh_domain (
                curve.diffie_hellman alice_identity bundle.signed_prekey.public_key
                ++ curve.diffie_hellman ephemeral bundle.identity_key
                ++ curve.diffie_hellman ephemeral bundle.signed_prekey.public_key
                ++ or_nothing
                    (fourth curve derive_key ephemeral (first bundle.one_time_prekeys)).0))
  unfolding x3dh_initiate
  x3dh_initiate-fields ed a e bundle init h = ground arith

  -- Take a key derivation without collisions, and agreements of one size. Let Alice accept a bundle whose
  -- signed prekey is the X25519 key of Bob's secret, and let him take the secret of the offered one-time
  -- prekey. Both sides end with the same secret exactly if his identity secret with her ephemeral key
  -- gives the agreement of her ephemeral secret with the identity key in the bundle.
  pub x3dh_respond-x3dh_initiate :
      (ed : Ed25519) (alice_identity ephemeral bob_identity bob_signed : Bytes)
      (bob_one_time : Option Bytes) (bundle : PrekeyBundle) (init : X3dhInitiation) (size : ℕ)
      → ((m n : Bytes) → derive_key x3dh_domain m ≡ derive_key x3dh_domain n → m ≡ n)
      → ((a p : Bytes) → length (curve.diffie_hellman a p) ≡ size)
      → x3dh_initiate curve derive_key ed alice_identity ephemeral bundle ≡ ok init
      → bundle.signed_prekey.public_key ≡ curve.public_key bob_signed
      → SecretOf (first bundle.one_time_prekeys) bob_one_time
      → (x3dh_respond curve derive_key bob_identity bob_signed bob_one_time
            (curve.public_key alice_identity)
            init.ephemeral_public_key
          ≡ init.shared_secret)
        ↔ (curve.diffie_hellman bob_identity (curve.public_key ephemeral)
            ≡ curve.diffie_hellman ephemeral bundle.identity_key)
  unfolding x3dh_respond
  x3dh_respond-x3dh_initiate ed a e b s o bundle init size apart sized h hs ho =
      let (_, _, key, _, secret) = x3dh_initiate-fields ed a e bundle init h in
      let mine = curve.diffie_hellman b (curve.public_key e) in
      let hers = curve.diffie_hellman e bundle.identity_key in
      let dh1 = curve.diffie_hellman a bundle.signed_prekey.public_key in
      let dh3 = curve.diffie_hellman e bundle.signed_prekey.public_key in
      let dh4 = or_nothing (fourth curve derive_key e (first bundle.one_time_prekeys)).0 in
      let material = λ (x : Bytes). dh1 ++ x ++ dh3 ++ dh4 in
      let his : x3dh_respond curve derive_key b s o (curve.public_key a) init.ephemeral_public_key
          ≡ derive_key x3dh_domain (material mine) =
        cc (
          key,
          hs,
          curve.diffie_hellman_comm s a,
          curve.diffie_hellman_comm s e,
          fourth_agree e (first bundle.one_time_prekeys) o ho,
        ) in
      (
        λ same.
            let texts = apart (material mine) (material hers) (sym his ∙ same ∙ secret) in
            let level : length (dh1 ++ mine) ≡ length (dh1 ++ hers) = omega (
              arith,
              length-append dh1 mine,
              length-append dh1 hers,
              sized b (curve.public_key e),
              sized e bundle.identity_key,
            ) in
            let level_3 : length (dh1 ++ mine ++ dh3) ≡ length (dh1 ++ hers ++ dh3) =
              omega
                (arith, length-append (dh1 ++ mine) dh3, length-append (dh1 ++ hers) dh3, level) in
            let first_3 = fronts (dh1 ++ mine ++ dh3) (dh1 ++ hers ++ dh3) dh4 dh4 level_3 texts in
            rests dh1 dh1 mine hers refl (fronts (dh1 ++ mine) (dh1 ++ hers) dh3 dh3 level first_3),
        λ same. his ∙ ap (λ x. derive_key x3dh_domain (material x)) same ∙ sym secret,
      )
