-- ===== src/Crypto/X3dh/Tests.antt =====
-- X3DH of packages/crypto/src/signal.rs at a concrete input, with the toy curve and a signature scheme of other keys.
use free_box.Prelude.{
  ◌≡◌, ◌≢◌, ◌↔◌, refl, true, some, [], ◌∷◌, ◌++◌, bytes_eq, bytes_eq_refl, arith,
}
use free_box.Crypto.Aead.{Bytes}
use free_box.Crypto.Curves.{Ed25519, zero_key}
use free_box.Crypto.Ratchet.{x3dh_domain}
use free_box.Crypto.Toy.{toy_curve, toy_kdf}
use free_box.Crypto.Keys.{PrekeyBundle}
use free_box.Crypto.X3dh.{X3dhInitiation, x3dh_initiate, x3dh_respond}
use free_box.Crypto.X3dh.Agreement.{x3dh_respond-x3dh_initiate}

two_ne_zero : (s : Bytes) → 2 ∷ s ≢ zero_key
two_ne_zero s h = ground arith

-- A signature scheme with keys of its own, as Ed25519 has.
abbrev signer : Ed25519
signer = record {
  verifying_key = λ s. 2 ∷ s;
  is_key = λ k. true;
  sign = λ s m. 2 ∷ (s ++ m);
  verify = λ k m signature. bytes_eq (k ++ m) signature;
  is_key-verifying_key = λ s. refl;
  verify-sign = λ s m. bytes_eq_refl (2 ∷ (s ++ m));
  verifying_key_ne_zero = two_ne_zero;
}

-- A bundle like those of `PrekeyBundle::generate`: the identity key is the one that signs.
abbrev bundle : PrekeyBundle
bundle = record {
  identity_key = signer.verifying_key (3 ∷ []);
  signed_prekey = record {
    public_key = toy_curve.public_key (4 ∷ []);
    signature = signer.sign (3 ∷ []) (toy_curve.public_key (4 ∷ []));
    created_at = 99;
  };
  one_time_prekeys = record { id = 0; public_key = toy_curve.public_key (5 ∷ []) } ∷ [];
}

abbrev initiation : X3dhInitiation
initiation = record {
  shared_secret = 15 ∷ 22 ∷ 23 ∷ 24 ∷ 26 ∷ [];
  ephemeral_public_key = toy_curve.public_key (7 ∷ []);
  one_time_prekey_id = some 0;
}

kdf_injective : (m n : Bytes) → toy_kdf x3dh_domain m ≡ toy_kdf x3dh_domain n → m ≡ n
kdf_injective m n h = cc h

x3dh_respond-x3dh_initiate_example :
    (x3dh_respond toy_curve toy_kdf
        (3 ∷ [])
        (4 ∷ [])
        (some (5 ∷ []))
        (toy_curve.public_key (6 ∷ []))
        initiation.ephemeral_public_key
      ≡ initiation.shared_secret)
    ↔ (toy_curve.diffie_hellman (3 ∷ []) (toy_curve.public_key (7 ∷ []))
        ≡ toy_curve.diffie_hellman (7 ∷ []) bundle.identity_key)
unfolding x3dh_initiate bytes_eq
x3dh_respond-x3dh_initiate_example =
    x3dh_respond-x3dh_initiate toy_curve toy_kdf signer (6 ∷ []) (7 ∷ []) (3 ∷ []) (4 ∷ [])
      (some (5 ∷ [])) bundle initiation 1 kdf_injective (λ a p. refl) refl refl refl
