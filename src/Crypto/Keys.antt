-- ===== src/Crypto/Keys.antt =====
-- packages/crypto/src/keys.rs: prekey bundles, their generation and their public validation. What
-- the random generator and the clock return are arguments.
pub mod Validation
pub mod Generation
mod Tests
use free_box.Prelude.{
  ℕ, zero, suc, ◌+◌, Bool, false, not, ◌||◌, List, [], ◌∷◌, length, ltb, ◌==◌, bytes_eq,
}
use free_box.Outcome.{Result, ok, err, reject_if, ◌>>=◌, ◌>>◌}
use free_box.Crypto.Aead.{Bytes}
use free_box.Crypto.Curves.{Ed25519, X25519, zero_key}

abbrev pub max_one_time_prekeys : ℕ
max_one_time_prekeys = 1000

pub record IdentityKeyPair : Type 0 where
  pub signing : Bytes
  pub verifying : Bytes

pub record SignedPrekey : Type 0 where
  pub public_key : Bytes
  pub signature : Bytes
  pub created_at : ℕ

pub record OneTimePrekey : Type 0 where
  pub id : ℕ
  pub public_key : Bytes

pub record PrekeyBundle : Type 0 where
  pub identity_key : Bytes
  pub signed_prekey : SignedPrekey
  pub one_time_prekeys : List OneTimePrekey

pub data KeyError : Type 0 where
  zero_one_time_key zero_identity_key zero_signed_prekey too_many_prekeys : KeyError
  invalid_identity_key bad_signature duplicate_id : KeyError

-- `OneTimePrekey::validate_public`
unfoldable pub validate_one_time : OneTimePrekey → Result KeyError (Unit {0})
validate_one_time k = reject_if (bytes_eq k.public_key zero_key) zero_one_time_key

-- the set `seen_ids`
abbrev pub contains : List ℕ → ℕ → Bool
contains [] id = false
contains (i ∷ is) id = i == id || contains is id

-- the loop over `one_time_prekeys`
unfoldable pub validate_each : List ℕ → List OneTimePrekey → Result KeyError (Unit {0})
unfolding validate_one_time
validate_each seen [] = ok tt
validate_each seen (k ∷ ks) = do
  validate_one_time k
  reject_if (contains seen k.id) duplicate_id
  validate_each (k.id ∷ seen) ks

module _ (ed : Ed25519) where
  -- `IdentityKeyPair::from_bytes`; `generate` is the same at a random secret
  unfoldable pub from_bytes : Bytes → IdentityKeyPair
  from_bytes secret = record { signing = secret; verifying = ed.verifying_key secret }

  -- `PrekeyBundle::validate_public`
  unfoldable pub validate_public : PrekeyBundle → Result KeyError (Unit {0})
  validate_public b = do
    reject_if (bytes_eq b.identity_key zero_key) zero_identity_key
    reject_if (bytes_eq b.signed_prekey.public_key zero_key) zero_signed_prekey
    reject_if (ltb max_one_time_prekeys (length b.one_time_prekeys)) too_many_prekeys
    reject_if (not (ed.is_key b.identity_key)) invalid_identity_key
    reject_if (not (ed.verify b.identity_key b.signed_prekey.public_key b.signed_prekey.signature))
        bad_signature
    validate_each [] b.one_time_prekeys

module _ (ed : Ed25519) (curve : X25519) where
  -- `SignedPrekey::generate` at a random secret and the time
  unfoldable pub generate_signed : IdentityKeyPair → Bytes → ℕ → SignedPrekey
  generate_signed identity secret now =
      let public = curve.public_key secret in
      record { public_key = public; signature = ed.sign identity.signing public; created_at = now }

  -- the loop `for id in 0..one_time_count`, with `count` rounds left; `secrets i` is the secret of
  -- round `i`
  unfoldable pub one_time_from : ℕ → ℕ → (ℕ → Bytes) → List OneTimePrekey
  one_time_from zero id secrets = []
  one_time_from (suc count) id secrets =
      record { id = id; public_key = curve.public_key (secrets id) }
      ∷ one_time_from count (id + 1) secrets

  -- `PrekeyBundle::generate`
  unfoldable pub generate : IdentityKeyPair → ℕ → Bytes → ℕ → (ℕ → Bytes) → PrekeyBundle
  unfolding generate_signed one_time_from
  generate identity one_time_count secret now secrets = record {
    identity_key = identity.verifying;
    signed_prekey = generate_signed identity secret now;
    one_time_prekeys = one_time_from one_time_count 0 secrets;
  }
