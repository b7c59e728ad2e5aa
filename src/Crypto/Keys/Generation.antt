-- ===== src/Crypto/Keys/Generation.antt =====
-- packages/crypto/src/keys.rs: the bundles that `PrekeyBundle::generate` makes.
use free_box.Prelude.{ℕ, zero, suc, ◌+◌, ◌≤◌, ◌<◌, ◌≡◌, refl, ap, List, [], ◌∷◌, length, All, arith}
use free_box.Outcome.{ok}
use free_box.Crypto.Aead.{Bytes}
use free_box.Crypto.Curves.{Ed25519, X25519}
use free_box.Crypto.Keys.{
  max_one_time_prekeys, from_bytes, validate_public, generate, one_time_from,
}
use free_box.Crypto.Keys.Validation.{Absent, Usable, validate_public_iff}

Absent-below : (id : ℕ) (seen : List ℕ) → All (λ i. i < id) seen → Absent id seen
Absent-below id [] h = tt
Absent-below id (i ∷ is) h = (omega arith, Absent-below id is h.1)

All-below-suc : (id : ℕ) (seen : List ℕ) → All (λ i. i < id) seen → All (λ i. i < id + 1) seen
All-below-suc id [] h = tt
All-below-suc id (i ∷ is) h = (omega arith, All-below-suc id is h.1)

module _ (ed : Ed25519) (curve : X25519) where
  Usable-one_time_from :
      (count id : ℕ) (secrets : ℕ → Bytes) (seen : List ℕ)
      → All (λ i. i < id) seen
      → Usable seen (one_time_from ed curve count id secrets)
  unfolding one_time_from
  Usable-one_time_from zero id secrets seen h = tt
  Usable-one_time_from (suc count) id secrets seen h = (
    curve.public_key_ne_zero (secrets id),
    Absent-below id seen h,
    Usable-one_time_from count (id + 1) secrets (id ∷ seen) (omega arith, All-below-suc id seen h),
  )

  length-one_time_from :
      (count id : ℕ) (secrets : ℕ → Bytes)
      → length (one_time_from ed curve count id secrets) ≡ count
  unfolding one_time_from
  length-one_time_from zero id secrets = refl
  length-one_time_from (suc count) id secrets = ap suc (length-one_time_from count (id + 1) secrets)

  -- A bundle generated with at most 1,000 one-time prekeys, by an identity restored from its secret,
  -- passes the public validation and has the number of one-time prekeys asked for.
  pub validate_public-generate :
      (identity_secret secret : Bytes) (count now : ℕ) (secrets : ℕ → Bytes)
      → count ≤ max_one_time_prekeys
      → let bundle = generate ed curve (from_bytes ed identity_secret) count secret now secrets in
        (validate_public ed bundle ≡ ok tt) × (length bundle.one_time_prekeys ≡ count)
  unfolding generate from_bytes
  validate_public-generate identity_secret secret count now secrets h =
      let bundle = generate ed curve (from_bytes ed identity_secret) count secret now secrets in
      (
        (validate_public_iff ed bundle).1 (
          ed.verifying_key_ne_zero identity_secret,
          curve.public_key_ne_zero secret,
          omega (arith, length-one_time_from count 0 secrets),
          ed.is_key-verifying_key identity_secret,
          ed.verify-sign identity_secret (curve.public_key secret),
          Usable-one_time_from count 0 secrets [] tt,
        ),
        length-one_time_from count 0 secrets,
      )
