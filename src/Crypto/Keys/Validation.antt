-- ===== src/Crypto/Keys/Validation.antt =====
-- packages/crypto/src/keys.rs: what `validate_public` accepts.
use free_box.Prelude.{
  ℕ, ◌≤◌, ◌≡◌, refl, ◌≢◌, ◌↔◌, true, false, List, [], ◌∷◌, length, arith, bytes_eq,
  bytes_eq-false_iff,
}
use free_box.Outcome.{ok, reject_if, reject_if-ok_iff, ◌>>◌}
use free_box.Crypto.Curves.{Ed25519, zero_key}
use free_box.Crypto.Keys.{
  OneTimePrekey, PrekeyBundle, max_one_time_prekeys, contains, duplicate_id, zero_one_time_key,
  validate_each, validate_public,
}

-- `id` is not among the ids of `ks`.
abbrev pub Absent : ℕ → List ℕ → Type 0
Absent id [] = Unit
Absent id (i ∷ is) = (i ≢ id) × Absent id is

-- Every key is nonzero, and no id stands twice or in `seen`.
abbrev pub Usable : List ℕ → List OneTimePrekey → Type 0
Usable seen [] = Unit
Usable seen (k ∷ ks) = (k.public_key ≢ zero_key) × Absent k.id seen × Usable (k.id ∷ seen) ks

pub contains_iff : (seen : List ℕ) (id : ℕ) → (contains seen id ≡ false) ↔ Absent id seen
contains_iff [] id = (λ h. tt, λ h. refl)
contains_iff (i ∷ is) id = ground (arith, contains_iff is id)

pub validate_each_iff :
    (seen : List ℕ) (ks : List OneTimePrekey) → (validate_each seen ks ≡ ok tt) ↔ Usable seen ks
unfolding validate_each
validate_each_iff seen [] = (λ h. tt, λ h. refl)
validate_each_iff seen (k ∷ ks) =
    let nonzero = bytes_eq-false_iff k.public_key zero_key in
    let fresh = contains_iff seen k.id in
    let rest = validate_each_iff (k.id ∷ seen) ks in
    let inner =
      reject_if-ok_iff (contains seen k.id) duplicate_id (validate_each (k.id ∷ seen) ks) in
    let outer =
      reject_if-ok_iff (bytes_eq k.public_key zero_key) zero_one_time_key
        (reject_if (contains seen k.id) duplicate_id >> validate_each (k.id ∷ seen) ks) in
    (
      λ h. let (z, h') = outer.0 h in let (d, r) = inner.0 h' in (nonzero.0 z, fresh.0 d, rest.0 r),
      λ u. outer.1 (nonzero.1 u.0, inner.1 (fresh.1 u.1, rest.1 u.2)),
    )

module _ (ed : Ed25519) where
  -- A bundle is accepted exactly when neither long-term key is zero, there are at most 1,000
  -- one-time prekeys, the identity key is a key whose signature on the signed prekey verifies, and
  -- the one-time prekeys are nonzero with ids that differ.
  pub validate_public_iff :
      (b : PrekeyBundle)
      → (validate_public ed b ≡ ok tt) ↔ (
          (b.identity_key ≢ zero_key)
          × (b.signed_prekey.public_key ≢ zero_key)
          × (length b.one_time_prekeys ≤ max_one_time_prekeys)
          × (ed.is_key b.identity_key ≡ true)
          × (ed.verify b.identity_key b.signed_prekey.public_key b.signed_prekey.signature ≡ true)
          × Usable [] b.one_time_prekeys)
  unfolding validate_public
  validate_public_iff b =
      let each = validate_each_iff [] b.one_time_prekeys in
      let identity = bytes_eq-false_iff b.identity_key zero_key in
      let signed = bytes_eq-false_iff b.signed_prekey.public_key zero_key in
      (λ h. ground (arith, each, identity, signed), λ h. ground (arith, each, identity, signed))
