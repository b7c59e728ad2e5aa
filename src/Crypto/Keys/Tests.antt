-- ===== src/Crypto/Keys/Tests.antt =====
-- Key bundles of packages/crypto/src/keys.rs at concrete inputs, with the toy curves.
use free_box.Prelude.{◌≤◌, ◌≡◌, ◌≢◌, ◌↔◌, true, [], ◌∷◌, length}
use free_box.Outcome.{ok}
use free_box.Crypto.Curves.{zero_key}
use free_box.Crypto.Toy.{toy_ed, toy_curve}
use free_box.Crypto.Keys.{PrekeyBundle, max_one_time_prekeys, from_bytes, generate, validate_public}
use free_box.Crypto.Keys.Validation.{Usable, validate_public_iff}

abbrev bundle : PrekeyBundle
bundle = generate toy_ed toy_curve (from_bytes toy_ed (3 ∷ [])) 2 (4 ∷ []) 99 (λ i. i ∷ [])

validate_public_iff_example : (validate_public toy_ed bundle ≡ ok tt) ↔ (
    (bundle.identity_key ≢ zero_key)
    × (bundle.signed_prekey.public_key ≢ zero_key)
    × (length bundle.one_time_prekeys ≤ max_one_time_prekeys)
    × (toy_ed.is_key bundle.identity_key ≡ true)
    × (toy_ed.verify bundle.identity_key bundle.signed_prekey.public_key
          bundle.signed_prekey.signature
        ≡ true)
    × Usable [] bundle.one_time_prekeys)
validate_public_iff_example = validate_public_iff toy_ed bundle
