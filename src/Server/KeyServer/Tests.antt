-- ===== src/Server/KeyServer/Tests.antt =====
-- The key server of apps/server/src/api/keys.rs at concrete inputs, with the toy curves.
use free_box.Prelude.{◌≡◌, ◌≢◌, refl, true, none, some, [], ◌∷◌, arith, ◌==◌, if◌then◌else◌}
use free_box.Outcome.{ok}
use free_box.Crypto.Toy.{toy_ed, toy_curve}
use free_box.Crypto.Keys.{OneTimePrekey, PrekeyBundle, from_bytes, generate, validate_public}
use free_box.Crypto.Keys.Generation.{validate_public-generate}
use free_box.Server.KeyServer.{Bundles, get_bundle, replenish_one_time}
use free_box.Server.KeyServer.Batch.{replenish_spoils_bundle}

abbrev prekey : OneTimePrekey
prekey = record { id = 0; public_key = 1 ∷ 0 ∷ [] }

abbrev bundle : PrekeyBundle
bundle = generate toy_ed toy_curve (from_bytes toy_ed (3 ∷ [])) 1 (4 ∷ []) 99 (λ i. i ∷ [])

abbrev served : Bundles
served user = if user == 5 then some bundle else none

one_prekey : bundle.one_time_prekeys ≡ prekey ∷ []
unfolding generate
one_prekey = refl

replenish_spoils_bundle_example :
    (got : PrekeyBundle) × ((replenish_one_time (λ _. true) 5 (prekey ∷ []) served).0 ≡ ok tt)
    × (get_bundle (λ _. true) 5 (replenish_one_time (λ _. true) 5 (prekey ∷ []) served).1
        ≡ (ok got, (replenish_one_time (λ _. true) 5 (prekey ∷ []) served).1))
    × (validate_public toy_ed got ≢ ok tt)
replenish_spoils_bundle_example =
    replenish_spoils_bundle toy_ed 5 served bundle prekey [] refl one_prekey
      (validate_public-generate toy_ed toy_curve (3 ∷ []) (4 ∷ []) 1 99 (λ i. i ∷ [])
        (omega arith)).0
