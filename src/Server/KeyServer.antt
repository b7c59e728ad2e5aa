-- ===== src/Server/KeyServer.antt =====
-- apps/server/src/api/keys.rs: prekey bundles of the users, in the table `prekey_bundles`. The JSON column
-- `bundle` is the bundle that serde writes and reads.
pub mod Batch
mod Tests
use free_box.Prelude.{
  ℕ, Bool, true, false, Option, none, some, List, [], ◌∷◌, ◌++◌, length, ltb, ◌==◌, if◌then◌else◌,
}
use free_box.Outcome
use free_box.Outcome.{Result, ok, err, reject_if}
use free_box.Server.Error.{AppError, bad_request, not_found}
use free_box.Server.Handler.{Handler, lift, gets, require, modify, await, ◌>>=◌, ◌>>◌}
use free_box.Crypto.Keys.{KeyError, OneTimePrekey, PrekeyBundle, contains, validate_one_time}

abbrev pub Bundles : Type 0
Bundles = ℕ → Option PrekeyBundle

unfoldable pub get_bundle : (ℕ → Bool) → ℕ → Handler Bundles PrekeyBundle
get_bundle io user_id = do await (io 0); row ← gets (λ s. s user_id); require row not_found

abbrev pub max_replenish_one_time_prekeys : ℕ
max_replenish_one_time_prekeys = 1000

-- `.map_err(|e| AppError::BadRequest(..))`
abbrev pub as_bad_request : Result KeyError (Unit {0}) → Result AppError (Unit {0})
as_bad_request (ok u) = ok u
as_bad_request (err e) = err bad_request

-- the loop of `validate_one_time_prekey_batch`
unfoldable pub validate_batch_each : List ℕ → List OneTimePrekey → Result AppError (Unit {0})
unfolding validate_one_time
validate_batch_each seen [] = ok tt
validate_batch_each seen (k ∷ ks) = Outcome.◌>>◌ (as_bad_request (validate_one_time k)) (
    Outcome.◌>>◌ (reject_if (contains seen k.id) bad_request)
      (validate_batch_each (k.id ∷ seen) ks))

abbrev pub none_given : List OneTimePrekey → Bool
none_given [] = true
none_given (k ∷ ks) = false

unfoldable pub validate_one_time_prekey_batch : List OneTimePrekey → Result AppError (Unit {0})
unfolding validate_batch_each
validate_one_time_prekey_batch keys = Outcome.◌>>◌ (reject_if (none_given keys) bad_request) (
    Outcome.◌>>◌ (reject_if (ltb max_replenish_one_time_prekeys (length keys)) bad_request)
      (validate_batch_each [] keys))

-- `jsonb_set(bundle, '{one_time_prekeys}', (bundle->'one_time_prekeys') || $2)`
abbrev pub with_keys : List OneTimePrekey → Option PrekeyBundle → Option PrekeyBundle
with_keys keys none = none
with_keys keys (some b) = some (record b { one_time_prekeys = b.one_time_prekeys ++ keys })

unfoldable pub replenish_one_time : (ℕ → Bool) → ℕ → List OneTimePrekey → Handler Bundles (Unit {0})
unfolding validate_one_time_prekey_batch
replenish_one_time io user_id new_keys = do
  lift (validate_one_time_prekey_batch new_keys)
  await (io 0)
  modify (λ s j. if user_id == j then with_keys new_keys (s j) else s j)
